-- ===== src/Tests/Secoc.antt =====
-- SecOC at concrete inputs, with a tag of zeros.
use ros2_ws_gp.Common.{
  ◌∙◌, ℕ, ◌≡◌, ◌≢◌, ◌+◌, ◌*◌, ◌^◌, ◌<◌, refl, Option, some, List, [], ◌∷◌, ◌++◌, length, any, arith,
  ◌==◌, if◌then◌else◌, All,
}
use ros2_ws_gp.Common.Int.{pos}
use ros2_ws_gp.Secoc.Bytes.{Bytes, pack_u16, pack_u32, unpack_u16}
use ros2_ws_gp.Secoc.Store.{
  tx, rx, Files, working, counter_in, write_fails, read_counter, load, store,
}
use ros2_ws_gp.Secoc.Store.Laws.{store_atomic}
use ros2_ws_gp.Secoc.Codec.{message, secoc_mac, finish_build, secoc_build, accepted, secoc_verify}
use ros2_ws_gp.Secoc.Codec.RoundTrip.{verify-build}
use ros2_ws_gp.Secoc.Codec.History.{
  load-counter_in, Arrival, counters_of, Ascends, counters_of-Ascends, no_replay,
}
use ros2_ws_gp.Secoc.Key.{load_key}
use ros2_ws_gp.Secoc.Key.Laws.{hex_of, load_key-hex_of}
use ros2_ws_gp.Secoc.Can.{encode_can, decode_can, passes_filter, decode-encode, passes_filter_lem}

abbrev sixteen : Bytes
sixteen = 0 ∷ 0 ∷ 0 ∷ 0 ∷ 0 ∷ 0 ∷ 0 ∷ 0 ∷ 0 ∷ 0 ∷ 0 ∷ 0 ∷ 0 ∷ 0 ∷ 0 ∷ 0 ∷ []

abbrev zero_tag : Bytes → Bytes → Option Bytes
zero_tag key m = some sixteen

tag_16 : (m tag : Bytes) → zero_tag sixteen m ≡ some tag → length tag ≡ 16
tag_16 m tag e = ground arith

abbrev first_frame : Bytes
first_frame = 1 ∷ 2 ∷ 0 ∷ 0 ∷ 0 ∷ 0 ∷ 0 ∷ 1 ∷ []

abbrev sent : Files
sent = (secoc_build zero_tag working sixteen 1 (1 ∷ 2 ∷ []) []).1

build_first : secoc_build zero_tag working sixteen 1 (1 ∷ 2 ∷ []) [] ≡ (some (first_frame, 1), sent)
unfolding secoc_build secoc_mac message pack_u16 pack_u32 finish_build load counter_in read_counter
    store
build_first = refl

unread : counter_in rx 1 [] ≡ pos 0
unfolding counter_in read_counter
unread = refl

verify-build_example :
    let (r, files') = secoc_verify zero_tag working sixteen 1 first_frame [] in
    (r ≡ accepted (1 ∷ 2 ∷ []) 1) × (counter_in rx 1 files' ≡ pos 1)
verify-build_example =
    verify-build zero_tag sixteen tag_16 working 1 1 2 0 [] sent [] {frame = first_frame} {n = 1}
      build_first unread (omega arith) (omega arith)

abbrev twice : List Arrival
twice = (working, 1, first_frame) ∷ (working, 1, first_frame) ∷ []

counters_of-Ascends_example : Ascends 0 (counters_of zero_tag sixteen 1 twice [])
counters_of-Ascends_example =
    counters_of-Ascends zero_tag sixteen 1 0 twice [] (refl, (refl, tt)) unread (omega arith)

abbrev received : Files
received = (secoc_verify zero_tag working sixteen 1 first_frame []).1

first_accepted :
    secoc_verify zero_tag working sixteen 1 first_frame [] ≡ (accepted (1 ∷ 2 ∷ []) 1, received)
first_accepted =
    let (r, _) =
      verify-build zero_tag sixteen tag_16 working 1 1 2 0 [] sent [] {frame = first_frame} {n = 1}
        build_first unread (omega arith) (omega arith) in
    λ i. (r i, received)

raised_floor : counter_in rx 1 received ≡ pos 1
raised_floor =
    let (_, floor) =
      verify-build zero_tag sixteen tag_16 working 1 1 2 0 [] sent [] {frame = first_frame} {n = 1}
        build_first unread (omega arith) (omega arith) in
    floor

no_replay_example :
    (secoc_verify zero_tag working sixteen 1 first_frame received).0 ≢ accepted (1 ∷ 2 ∷ []) 65537
unfolding unpack_u16
no_replay_example =
    no_replay zero_tag sixteen working working 1 0 1 first_frame [] received {files' = received}
      {p = 1 ∷ 2 ∷ []} {c = 1} (load-counter_in working rx 1 [] refl ∙ unread) (omega arith)
      (omega arith) first_accepted (load-counter_in working rx 1 received refl ∙ raised_floor)
      (omega arith) (omega arith) (omega arith) (1 ∷ 2 ∷ []) 65537

store_atomic_example :
    let (written, files') = store (write_fails 1) rx 1 7 [] in
    counter_in rx 1 files' ≡ (if written then pos 7 else counter_in rx 1 [])
store_atomic_example = store_atomic (write_fails 1) rx 1 7 []

other_identifier : ¬ ((tx ≡ tx) × (◌≡◌ {A = ℕ} 1 2))
other_identifier h = omega (arith, h.1)

load_raw : load_key sixteen ≡ some sixteen
unfolding load_key
load_raw = refl

small_bytes : All (λ b. b < 256) sixteen
small_bytes = ground arith

load_key-hex_of_example : load_key (hex_of sixteen ++ 10 ∷ []) ≡ some sixteen
load_key-hex_of_example = load_key-hex_of sixteen refl small_bytes

decode-encode_example :
    (raw : Bytes) × (encode_can 0x301 (1 ∷ 2 ∷ []) ≡ some raw)
    × (decode_can raw ≡ some (0x301, 2, 1 ∷ 2 ∷ []))
decode-encode_example = decode-encode 0x301 (1 ∷ 2 ∷ []) (omega arith) (omega arith)

abbrev eight : Bytes
eight = 0 ∷ 0 ∷ 0 ∷ 0 ∷ 0 ∷ 0 ∷ 0 ∷ 0 ∷ []

passes_filter_lem_example :
    (masked : ℕ) × (decode_can (0x10 ∷ 3 ∷ 0 ∷ 0 ∷ 8 ∷ 0 ∷ 0 ∷ 0 ∷ eight) ≡ some (masked, 8, eight))
    × (passes_filter (0x300 ∷ 0x310 ∷ []) (0x10 + 3 * 2 ^ 8 + 0 * 2 ^ 16 + 0 * 2 ^ 24)
        ≡ any (λ i. masked == i) (0x300 ∷ 0x310 ∷ []))
passes_filter_lem_example =
    passes_filter_lem 0x300 (0x310 ∷ []) 0x10 3 0 0 8 0 0 0 eight (omega arith, (omega arith, tt))
      refl
