-- ===== src/Secoc/Codec/RoundTrip.antt =====
-- What `secoc_build` sends, `secoc_verify` on the other side accepts, counters permitting.
use ros2_ws_gp.Common.{
  ℕ, ◌+◌, ◌/◌, ◌%◌, ◌^◌, ◌≤◌, ◌<◌, ◌≡◌, refl, ap, inl, inr, false, Option, none, some, [], ◌∷◌,
  ◌++◌, length, arith, Option-cases, ◌∙◌, length-take,
}
use ros2_ws_gp.Common.Int.{ℤ, pos, negsuc, succ, pos_part}
use ros2_ws_gp.Common.Text.{text_beq_iff}
use ros2_ws_gp.Secoc.Bytes.{Bytes, pack_u32, unpack_u16}
use ros2_ws_gp.Secoc.Store.{tx, rx, Files, healthy, Disk, working, counter_in, load, store}
use ros2_ws_gp.Secoc.Store.Laws.{counter_in-store, store_atomic}
use ros2_ws_gp.Secoc.Codec.Freshness.{secoc_mac-lt}
use ros2_ws_gp.Secoc.Codec.{
  fv_max_jump, accepted, candidate, is_outside, message, secoc_mac, secoc_verify, finish_build,
  secoc_build,
}

-- Within the window the received sixteen bits give back the whole counter.
candidate_lem :
    (f n : ℕ) → f < n → n ≤ f + fv_max_jump → n < 2 ^ 32 → candidate (pos f) (n % 2 ^ 16) ≡ n
unfolding candidate
candidate_lem f n above near small = ground arith

unpack_u16-low : (n : ℕ) → unpack_u16 (n / 2 ^ 8 % 2 ^ 8 ∷ n % 2 ^ 8 ∷ []) ≡ n % 2 ^ 16
unfolding unpack_u16
unpack_u16-low n = omega arith

length_four : (m : Bytes) → length m ≡ 4 → (a b c d : ℕ) × (m ≡ a ∷ b ∷ c ∷ d ∷ [])
length_four (a ∷ b ∷ c ∷ d ∷ []) h = (a, b, c, d, refl)
length_four [] h = absurd (omega arith)
length_four (a ∷ []) h = absurd (omega arith)
length_four (a ∷ b ∷ []) h = absurd (omega arith)
length_four (a ∷ b ∷ c ∷ []) h = absurd (omega arith)
length_four (a ∷ b ∷ c ∷ d ∷ e ∷ r) h = absurd (omega arith)

-- The frame that carries a payload of two bytes, a MAC and the low half of the counter.
abbrev frame_of : ℕ → ℕ → Bytes → ℕ → Bytes
frame_of verdict slot mac n = verdict ∷ slot ∷ (mac ++ (n / 2 ^ 8 % 2 ^ 8 ∷ n % 2 ^ 8 ∷ []))

module _ (aes_cmac : Bytes → Bytes → Option Bytes) (key : Bytes) where
  -- Everything that follows from a frame that was built.
  pub record Builds (disk : Disk) (did verdict slot : ℕ) (frame : Bytes) (n : ℕ)
      (files files' : Files) : Type 0 where
    pub mac : Bytes
    pub authentic : secoc_mac aes_cmac key did (verdict ∷ slot ∷ []) (pos n) ≡ some mac
    pub frame_is : frame ≡ frame_of verdict slot mac n
    pub next : succ (load disk.reads tx did files) ≡ pos n
    pub stored : counter_in tx did files' ≡ pos n

  secoc_mac-pos :
      (did : ℕ) (payload : Bytes) (z : ℤ) {m : Bytes}
      → secoc_mac aes_cmac key did payload z ≡ some m
      → z ≡ pos (pos_part z)
  unfolding secoc_mac message pack_u32
  secoc_mac-pos did payload (pos n) h = refl
  secoc_mac-pos did payload (negsuc n) h = ground arith

  finish_build-Builds :
      (disk : Disk) (did verdict slot : ℕ) (files files' : Files) (z : ℤ) (m : Option Bytes)
      {frame : Bytes} {n : ℕ}
      → secoc_mac aes_cmac key did (verdict ∷ slot ∷ []) z ≡ m
      → z ≡ succ (load disk.reads tx did files)
      → finish_build aes_cmac disk.fault did (verdict ∷ slot ∷ []) z files m
        ≡ (some (frame, n), files')
      → Builds disk did verdict slot frame n files files'
  unfolding finish_build
  finish_build-Builds disk did verdict slot files files' z none e next h = cc
  finish_build-Builds disk did verdict slot files files' z (some m) e next h =
      let p = secoc_mac-pos did (verdict ∷ slot ∷ []) z e in
      record {
        mac = m;
        authentic = ground arith;
        frame_is = ground arith;
        next = ground arith;
        stored = ground (arith, store_atomic disk.fault tx did (pos_part z) files);
      }

  pub secoc_build-Builds :
      (disk : Disk) (did verdict slot : ℕ) (files files' : Files) {frame : Bytes} {n : ℕ}
      → secoc_build aes_cmac disk key did (verdict ∷ slot ∷ []) files ≡ (some (frame, n), files')
      → Builds disk did verdict slot frame n files files'
  unfolding secoc_build
  secoc_build-Builds disk did verdict slot files files' h =
      finish_build-Builds disk did verdict slot files files' _ _ refl refl h

  mac-four :
      ((m : Bytes) → (tag : Bytes) → aes_cmac key m ≡ some tag → length tag ≡ 16)
      → (did : ℕ) (payload : Bytes) (z : ℤ) (mac : Bytes)
      → secoc_mac aes_cmac key did payload z ≡ some mac
      → length mac ≡ 4
  unfolding secoc_mac
  mac-four tag_16 did payload z mac h = elim (Option-cases (message did payload z)) [
    | inl bad ↦ ground arith
    | inr (m, e) ↦ elim (Option-cases (aes_cmac key m)) [
      | inl refused ↦ ground arith
      | inr (tag, t) ↦ ground (arith, tag_16 m tag t, length-take 4 tag)
    ]
  ]

  verify_whole :
      (did verdict slot n a b c d : ℕ) (files : Files)
      → secoc_mac aes_cmac key did (verdict ∷ slot ∷ []) (pos n) ≡ some (a ∷ b ∷ c ∷ d ∷ [])
      → candidate (counter_in rx did files) (n % 2 ^ 16) ≡ n
      → is_outside n (counter_in rx did files) ≡ false
      → secoc_verify aes_cmac working key did (frame_of verdict slot (a ∷ b ∷ c ∷ d ∷ []) n) files
        ≡ (accepted (verdict ∷ slot ∷ []) n, (store healthy rx did n files).1)
  unfolding secoc_verify store load
  verify_whole did verdict slot n a b c d files authentic which within =
      rw (unpack_u16-low n, which, authentic, within, (text_beq_iff (a ∷ b ∷ c ∷ d ∷ []) _).1 refl)

  -- A frame that one side built is accepted by the other, which has the same key, while its counter
  -- is above the receiver's floor by at most the accepted jump: the payload and the whole counter
  -- come out, and the floor is raised to it. The tag is taken to be of 16 bytes.
  pub verify-build :
      ((m tag : Bytes) → aes_cmac key m ≡ some tag → length tag ≡ 16)
      → (disk : Disk) (did verdict slot f : ℕ) (sent sent' files : Files) {frame : Bytes} {n : ℕ}
      → secoc_build aes_cmac disk key did (verdict ∷ slot ∷ []) sent ≡ (some (frame, n), sent')
      → counter_in rx did files ≡ pos f
      → f < n
      → n ≤ f + fv_max_jump
      → let (r, files') = secoc_verify aes_cmac working key did frame files in
        (r ≡ accepted (verdict ∷ slot ∷ []) n) × (counter_in rx did files' ≡ pos n)
  unfolding is_outside
  verify-build tag_16 disk did verdict slot f sent sent' files {frame} {n} built floor above near =
      let s = secoc_build-Builds disk did verdict slot sent sent' {frame = frame} {n = n} built in
      let (a, b, c, d, four) =
        length_four s.mac (mac-four tag_16 did _ (pos n) s.mac s.authentic) in
      let small = secoc_mac-lt aes_cmac key did (verdict ∷ slot ∷ []) n s.authentic in
      let whole =
        verify_whole did verdict slot n a b c d files (s.authentic ∙ ap some four)
          (rw floor (candidate_lem f n above near small)) (rw floor (ground arith)) in
      rw (s.frame_is, four, whole) (refl, counter_in-store rx did n files)
