-- ===== src/Secoc/Codec/History.antt =====
-- A receiver over time: frames of every identifier, on a disk whose stores may fail, and through
-- restarts, since all that `secoc_verify` remembers is in the files.
use native.Mathlib.Decide.{ℕ_discrete}
use ros2_ws_gp.Common.{
  ℕ, ◌+◌, ◌^◌, ◌≤◌, ◌<◌, ◌≡◌, ◌≢◌, refl, ap, true, All, Option, List, [], ◌∷◌, if◌then◌else◌, arith,
  sym, ◌∙◌, ◌==◌, ==_true, ==_false,
}
use ros2_ws_gp.Common.Int.{pos}
use ros2_ws_gp.Secoc.Bytes.{Bytes, slice, unpack_u16}
use ros2_ws_gp.Secoc.Store.{Kind, rx, Files, Disk, counter_in, load}
use ros2_ws_gp.Secoc.Codec.{fv_max_jump, Check, raises, rejected, accepted, secoc_verify}
use ros2_ws_gp.Secoc.Codec.Freshness.{
  candidate-mod, secoc_verify-Accepts, secoc_verify-refused, secoc_verify-keeps, accepted_window,
}

-- One arrival: what the disk does, the identifier and the frame.
abbrev pub Arrival : Type 0
Arrival = Disk × ℕ × Bytes

-- The counters that are accepted for the identifier `d`, oldest first.
abbrev pub credit : ℕ → ℕ → Check → List ℕ → List ℕ
credit d did raises cs = cs
credit d did (rejected _) cs = cs
credit d did (accepted _ c) cs = if did == d then c ∷ cs else cs

module _ (aes_cmac : Bytes → Bytes → Option Bytes) (key : Bytes) where
  unfoldable pub counters_of : ℕ → List Arrival → Files → List ℕ
  counters_of d [] files = []
  counters_of d ((disk, did, frame) ∷ later) files =
      let (r, files') = secoc_verify aes_cmac disk key did frame files in
      credit d did r (counters_of d later files')

-- Each counter is above the one before it, by at most the accepted jump.
abbrev pub Ascends : ℕ → List ℕ → Type 0
Ascends f [] = Unit
Ascends f (c ∷ cs) = (f < c) × (c ≤ f + fv_max_jump) × Ascends c cs

pub load-counter_in :
    (disk : Disk) (k : Kind) (d : ℕ) (files : Files)
    → disk.reads ≡ true
    → load disk.reads k d files ≡ counter_in k d files
unfolding load
load-counter_in disk k d files readable = rw readable refl

module _ (aes_cmac : Bytes → Bytes → Option Bytes) (key : Bytes) where
  refused_floor :
      (disk : Disk) (d did : ℕ) (frame : Bytes) (files files' : Files) (r : Check)
      → secoc_verify aes_cmac disk key did frame files ≡ (r, files')
      → ((p : Bytes) (c : ℕ) → r ≢ accepted p c)
      → counter_in rx d files' ≡ counter_in rx d files
  refused_floor disk d did frame files files' r h no_accept =
      let same : (secoc_verify aes_cmac disk key did frame files).1 ≡ files' = ap (λ x. x.1) h in
      let what : (secoc_verify aes_cmac disk key did frame files).0 ≡ r = ap (λ x. x.0) h in
      ap (counter_in rx d) (sym same)
      ∙ secoc_verify-refused aes_cmac disk key did d frame files
          (λ p c q. no_accept p c (sym what ∙ q))

  kept_floor :
      (disk : Disk) (d did : ℕ) (frame : Bytes) (files files' : Files) (r : Check)
      → secoc_verify aes_cmac disk key did frame files ≡ (r, files')
      → did ≢ d
      → counter_in rx d files' ≡ counter_in rx d files
  kept_floor disk d did frame files files' r h other =
      let same : (secoc_verify aes_cmac disk key did frame files).1 ≡ files' = ap (λ x. x.1) h in
      ap (counter_in rx d) (sym same)
      ∙ secoc_verify-keeps aes_cmac disk key rx did d frame files (λ q. other q.1)

  step-Ascends :
      (disk : Disk) (d did f : ℕ) (frame : Bytes) (files files' : Files) (r : Check)
      (later : Files → List ℕ)
      → disk.reads ≡ true
      → counter_in rx d files ≡ pos f
      → f < 2 ^ 32
      → secoc_verify aes_cmac disk key did frame files ≡ (r, files')
      → ((g : ℕ) → counter_in rx d files' ≡ pos g → g < 2 ^ 32 → Ascends g (later files'))
      → Ascends f (credit d did r (later files'))
  step-Ascends disk d did f frame files files' raises later readable e small h rest =
      rest f (refused_floor disk d did frame files files' raises h (λ p c q. cc) ∙ e) small
  step-Ascends disk d did f frame files files' (rejected x) later readable e small h rest =
      rest f (refused_floor disk d did frame files files' (rejected x) h (λ p c q. cc) ∙ e) small
  step-Ascends disk d did f frame files files' (accepted p c) later readable e small h rest =
      elim (ℕ_discrete did d) [
        | yes same ↦
            let w =
              accepted_window aes_cmac disk key d f frame files files' {p = p} {c = c}
                (load-counter_in disk rx d files readable ∙ e) small (rw same at h) in
            rw (same, ==_true d) (w.0, w.1, rest c w.3 w.2)
        | no other ↦
            rw (==_false did d other)
              (rest f (kept_floor disk d did frame files files' (accepted p c) h other ∙ e) small)
      ]

  -- Whatever arrives, for whatever identifier, while every read of a counter file that is there
  -- succeeds, though any store may fail: the counters accepted for one identifier ascend from the
  -- stored floor, each within the window above the one before.
  pub counters_of-Ascends :
      (d f : ℕ) (arrivals : List Arrival) (files : Files)
      → All (λ arrival. arrival.0.reads ≡ true) arrivals
      → counter_in rx d files ≡ pos f
      → f < 2 ^ 32
      → Ascends f (counters_of aes_cmac key d arrivals files)
  unfolding counters_of
  counters_of-Ascends d f [] files readable e small = tt
  counters_of-Ascends d f ((disk, did, frame) ∷ later) files readable e small =
      let (r, files') = secoc_verify aes_cmac disk key did frame files in
      step-Ascends disk d did f frame files files' r (counters_of aes_cmac key d later) readable.0 e
        small refl (λ g e' small'. counters_of-Ascends d g later files' readable.1 e' small')

  -- Once a frame was accepted with the counter `c`, it is not accepted again while the floor that is read
  -- is `c` or more and below `c + 0x8000`: its sixteen bits then stand for a counter beyond the window.
  -- Nothing of the MAC is used.
  pub no_replay :
      (disk again : Disk) (did f g : ℕ) (frame : Bytes) (files later : Files) {files' : Files}
      {p : Bytes} {c : ℕ}
      → load disk.reads rx did files ≡ pos f
      → f < 2 ^ 32
      → unpack_u16 (slice 6 8 frame) < 2 ^ 16
      → secoc_verify aes_cmac disk key did frame files ≡ (accepted p c, files')
      → load again.reads rx did later ≡ pos g
      → g < 2 ^ 32
      → c ≤ g
      → g < c + fv_max_jump
      → (q : Bytes) (d : ℕ) → (secoc_verify aes_cmac again key did frame later).0 ≢ accepted q d
  no_replay disk again did f g frame files later {files'} {p} {c} e small low h floor small' above
        below q d h' =
      let bits = unpack_u16 (slice 6 8 frame) in
      let w =
        accepted_window aes_cmac disk key did f frame files files' {p = p} {c = c} e small h in
      let first = secoc_verify-Accepts aes_cmac disk key did frame files files' {p = p} {c = c} h in
      let files'' = (secoc_verify aes_cmac again key did frame later).1 in
      let h'' : secoc_verify aes_cmac again key did frame later ≡ (accepted q d, files'') =
        λ i. (h' i, files'') in
      let second =
        secoc_verify-Accepts aes_cmac again key did frame later files'' {p = q} {c = d} h'' in
      let v =
        accepted_window aes_cmac again key did g frame later files'' {p = q} {c = d} floor small'
          h'' in
      omega (
        arith,
        v.0,
        v.1,
        above,
        below,
        first.which,
        second.which,
        candidate-mod (load disk.reads rx did files) bits low,
        candidate-mod (load again.reads rx did later) bits low,
      )
