-- ===== src/Secoc/Codec/Freshness.antt =====
-- What an accepted frame says of the counters: `secoc_verify` from the receiver's side.
use ros2_ws_gp.Common.{
  ℕ, ◌+◌, ◌%◌, ◌^◌, ◌≤◌, ◌<◌, ◌≡◌, ◌≢◌, refl, ◌⊎◌, inl, inr, false, Option, none, some, ltb, length,
  take, arith, Bool-cases,
}
use ros2_ws_gp.Common.Int.{ℤ, pos}
use ros2_ws_gp.Common.Text.{text_beq_iff}
use ros2_ws_gp.Secoc.Bytes.{Bytes, pack_u32, slice, unpack_u16}
use ros2_ws_gp.Secoc.Store.{Kind, rx, Files, Fault, Disk, counter_in, load}
use ros2_ws_gp.Secoc.Store.Laws.{counter_in-store_other, counter_in-store_failed, store_atomic}
use ros2_ws_gp.Secoc.Codec.{
  fv_max_jump, frame_len, accepted, candidate, is_outside, message, secoc_mac, finish_verify,
  secoc_verify,
}

-- The window: above the counter that was last accepted, by at most `SECOC_FV_MAX_JUMP`.
candidate_bounds :
    (f low : ℕ)
    → f < 2 ^ 32
    → (f < candidate (pos f) low) × (candidate (pos f) low ≤ f + 2 ^ 16 + low)
unfolding candidate
candidate_bounds f low h = ground arith

candidate-lt : (f low : ℕ) → f < 2 ^ 32 → f < candidate (pos f) low
candidate-lt f low h = (candidate_bounds f low h).0

-- The candidate carries the sixteen bits that were received.
pub candidate-mod : (z : ℤ) (low : ℕ) → low < 2 ^ 16 → candidate z low % 2 ^ 16 ≡ low
unfolding candidate
candidate-mod z low h = ground arith

pack_u32-cases : (n : ℕ) → (pack_u32 (pos n) ≡ none) ⊎ (n < 2 ^ 32)
unfolding pack_u32
pack_u32-cases n = ground arith

module _ (aes_cmac : Bytes → Bytes → Option Bytes) where
  -- A MAC is made of counters of 32 bits only.
  pub secoc_mac-lt :
      (key : Bytes) (did : ℕ) (payload : Bytes) (n : ℕ) {mac : Bytes}
      → secoc_mac aes_cmac key did payload (pos n) ≡ some mac
      → n < 2 ^ 32
  unfolding secoc_mac message
  secoc_mac-lt key did payload n h = ground (arith, pack_u32-cases n)

  -- Everything that follows from one accepted frame.
  pub record Accepts (disk : Disk) (key : Bytes) (did : ℕ) (frame payload : Bytes) (cand : ℕ)
      (files files' : Files) : Type 0 where
    pub whole : frame_len ≤ length frame
    pub payload_is : payload ≡ take 2 frame
    pub authentic : secoc_mac aes_cmac key did (take 2 frame) (pos cand) ≡ some (slice 2 6 frame)
    pub fits : cand < 2 ^ 32
    pub within : is_outside cand (load disk.reads rx did files) ≡ false
    pub which : cand ≡ candidate (load disk.reads rx did files) (unpack_u16 (slice 6 8 frame))
    pub stored : counter_in rx did files' ≡ pos cand

  finish_verify-accepted :
      (fault : Fault) (did : ℕ) (frame : Bytes) (cand : ℕ) (floor : ℤ) (files : Files)
      (mac : Option Bytes) {p : Bytes} {c : ℕ} {files' : Files}
      → finish_verify aes_cmac fault did frame cand floor files mac ≡ (accepted p c, files')
      → (c ≡ cand)
        × (p ≡ take 2 frame)
        × (mac ≡ some (slice 2 6 frame))
        × (is_outside cand floor ≡ false)
        × (counter_in rx did files' ≡ pos cand)
  unfolding finish_verify
  finish_verify-accepted fault did frame cand floor files none h = cc
  finish_verify-accepted fault did frame cand floor files (some mac) h =
      ground (arith, text_beq_iff mac (slice 2 6 frame), store_atomic fault rx did cand files)

  -- The files change only on the branch that stores, so a frame that is not accepted leaves every
  -- counter as it was, also where the disk fails.
  finish_verify-refused :
      (fault : Fault) (did e : ℕ) (frame : Bytes) (cand : ℕ) (floor : ℤ) (files : Files)
      (mac : Option Bytes)
      → let (r, files') = finish_verify aes_cmac fault did frame cand floor files mac in
        ((p : Bytes) (c : ℕ) → r ≢ accepted p c) → counter_in rx e files' ≡ counter_in rx e files
  unfolding finish_verify
  finish_verify-refused fault did e frame cand floor files none h = refl
  finish_verify-refused fault did e frame cand floor files (some mac) h =
      ground (arith, counter_in-store_failed fault rx rx did e cand files, h (take 2 frame) cand)

  pub secoc_verify-Accepts :
      (disk : Disk) (key : Bytes) (did : ℕ) (frame : Bytes) (files files' : Files) {p : Bytes}
      {c : ℕ}
      → secoc_verify aes_cmac disk key did frame files ≡ (accepted p c, files')
      → Accepts disk key did frame p c files files'
  unfolding secoc_verify
  secoc_verify-Accepts disk key did frame files files' {p} {c} h =
      let cand = candidate (load disk.reads rx did files) (unpack_u16 (slice 6 8 frame)) in
      let mac = secoc_mac aes_cmac key did (take 2 frame) (pos cand) in
      ground (
        arith,
        finish_verify-accepted disk.fault did frame cand (load disk.reads rx did files) files mac
            {p = p} {c = c} {files' = files'},
        secoc_mac-lt key did (take 2 frame) cand {mac = slice 2 6 frame},
      )

  pub secoc_verify-refused :
      (disk : Disk) (key : Bytes) (did e : ℕ) (frame : Bytes) (files : Files)
      → let (r, files') = secoc_verify aes_cmac disk key did frame files in
        ((p : Bytes) (c : ℕ) → r ≢ accepted p c) → counter_in rx e files' ≡ counter_in rx e files
  unfolding secoc_verify
  secoc_verify-refused disk key did e frame files h =
      let cand = candidate (load disk.reads rx did files) (unpack_u16 (slice 6 8 frame)) in
      let mac = secoc_mac aes_cmac key did (take 2 frame) (pos cand) in
      elim (Bool-cases (ltb (length frame) frame_len)) [
        | inl short ↦ rw short refl
        | inr whole ↦ rw whole (
            finish_verify-refused disk.fault did e frame cand (load disk.reads rx did files) files
              mac (rw whole at h))
      ]

  finish_verify-keeps :
      (fault : Fault) (k : Kind) (did e : ℕ) (frame : Bytes) (cand : ℕ) (floor : ℤ) (files : Files)
      (mac : Option Bytes)
      → ¬ ((rx ≡ k) × (did ≡ e))
      → counter_in k e (finish_verify aes_cmac fault did frame cand floor files mac).1
        ≡ counter_in k e files
  unfolding finish_verify
  finish_verify-keeps fault k did e frame cand floor files none h = refl
  finish_verify-keeps fault k did e frame cand floor files (some mac) h =
      ground (arith, counter_in-store_other fault rx k did e cand files h)

  -- A frame touches no counter but the received one of its own identifier.
  pub secoc_verify-keeps :
      (disk : Disk) (key : Bytes) (k : Kind) (did e : ℕ) (frame : Bytes) (files : Files)
      → ¬ ((rx ≡ k) × (did ≡ e))
      → counter_in k e (secoc_verify aes_cmac disk key did frame files).1 ≡ counter_in k e files
  unfolding secoc_verify
  secoc_verify-keeps disk key k did e frame files h =
      let cand = candidate (load disk.reads rx did files) (unpack_u16 (slice 6 8 frame)) in
      let mac = secoc_mac aes_cmac key did (take 2 frame) (pos cand) in
      ground (
        arith,
        finish_verify-keeps disk.fault k did e frame cand (load disk.reads rx did files) files mac
            h,
      )

  -- From a floor of 32 bits, an accepted counter is in the window above it.
  pub accepted_window :
      (disk : Disk) (key : Bytes) (did f : ℕ) (frame : Bytes) (files files' : Files) {p : Bytes}
      {c : ℕ}
      → load disk.reads rx did files ≡ pos f
      → f < 2 ^ 32
      → secoc_verify aes_cmac disk key did frame files ≡ (accepted p c, files')
      → (f < c) × (c ≤ f + fv_max_jump) × (c < 2 ^ 32) × (counter_in rx did files' ≡ pos c)
  unfolding is_outside
  accepted_window disk key did f frame files files' {p} {c} e small h =
      let a = secoc_verify-Accepts disk key did frame files files' {p = p} {c = c} h in
      let low = unpack_u16 (slice 6 8 frame) in
      let which : c ≡ candidate (pos f) low = rw e at a.which in
      let within : is_outside c (pos f) ≡ false = rw e at a.within in
      (omega (arith, which, candidate-lt f low small), ground arith, a.fits, a.stored)
