-- ===== src/Secoc/Codec.antt =====
-- `secoc_mac`, `secoc_build` and `secoc_verify`. `aes_cmac key message` is the tag, or `none` where
-- the cryptography package raises.
pub mod Freshness
pub mod History
pub mod RoundTrip
use ros2_ws_gp.Common.{
  ℕ, zero, suc, ◌+◌, ◌-◌, ◌*◌, ◌/◌, ◌%◌, ◌^◌, ◌≡◌, Bool, true, false, Option, none, some, [], ◌∷◌,
  ◌++◌, ltb, leb, if◌then◌else◌, length, take,
}
use ros2_ws_gp.Common.Int.{ℤ, pos, negsuc, succ, pos_part}
use ros2_ws_gp.Common.Text.{text_beq}
use ros2_ws_gp.Secoc.Bytes.{Bytes, pack_u16, pack_u32, slice, unpack_u16}
use ros2_ws_gp.Secoc.Store.{tx, rx, Files, Fault, Disk, load, store}

abbrev pub mac_len : ℕ
mac_len = 4

abbrev pub frame_len : ℕ
frame_len = 8

abbrev pub fv_max_jump : ℕ
fv_max_jump = 0x8000

pub data Reason : Type 0 where
  short_frame mac_mismatch outside_window : Reason

-- What `secoc_verify` does: it raises, or returns no payload and why, or the payload and counter.
pub data Check : Type 0 where
  raises : Check
  rejected : Reason → Check
  accepted : Bytes → ℕ → Check

-- `floor & 0xFFFF0000`, of a negative number in two's complement
unfoldable pub high_half : ℤ → ℕ
high_half (pos f) = f % 2 ^ 32 / 2 ^ 16 * 2 ^ 16
high_half (negsuc k) = (2 ^ 32 - 1 - k % 2 ^ 32) / 2 ^ 16 * 2 ^ 16

-- `cand <= floor`
abbrev pub at_most : ℕ → ℤ → Bool
at_most cand (pos f) = leb cand f
at_most cand (negsuc k) = false

-- The counter that the sixteen received bits stand for. The halves share no bit: `|` adds.
unfoldable pub candidate : ℤ → ℕ → ℕ
unfolding high_half
candidate floor low =
    let cand = high_half floor + low in if at_most cand floor then cand + 0x10000 else cand

-- `cand - floor > SECOC_FV_MAX_JUMP`
unfoldable pub is_outside : ℕ → ℤ → Bool
is_outside cand (pos f) = ltb (f + fv_max_jump) cand
is_outside cand (negsuc k) = ltb fv_max_jump (cand + suc k)

infixl 5 ◌>>=◌
abbrev ◌>>=◌ : {A B : Type 0} → Option A → (A → Option B) → Option B
none >>= f = none
some a >>= f = f a

-- What is authenticated: the identifier, the payload and the whole counter.
unfoldable pub message : ℕ → Bytes → ℤ → Option Bytes
message did payload fv = do
  head ← pack_u16 did
  counter ← pack_u32 fv
  some (head ++ (payload ++ counter))

module _ (aes_cmac : Bytes → Bytes → Option Bytes) where
  unfoldable pub secoc_mac : Bytes → ℕ → Bytes → ℤ → Option Bytes
  secoc_mac key did payload fv = do
    m ← message did payload fv
    tag ← aes_cmac key m
    some (take mac_len tag)

  -- The MAC would have raised on a negative counter, so `pos_part` is the counter itself.
  unfoldable pub finish_build :
      Fault → ℕ → Bytes → ℤ → Files → Option Bytes → Option (Bytes × ℕ) × Files
  finish_build fault did payload fv files none = (none, files)
  finish_build fault did payload fv files (some mac) =
      let n = pos_part fv in
      let (written, files') = store fault tx did n files in
      (
        if written
            then some (payload ++ (mac ++ (n / 2 ^ 8 % 2 ^ 8 ∷ n % 2 ^ 8 ∷ [])), n)
            else none,
        files',
      )

  -- The frame and its counter, which is on disk before the frame can be sent; `none` is an exception.
  unfoldable pub secoc_build : Disk → Bytes → ℕ → Bytes → Files → Option (Bytes × ℕ) × Files
  unfolding finish_build
  secoc_build disk key did payload files =
      let fv = succ (load disk.reads tx did files) in
      finish_build disk.fault did payload fv files (secoc_mac key did payload fv)

  unfoldable pub finish_verify : Fault → ℕ → Bytes → ℕ → ℤ → Files → Option Bytes → Check × Files
  finish_verify fault did frame cand floor files none = (raises, files)
  finish_verify fault did frame cand floor files (some mac) =
      if text_beq mac (slice 2 6 frame)
      then if is_outside cand floor
        then (rejected outside_window, files)
        else (let (written, files') = store fault rx did cand files in
            (if written then accepted (take 2 frame) cand else raises, files'))
      else (rejected mac_mismatch, files)

  unfoldable pub secoc_verify : Disk → Bytes → ℕ → Bytes → Files → Check × Files
  unfolding finish_verify
  secoc_verify disk key did frame files =
      if ltb (length frame) frame_len
      then (rejected short_frame, files)
      else (let floor = load disk.reads rx did files in
          let cand = candidate floor (unpack_u16 (slice 6 8 frame)) in
          finish_verify disk.fault did frame cand floor files
            (secoc_mac key did (take 2 frame) (pos cand)))
