-- ===== src/Coordinator/Wire.antt =====
-- The verdict frames, as the requester reads them.
use ros2_ws_gp.Common.{ℕ, ◌≡◌, refl, Bool, true, false, Option, some, [], ◌∷◌, if◌then◌else◌}
use ros2_ws_gp.Secoc.Bytes.{Bytes}
use ros2_ws_gp.Secoc.Store.{Files, Disk}
use ros2_ws_gp.Secoc.Codec.{secoc_build}
use ros2_ws_gp.Secoc.Codec.RoundTrip.{secoc_build-Builds}
use ros2_ws_gp.Coordinator.State.{is_approval}
use ros2_ws_gp.Coordinator.Approval.{verdict_byte}

-- What a frame that was built begins with.
abbrev pub Says : Bool → ℕ → Option (Bytes × ℕ) → Type 0
Says approved slot built =
    (frame : Bytes) (fv : ℕ)
    → built ≡ some (frame, fv)
    → (rest : Bytes) × (frame ≡ (if approved then 1 else 0) ∷ slot ∷ rest)

pub secoc_build-Says :
    (aes_cmac : Bytes → Bytes → Option Bytes) (disk : Disk) (key : Bytes) (did slot : ℕ)
    (approved : Bool) (files : Files)
    → Says approved slot
        (secoc_build aes_cmac disk key did (verdict_byte approved ∷ slot ∷ []) files).0
secoc_build-Says aes_cmac disk key did slot true files frame fv e =
    let built = secoc_build aes_cmac disk key did (1 ∷ slot ∷ []) files in
    let b =
      secoc_build-Builds aes_cmac key disk did 1 slot files built.1 {frame = frame} {n = fv}
        (λ i. (e i, built.1)) in
    (_, b.frame_is)
secoc_build-Says aes_cmac disk key did slot false files frame fv e =
    let built = secoc_build aes_cmac disk key did (0 ∷ slot ∷ []) files in
    let b =
      secoc_build-Builds aes_cmac key disk did 0 slot files built.1 {frame = frame} {n = fv}
        (λ i. (e i, built.1)) in
    (_, b.frame_is)

-- The requester reads what was said.
pub Says-is_approval :
    (approved : Bool) (slot : ℕ) (built : Option (Bytes × ℕ)) (frame : Bytes) (fv : ℕ)
    → Says approved slot built
    → built ≡ some (frame, fv)
    → is_approval frame ≡ approved
Says-is_approval true slot built frame fv says e = rw ((says frame fv e).1) refl
Says-is_approval false slot built frame fv says e = rw ((says frame fv e).1) refl
