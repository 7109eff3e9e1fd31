-- ===== src/Imu/Calibration.antt =====
-- The bias that the node settles on, and that it keeps it.
use ros2_ws_gp.Common.{
  ℕ, suc, ◌+◌, ◌<◌, ◌≡◌, refl, ap, none, some, List, [], ◌∷◌, leb, length, arith, if◌then◌else◌,
}
use ros2_ws_gp.Override.Floats.{Floats, zero_float}
use ros2_ws_gp.Imu.{Imu, Parameters, State, fresh, calibrate, correct, cb, cb_on, run}

module _ (R : Floats) (p : Parameters R) where
  open R use {Float, decimal, add, sub, mul, div}

  -- The yaw rates added up in the order of their arrival.
  abbrev pub sum : Float → List (Imu R) → Float
  sum acc [] = acc
  sum acc (m ∷ ms) = sum (add acc m.angular_velocity_z) ms

  -- Every later message is corrected by the bias.
  abbrev pub Corrected : Float → List (Imu R) → List (Imu R) → Type 0
  Corrected b [] [] = Unit
  Corrected b (m ∷ ms) (o ∷ os) =
      (o.angular_velocity_z ≡ mul (sub m.angular_velocity_z b) p.k) × Corrected b ms os
  Corrected b _ _ = ⊥

  cb-correct :
      (b : Float) (m : Imu R) (st : State R) → st.bias ≡ some b → cb R p m st ≡ correct R p b m st
  unfolding cb
  cb-correct b m st e = ap (λ o. cb_on R p o m st) e

  cb-calibrate : (m : Imu R) (st : State R) → st.bias ≡ none → cb R p m st ≡ calibrate R p m st
  unfolding cb
  cb-calibrate m st e = ap (λ o. cb_on R p o m st) e

  run-Corrected :
      (b : Float) (ms : List (Imu R)) (st : State R)
      → st.bias ≡ some b
      → Corrected b ms (run R p ms st).0
  unfolding run correct
  run-Corrected b [] st e = tt
  run-Corrected b (m ∷ ms) st e =
      rw (cb-correct b m st e) (refl, run-Corrected b ms (correct R p b m st).1 e)

  mean_bias :
      (acc : Float) (cnt : ℕ)
      → p.bias_samples ≡ cnt
      → (if leb p.bias_samples cnt then some (div acc (decimal cnt 0)) else none)
        ≡ some (div acc (decimal p.bias_samples 0))
  mean_bias acc cnt e = ground (arith, e)

  calibrate-last :
      (m : Imu R) (st : State R)
      → p.bias_samples ≡ st.bias_cnt + 1
      → (calibrate R p m st).1.bias
        ≡ some (div (add st.bias_acc m.angular_velocity_z) (decimal p.bias_samples 0))
  unfolding calibrate
  calibrate-last m st e = mean_bias (add st.bias_acc m.angular_velocity_z) (st.bias_cnt + 1) e

  calibrate-early :
      (m : Imu R) (st : State R)
      → st.bias_cnt + 1 < p.bias_samples
      → (calibrate R p m st).1.bias ≡ none
  unfolding calibrate
  calibrate-early m st e = ground arith

  calibrating :
      (m : Imu R) (ms : List (Imu R)) (st : State R)
      → st.bias ≡ none
      → p.bias_samples ≡ st.bias_cnt + suc (length ms)
      → (run R p (m ∷ ms) st).1.bias
        ≡ some (div (sum st.bias_acc (m ∷ ms)) (decimal p.bias_samples 0))
  unfolding run calibrate
  calibrating m [] st e enough = rw (cb-calibrate m st e) (calibrate-last m st (omega arith))
  calibrating m (m' ∷ ms) st e enough =
      rw (cb-calibrate m st e) (
        calibrating m' ms (calibrate R p m st).1 (calibrate-early m st (omega arith)) (omega arith))

  -- From the start, once `bias_samples` messages have come, one or more, each yaw rate that is
  -- published is the one received less the mean of those messages, times `k`, for ever.
  pub run-calibrated :
      (m : Imu R) (ms later : List (Imu R))
      → p.bias_samples ≡ suc (length ms)
      → Corrected
          (div (sum (zero_float R) (m ∷ ms)) (decimal p.bias_samples 0))
          later
          (run R p later (run R p (m ∷ ms) (fresh R)).1).0
  unfolding fresh
  run-calibrated m ms later enough =
      run-Corrected (div (sum (zero_float R) (m ∷ ms)) (decimal p.bias_samples 0)) later
        (run R p (m ∷ ms) (fresh R)).1 (calibrating m ms (fresh R) refl (omega arith))
