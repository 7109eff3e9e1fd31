-- ===== src/Imu.antt =====
-- `ImuScale`: the bias of the gyro is measured on the first messages, then taken off each yaw rate,
-- which is scaled by `k`.
pub mod Calibration
use ros2_ws_gp.Common.{
  ℕ, zero, suc, ◌+◌, Bool, true, false, Option, none, some, List, [], ◌∷◌, ◌&&◌, ◌==◌, leb, length,
  get_elem?, if◌then◌else◌,
}
use ros2_ws_gp.Override.Floats.{Floats, zero_float}

module _ (R : Floats) where
  open R use {Float, decimal, add, sub, mul, div, ltb}

  -- The fields of the message that are changed.
  pub record Imu : Type 0 where
    pub angular_velocity_z : Float
    pub angular_velocity_covariance : List Float

  pub record Parameters : Type 0 where
    pub k : Float
    pub bias_samples : ℕ

  pub record State : Type 0 where
    pub bias_acc : Float
    pub bias_cnt : ℕ
    pub bias : Option Float
    pub n : ℕ

  unfoldable pub fresh : State
  fresh = record { bias_acc = zero_float R; bias_cnt = 0; bias = none; n = 0 }

  abbrev pub set_at : ℕ → Float → List Float → List Float
  set_at i x [] = []
  set_at zero x (y ∷ ys) = x ∷ ys
  set_at (suc i) x (y ∷ ys) = y ∷ set_at i x ys

  abbrev pub grow_at : Float → Option Float → List Float → List Float
  grow_at k none cov = cov
  grow_at k (some v) cov =
      if length cov == 9 && ltb (zero_float R) v then set_at 8 (mul v (mul k k)) cov else cov

  -- The covariance grows with the correction.
  unfoldable pub grow : Float → List Float → List Float
  grow k cov = grow_at k (get_elem? cov 8) cov

  -- A message of the calibration: it is published scaled, its bias still in it.
  unfoldable pub calibrate : Parameters → Imu → State → Imu × State
  calibrate p m st =
      let acc = add st.bias_acc m.angular_velocity_z in
      let cnt = st.bias_cnt + 1 in
      (
        record m { angular_velocity_z = mul m.angular_velocity_z p.k },
        record {
          bias_acc = acc;
          bias_cnt = cnt;
          bias = if leb p.bias_samples cnt then some (div acc (decimal cnt 0)) else none;
          n = st.n + 1;
        },
      )

  unfoldable pub correct : Parameters → Float → Imu → State → Imu × State
  correct p bias m st = (
    record {
      angular_velocity_z = mul (sub m.angular_velocity_z bias) p.k;
      angular_velocity_covariance = grow p.k m.angular_velocity_covariance;
    },
    record st { n = st.n + 1 },
  )

  abbrev pub cb_on : Parameters → Option Float → Imu → State → Imu × State
  cb_on p none m st = calibrate p m st
  cb_on p (some bias) m st = correct p bias m st

  -- `cb`: the message that is published, and the state.
  unfoldable pub cb : Parameters → Imu → State → Imu × State
  cb p m st = cb_on p st.bias m st

  -- Every message in turn: what is published.
  unfoldable pub run : Parameters → List Imu → State → List Imu × State
  run p [] st = ([], st)
  run p (m ∷ ms) st =
      let (out, st') = cb p m st in let (outs, st'') = run p ms st' in (out ∷ outs, st'')
