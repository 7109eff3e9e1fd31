-- ===== src/Camera.antt =====
-- `OnDemandCameraCompressor`: the camera process that is spawned for one frame, and its release.
pub mod Released
use ros2_ws_gp.Common.{ℕ, Bool, true, false, Option, none, some, List, [], ◌∷◌, if◌then◌else◌}
use ros2_ws_gp.Secoc.Bytes.{Bytes}

pub data Signal : Type 0 where
  sigterm sigkill : ℕ → Signal

-- `temp_sub`, `timeout_timer`, `is_capturing` and `camera_process`, then what was published and which
-- process groups were signalled, the last first.
pub record State : Type 0 where
  pub temp_sub : Bool
  pub timeout_timer : Bool
  pub is_capturing : Bool
  pub camera_process : Option ℕ
  pub published : List Bytes
  pub signals : List Signal

-- What the kill of a process group meets: it exits, it has to be killed, it was gone before the second
-- signal, or the first signal fails.
pub data Kill : Type 0 where
  exits lingers vanishes fails : Kill

-- What `cv2` makes of a frame: its JPEG, no result, or an exception.
pub data Encoding : Type 0 where
  jpeg : Bytes → Encoding
  no_result raises : Encoding

-- How far the body of the trigger's `try` gets: the process identifier is of a spawned camera.
pub data Spawn : Type 0 where
  spawned : ℕ → Spawn
  popen_fails : Spawn
  subscription_fails timer_fails : ℕ → Spawn

unfoldable pub fresh : State
fresh = record {
  temp_sub = false;
  timeout_timer = false;
  is_capturing = false;
  camera_process = none;
  published = [];
  signals = [];
}

-- The `try` of `_cleanup`: whether it returns, and the state. `camera_process` is reset in any case.
abbrev pub terminate : Kill → ℕ → State → Bool × State
terminate exits pid st =
    (true, record st { camera_process = none; signals = sigterm pid ∷ st.signals })
terminate lingers pid st =
    (true, record st { camera_process = none; signals = sigkill pid ∷ sigterm pid ∷ st.signals })
terminate vanishes pid st =
    (false, record st { camera_process = none; signals = sigterm pid ∷ st.signals })
terminate fails pid st = (true, record st { camera_process = none })

abbrev pub end_process : Kill → Option ℕ → State → Bool × State
end_process kill none st = (true, st)
end_process kill (some pid) st = terminate kill pid st

abbrev pub idle : Bool × State → Bool × State
idle (returned, st) = (returned, if returned then record st { is_capturing = false } else st)

-- `_cleanup`: whether it returned.
unfoldable pub cleanup : Kill → State → Bool × State
cleanup kill st = idle (end_process kill st.camera_process (record st { temp_sub = false }))

abbrev pub publish : Encoding → State → State
publish (jpeg bytes) st = record st { published = bytes ∷ st.published }
publish no_result st = st
publish raises st = st

unfoldable pub image_callback : Encoding → Kill → State → Bool × State
image_callback encoding kill st =
    cleanup kill (publish encoding (record st { timeout_timer = false }))

abbrev pub spawn : Spawn → Kill → State → Bool × State
spawn (spawned pid) kill st =
    (true, record st { camera_process = some pid; temp_sub = true; timeout_timer = true })
spawn popen_fails kill st = cleanup kill st
spawn (subscription_fails pid) kill st = cleanup kill (record st { camera_process = some pid })
spawn (timer_fails pid) kill st =
    cleanup kill (record st { camera_process = some pid; temp_sub = true })

unfoldable pub trigger_compression_sub : Spawn → Kill → State → Bool × State
trigger_compression_sub outcome kill st =
    if st.is_capturing then (true, st) else spawn outcome kill (record st { is_capturing = true })

unfoldable pub timeout_callback : Kill → State → Bool × State
timeout_callback kill st = cleanup kill (record st { timeout_timer = false })

-- What the executor delivers: a frame only to a subscription, and the timer only while it is set.
pub data Event : Type 0 where
  trigger : Spawn → Kill → Event
  image : Encoding → Kill → Event
  timeout : Kill → Event

unfoldable pub step : Event → State → Bool × State
step (trigger outcome kill) st = trigger_compression_sub outcome kill st
step (image encoding kill) st = if st.temp_sub then image_callback encoding kill st else (true, st)
step (timeout kill) st = if st.timeout_timer then timeout_callback kill st else (true, st)

-- `rclpy.spin`: the events in order, up to the first exception.
abbrev pub spin_on : Bool × State → (State → Bool × State) → Bool × State
spin_on (true, st) rest = rest st
spin_on (false, st) rest = (false, st)

unfoldable pub spin : List Event → State → Bool × State
spin [] st = (true, st)
spin (e ∷ es) st = spin_on (step e st) (spin es)

-- `main`: after the events, or an exception, `destroy_node` cleans up.
unfoldable pub main : List Event → Kill → Bool × State
main events kill = let (returned, st) = spin events fresh in cleanup kill st
