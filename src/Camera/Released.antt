-- ===== src/Camera/Released.antt =====
-- A camera process, its subscription and its timer exist only while a frame is being captured.
use ros2_ws_gp.Common.{
  ℕ, ◌≡◌, refl, Bool, true, false, Option, none, some, List, [], ◌∷◌, arith, if◌then◌else◌,
}
use ros2_ws_gp.Camera.{
  State, Kill, exits, lingers, vanishes, fails, Encoding, jpeg, no_result, raises, Spawn, spawned,
  popen_fails, subscription_fails, timer_fails, fresh, end_process, idle, cleanup, publish,
  image_callback, spawn, trigger_compression_sub, timeout_callback, Event, trigger, image, timeout,
  step, spin_on, spin, main,
}

-- Nothing is held: no process, no subscription and no timer.
pub record IsReleased (st : State) : Type 0 where
  pub no_process : st.camera_process ≡ none
  pub no_sub : st.temp_sub ≡ false
  pub no_timer : st.timeout_timer ≡ false

-- While a frame is awaited there is a process, a subscription and a timer; otherwise there is none.
pub data IsSound : State → Type 0 where
  resting : {st : State} → st.is_capturing ≡ false → IsReleased st → IsSound st
  capturing :
      {st : State} (pid : ℕ)
      → st.is_capturing ≡ true
      → st.camera_process ≡ some pid
      → st.temp_sub ≡ true
      → st.timeout_timer ≡ true
      → IsSound st

-- A cleanup that returns leaves nothing, if the timer is off.
cleanup-resting :
    (kill : Kill) (p : Option ℕ) (st : State)
    → st.timeout_timer ≡ false
    → st.temp_sub ≡ false
    → st.camera_process ≡ p
    → (idle (end_process kill p st)).0 ≡ true
    → ((idle (end_process kill p st)).1.is_capturing ≡ false)
      × IsReleased (idle (end_process kill p st)).1
cleanup-resting kill none st off unheard e r =
    (refl, record { no_process = e; no_sub = unheard; no_timer = off })
cleanup-resting exits (some pid) st off unheard e r =
    (refl, record { no_process = refl; no_sub = unheard; no_timer = off })
cleanup-resting lingers (some pid) st off unheard e r =
    (refl, record { no_process = refl; no_sub = unheard; no_timer = off })
cleanup-resting vanishes (some pid) st off unheard e r = ground arith
cleanup-resting fails (some pid) st off unheard e r =
    (refl, record { no_process = refl; no_sub = unheard; no_timer = off })

cleanup-IsSound :
    (kill : Kill) (st : State)
    → st.timeout_timer ≡ false
    → (cleanup kill st).0 ≡ true
    → IsSound (cleanup kill st).1
unfolding cleanup
cleanup-IsSound kill st off r =
    let h =
      cleanup-resting kill st.camera_process (record st { temp_sub = false }) off refl refl r in
    resting h.0 h.1

branch-IsSound :
    (b : Bool) (r s : Bool × State)
    → (b ≡ true → r.0 ≡ true → IsSound r.1)
    → (b ≡ false → s.0 ≡ true → IsSound s.1)
    → (if b then r else s).0 ≡ true
    → IsSound (if b then r else s).1
branch-IsSound true r s then_sound else_sound e = then_sound refl e
branch-IsSound false r s then_sound else_sound e = else_sound refl e

publish-timer :
    (encoding : Encoding) (st : State)
    → st.timeout_timer ≡ false
    → (publish encoding st).timeout_timer ≡ false
publish-timer (jpeg bytes) st e = e
publish-timer no_result st e = e
publish-timer raises st e = e

spawn-IsSound :
    (outcome : Spawn) (kill : Kill) (st : State)
    → st.is_capturing ≡ true
    → st.timeout_timer ≡ false
    → (spawn outcome kill st).0 ≡ true
    → IsSound (spawn outcome kill st).1
spawn-IsSound (spawned pid) kill st on off r = capturing pid on refl refl refl
spawn-IsSound popen_fails kill st on off r = cleanup-IsSound kill st off r
spawn-IsSound (subscription_fails pid) kill st on off r =
    cleanup-IsSound kill (record st { camera_process = some pid }) off r
spawn-IsSound (timer_fails pid) kill st on off r =
    cleanup-IsSound kill (record st { camera_process = some pid; temp_sub = true }) off r

idle-timer : (st : State) → IsSound st → st.is_capturing ≡ false → st.timeout_timer ≡ false
idle-timer st (resting off rel) e = rel.no_timer
idle-timer st (capturing pid on p s t) e = ground arith

trigger-IsSound :
    (outcome : Spawn) (kill : Kill) (st : State)
    → IsSound st
    → (trigger_compression_sub outcome kill st).0 ≡ true
    → IsSound (trigger_compression_sub outcome kill st).1
unfolding trigger_compression_sub
trigger-IsSound outcome kill st ok r =
    branch-IsSound st.is_capturing (true, st)
      (spawn outcome kill (record st { is_capturing = true })) (λ on returned. ok)
      (λ off returned.
        spawn-IsSound outcome kill (record st { is_capturing = true }) refl (idle-timer st ok off)
          returned)
      r

-- Every event that returns keeps the node sound.
pub step-IsSound :
    (e : Event) (st : State) → IsSound st → (step e st).0 ≡ true → IsSound (step e st).1
unfolding step image_callback timeout_callback
step-IsSound (trigger outcome kill) st ok r = trigger-IsSound outcome kill st ok r
step-IsSound (image encoding kill) st ok r =
    let off = record st { timeout_timer = false } in
    branch-IsSound st.temp_sub (cleanup kill (publish encoding off)) (true, st)
      (λ heard. cleanup-IsSound kill (publish encoding off) (publish-timer encoding off refl))
      (λ unheard returned. ok) r
step-IsSound (timeout kill) st ok r =
    branch-IsSound st.timeout_timer (cleanup kill (record st { timeout_timer = false })) (true, st)
      (λ due. cleanup-IsSound kill (record st { timeout_timer = false }) refl)
      (λ unset returned. ok) r

spin_on-IsSound :
    (es : List Event) (b : Bool) (st : State)
    → ((st' : State) → IsSound st' → (spin es st').0 ≡ true → IsSound (spin es st').1)
    → (b ≡ true → IsSound st)
    → (spin_on (b, st) (spin es)).0 ≡ true
    → IsSound (spin_on (b, st) (spin es)).1
spin_on-IsSound es true st next ok r = next st (ok refl) r
spin_on-IsSound es false st next ok r = ground arith

spin_from-IsSound :
    (es : List Event) (st : State) → IsSound st → (spin es st).0 ≡ true → IsSound (spin es st).1
unfolding spin
spin_from-IsSound [] st ok r = ok
spin_from-IsSound (e ∷ es) st ok r =
    spin_on-IsSound es (step e st).0 (step e st).1 (spin_from-IsSound es) (step-IsSound e st ok) r

fresh-IsSound : IsSound fresh
unfolding fresh
fresh-IsSound = resting refl (record { no_process = refl; no_sub = refl; no_timer = refl })

-- From the start, whatever is triggered, arrives or times out, a process, a subscription and a timer
-- are held exactly while a frame is awaited, as long as no callback has raised.
pub spin-IsSound : (es : List Event) → (spin es fresh).0 ≡ true → IsSound (spin es fresh).1
spin-IsSound es r = spin_from-IsSound es fresh fresh-IsSound r

end_process-none :
    (kill : Kill) (p : Option ℕ) (st : State)
    → st.camera_process ≡ p
    → (idle (end_process kill p st)).1.camera_process ≡ none
end_process-none kill none st e = e
end_process-none exits (some pid) st e = refl
end_process-none lingers (some pid) st e = refl
end_process-none vanishes (some pid) st e = refl
end_process-none fails (some pid) st e = refl

-- However the node ends, an exception included, no camera process is left behind.
pub main-no_process :
    (events : List Event) (kill : Kill) → (main events kill).1.camera_process ≡ none
unfolding main cleanup
main-no_process events kill =
    let st = (spin events fresh).1 in
    end_process-none kill st.camera_process (record st { temp_sub = false }) refl
