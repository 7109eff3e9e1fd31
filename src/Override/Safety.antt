-- ===== src/Override/Safety.antt =====
-- When the override moves the vehicle, when it holds it still, and when it is silent.
use ros2_ws_gp.Common.{
  ℕ, ◌+◌, ◌≤◌, ◌≡◌, refl, ◌⊎◌, inl, inr, true, ◌||◌, Option, none, some, ltb, arith, Bool-cases,
}
use ros2_ws_gp.Override.Floats.{Floats}
use ros2_ws_gp.Override.Drive.{Twist, stop, at_rest}
use ros2_ws_gp.Override.Tick.{
  Joy, Args, State, tail_or_silence, Reading, arm, nag, engage, publish, drive, on_fresh, on_lost,
  tick, tick_on, on_reading, read_pad,
}

module _ (R : Floats) (args : Args R) (now : ℕ) where
  -- A command that was given by the operator: the message is fresh, RB is held, and both triggers are
  -- armed, each by a reading at rest now or before.
  pub record Drives (st st' : State R) : Type 0 where
    pub joy : Joy R
    pub r : Reading R
    pub heard : st.joy ≡ some joy
    pub fresh : now ≤ st.joy_t + args.joy_timeout_ms
    pub read : read_pad R st.pad joy ≡ some r
    pub held : r.rb ≡ true
    pub rt_rested : (st.armed_rt || at_rest R r.rt) ≡ true
    pub lt_rested : (st.armed_lt || at_rest R r.lt) ≡ true
    pub engaged : st'.engaged ≡ true

  tail-stop : (st : State R) (m : Twist R) → tail_or_silence R now st ≡ some m → m ≡ stop R
  unfolding tail_or_silence
  tail-stop st m e = ground arith

  -- What the tick knows when it publishes a command of the operator.
  engaged-held :
      (r : Reading R) (st : State R)
      → (engage R args now r.rb (nag R now (arm R r st))).engaged ≡ true
      → (r.rb ≡ true)
        × ((st.armed_rt || at_rest R r.rt) ≡ true)
        × ((st.armed_lt || at_rest R r.lt) ≡ true)
  unfolding engage nag arm
  engaged-held r st e = ground arith

  publish-cases :
      (r : Reading R) (st : State R) (m : Twist R)
      → publish R args now r st ≡ some m
      → (m ≡ stop R) ⊎ (st.engaged ≡ true)
  unfolding publish
  publish-cases r st m e = elim (Bool-cases st.engaged) [
    | inl on ↦ inr on
    | inr off ↦ inl (tail-stop st m (ground arith))
  ]

  on_reading-cases :
      (j : Joy R) (r : Option (Reading R)) (st : State R) (m : Twist R)
      → st.joy ≡ some j
      → now ≤ st.joy_t + args.joy_timeout_ms
      → read_pad R st.pad j ≡ r
      → (on_reading R args now r st).1 ≡ some m
      → (m ≡ stop R) ⊎ Drives st (on_reading R args now r st).0
  unfolding drive
  on_reading-cases j none st m heard fresh read e = inl (tail-stop st m e)
  on_reading-cases j (some r) st m heard fresh read e =
      elim (publish-cases r (engage R args now r.rb (nag R now (arm R r st))) m e) [
        | inl still ↦ inl still
        | inr on ↦
            let h = engaged-held r st on in
            inr (record {
              joy = j;
              r = r;
              heard = heard;
              fresh = fresh;
              read = read;
              held = h.0;
              rt_rested = h.1;
              lt_rested = h.2;
              engaged = on;
            })
      ]

  tick_on-cases :
      (j : Option (Joy R)) (st : State R) (m : Twist R)
      → st.joy ≡ j
      → (tick_on R args now j st).1 ≡ some m
      → (m ≡ stop R) ⊎ Drives st (tick_on R args now j st).0
  unfolding on_lost on_fresh
  tick_on-cases none st m heard e = inl (tail-stop _ m e)
  tick_on-cases (some j) st m heard e =
      elim (Bool-cases (ltb (st.joy_t + args.joy_timeout_ms) now)) [
        | inl stale ↦ inl (tail-stop _ m (rw stale at e))
        | inr fresh ↦ rw fresh (
            on_reading-cases j (read_pad R st.pad j) st m heard (ground arith) refl (rw fresh at e))
      ]

  -- Whatever a tick publishes is a stop, or it was asked for: on a fresh message, whose indices are in
  -- range, with RB held, and each trigger armed before or at rest in this message.
  pub tick-cases :
      (st : State R) (m : Twist R)
      → (tick R args now st).1 ≡ some m
      → (m ≡ stop R) ⊎ Drives st (tick R args now st).0
  unfolding tick
  tick-cases st m e = tick_on-cases st.joy st m refl e
