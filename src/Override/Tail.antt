-- ===== src/Override/Tail.antt =====
-- The tail of zeros, over the messages and ticks that follow the end of an engagement.
use ros2_ws_gp.Common.{
  ℕ, ◌+◌, ◌≡◌, refl, ap, ◌∙◌, inl, inr, Bool, true, false, ◌||◌, Option, none, some, List, [], ◌∷◌,
  ltb, if◌then◌else◌, arith, Bool-cases,
}
use ros2_ws_gp.Override.Floats.{Floats}
use ros2_ws_gp.Override.PadMap.{Indices}
use ros2_ws_gp.Override.Drive.{Twist, stop}
use ros2_ws_gp.Override.Tick.{
  Joy, Args, State, on_joy, disarm, tail_or_silence, Reading, arm, nag, engage, publish, drive,
  on_fresh, on_lost, tick, tick_on, on_reading, read_pad,
}
use ros2_ws_gp.Override.Arming.{Happening, hears, ticks}

module _ (R : Floats) (args : Args R) where
  -- A stop before `until`, and silence from then on.
  abbrev pub tail_at : ℕ → ℕ → Option (Twist R)
  tail_at until now = if ltb now until then some (stop R) else none

  -- What a tick that leaves the pad disengaged does: `until` is the end of the tail after it.
  abbrev Quiet : ℕ → ℕ → State R × Option (Twist R) → Type 0
  Quiet until now out = (out.0.tail_until ≡ until) × (out.1 ≡ tail_at until now)

  -- The end of the tail after such a tick.
  abbrev end_of : ℕ → State R → ℕ
  end_of now st = if st.engaged then now + args.tail_ms else st.tail_until

  module _ (now : ℕ) where
    on_lost-Quiet :
        (disarms : Bool) (st : State R)
        → (on_lost R args now disarms st).0.engaged ≡ false
        → Quiet (end_of now st) now (on_lost R args now disarms st)
    unfolding on_lost disarm tail_or_silence
    on_lost-Quiet true st off = (refl, refl)
    on_lost-Quiet false st off = rw off (refl, refl)

    drive-Quiet :
        (r : Reading R) (st : State R)
        → (drive R args now r st).0.engaged ≡ false
        → Quiet (end_of now st) now (drive R args now r st)
    unfolding drive publish engage nag arm tail_or_silence
    drive-Quiet r st off = ground arith

    on_reading-Quiet :
        (r : Option (Reading R)) (st : State R)
        → (on_reading R args now r st).0.engaged ≡ false
        → Quiet (end_of now st) now (on_reading R args now r st)
    unfolding tail_or_silence
    on_reading-Quiet none st off = rw off (refl, refl)
    on_reading-Quiet (some r) st off = drive-Quiet r st off

    tick_on-Quiet :
        (j : Option (Joy R)) (st : State R)
        → (tick_on R args now j st).0.engaged ≡ false
        → Quiet (end_of now st) now (tick_on R args now j st)
    unfolding on_fresh
    tick_on-Quiet none st off = on_lost-Quiet st.engaged st off
    tick_on-Quiet (some j) st off = elim (Bool-cases (ltb (st.joy_t + args.joy_timeout_ms) now)) [
      | inl stale ↦ rw stale (on_lost-Quiet (st.seen_joy || st.engaged) st (rw stale at off))
      | inr fresh ↦ rw fresh (on_reading-Quiet (read_pad R st.pad j) st (rw fresh at off))
    ]

  module _ (i : Indices) where
    -- What the ticks among the happenings publish, each with its time.
    unfoldable pub outputs : List (Happening R) → State R → List (ℕ × Option (Twist R))
    outputs [] st = []
    outputs (hears now j ∷ later) st = outputs later (on_joy R i now j st)
    outputs (ticks now ∷ later) st =
        let (st', m) = tick R args now st in (now, m) ∷ outputs later st'

    -- No tick engages the pad.
    abbrev pub Disengaged : List (Happening R) → State R → Type 0
    Disengaged [] st = Unit
    Disengaged (hears now j ∷ later) st = Disengaged later (on_joy R i now j st)
    Disengaged (ticks now ∷ later) st =
        ((tick R args now st).0.engaged ≡ false) × Disengaged later (tick R args now st).0

    -- Every output is a stop before `until`, and nothing from then on.
    abbrev pub IsTail : ℕ → List (ℕ × Option (Twist R)) → Type 0
    IsTail until [] = Unit
    IsTail until ((now, m) ∷ later) = (m ≡ tail_at until now) × IsTail until later

    on_joy-fields :
        (now : ℕ) (j : Joy R) (st : State R)
        → ((on_joy R i now j st).engaged ≡ st.engaged)
          × ((on_joy R i now j st).tail_until ≡ st.tail_until)
    unfolding on_joy
    on_joy-fields now j st = ground arith

    outputs-IsTail :
        (until : ℕ) (later : List (Happening R)) (st : State R)
        → st.engaged ≡ false
        → st.tail_until ≡ until
        → Disengaged later st
        → IsTail until (outputs later st)
    unfolding outputs tick
    outputs-IsTail until [] st off same d = tt
    outputs-IsTail until (hears now j ∷ later) st off same d =
        let (engaged, tail) = on_joy-fields now j st in
        outputs-IsTail until later _ (engaged ∙ off) (tail ∙ same) d
    outputs-IsTail until (ticks now ∷ later) st off same d =
        let (tail, out) = tick_on-Quiet now st.joy st d.0 in
        let kept : end_of now st ≡ until = rw (off, same) refl in
        (out ∙ ap (λ u. tail_at u now) kept, outputs-IsTail until later _ d.0 (tail ∙ kept) d.1)

    -- From a tick that ends an engagement, by RB or by a dropout of the messages, and while no later tick
    -- engages the pad again: every tick, that one included, publishes a stop within the configured time
    -- of the end of the engagement, and nothing after it.
    pub ended-IsTail :
        (now : ℕ) (later : List (Happening R)) (st : State R)
        → st.engaged ≡ true
        → Disengaged (ticks now ∷ later) st
        → IsTail (now + args.tail_ms) (outputs (ticks now ∷ later) st)
    unfolding outputs tick
    ended-IsTail now later st on d =
        let (tail, out) = tick_on-Quiet now st.joy st d.0 in
        let begun : end_of now st ≡ now + args.tail_ms = rw on refl in
        (
          out ∙ ap (λ u. tail_at u now) begun,
          outputs-IsTail (now + args.tail_ms) later _ d.0 (tail ∙ begun) d.1,
        )
