-- ===== src/Override/Arming.antt =====
-- Whole runs of the override: the messages that arrive and the ticks between them, from its start.
use ros2_ws_gp.Common.{
  ℕ, ◌+◌, ◌≤◌, ◌≡◌, refl, sym, ◌∙◌, ◌⊎◌, inl, inr, Bool, true, false, ◌||◌, Option, none, some,
  List, [], ◌∷◌, ltb, if◌then◌else◌, arith, Bool-cases,
}
use ros2_ws_gp.Override.Floats.{Floats}
use ros2_ws_gp.Override.PadMap.{Indices}
use ros2_ws_gp.Override.Drive.{Twist, stop, at_rest}
use ros2_ws_gp.Override.Tick.{
  Joy, Args, State, start, on_joy, disarm, Reading, arm, nag, engage, drive, on_fresh, on_lost,
  tick, tick_on, on_reading, read_pad,
}
use ros2_ws_gp.Override.Safety.{tick-cases}

module _ (R : Floats) where
  open R use {Float}

  -- A message that arrives, or a tick of the timer, at a time.
  pub data Happening : Type 0 where
    hears : ℕ → Joy R → Happening
    ticks : ℕ → Happening

  -- What a tick finds: no message in time, one whose indices are out of range, or a reading.
  pub data Seen : Type 0 where
    missed unreadable : Seen
    read : Reading R → Seen

  abbrev read_as : Option (Reading R) → Seen
  read_as none = unreadable
  read_as (some r) = read r

  abbrev pub seen : Args R → ℕ → Option (Joy R) → State R → Seen
  seen args now none st = missed
  seen args now (some j) st =
      if ltb (st.joy_t + args.joy_timeout_ms) now then missed else read_as (read_pad R st.pad j)

  -- Some reading since the messages last failed has the trigger at rest; the latest comes first.
  abbrev pub Rested : (Reading R → Float) → List Seen → Type 0
  Rested of [] = ⊥
  Rested of (missed ∷ past) = ⊥
  Rested of (unreadable ∷ past) = Rested of past
  Rested of (read r ∷ past) = (at_rest R (of r) ≡ true) ⊎ Rested of past

  module _ (args : Args R) (i : Indices) where
    abbrev pub next : Happening → State R × List Seen → State R × List Seen
    next (hears now j) (st, past) = (on_joy R i now j st, past)
    next (ticks now) (st, past) = ((tick R args now st).0, seen args now st.joy st ∷ past)

    unfoldable pub after : List Happening → State R × List Seen → State R × List Seen
    after [] s = s
    after (h ∷ later) s = after later (next h s)

  -- An armed trigger was at rest; without a message nothing is armed, and `seen_joy` says if there was one.
  record IsArmed (st : State R) (past : List Seen) : Type 0 where
    pub rt : st.armed_rt ≡ true → Rested (λ r. r.rt) past
    pub lt : st.armed_lt ≡ true → Rested (λ r. r.lt) past
    pub mute : st.joy ≡ none → (st.armed_rt ≡ false) × (st.armed_lt ≡ false)
    pub heard : (j : Joy R) → st.joy ≡ some j → st.seen_joy ≡ true

  module _ (args : Args R) (now : ℕ) where
    drive-fields :
        (r : Reading R) (st : State R)
        → let st' = (drive R args now r st).0 in
          (st'.armed_rt ≡ (st.armed_rt || at_rest R r.rt))
          × (st'.armed_lt ≡ (st.armed_lt || at_rest R r.lt))
          × (st'.joy ≡ st.joy)
          × (st'.seen_joy ≡ st.seen_joy)
    unfolding drive engage nag arm
    drive-fields r st = ground arith

    Rested-read :
        (of : Reading R → Float) (r : Reading R) (past : List Seen) (armed : Bool)
        → (armed ≡ true → Rested of past)
        → (armed || at_rest R (of r)) ≡ true
        → Rested of (read r ∷ past)
    Rested-read of r past true h e = inr (h refl)
    Rested-read of r past false h e = inl e

    some-not-none : {j : Joy R} {o : Option (Joy R)} → o ≡ some j → o ≡ none → ⊥
    some-not-none e f = cc (e, f)

    on_reading-IsArmed :
        (j : Joy R) (r : Option (Reading R)) (st : State R) (past : List Seen)
        → st.joy ≡ some j
        → IsArmed st past
        → IsArmed (on_reading R args now r st).0 (read_as r ∷ past)
    on_reading-IsArmed j none st past there h = record {
      rt = h.rt;
      lt = h.lt;
      mute = h.mute;
      heard = h.heard;
    }
    on_reading-IsArmed j (some r) st past there h =
        let (rt, lt, joy, seen_) = drive-fields r st in
        record {
          rt = λ e. Rested-read (λ x. x.rt) r past st.armed_rt h.rt (sym rt ∙ e);
          lt = λ e. Rested-read (λ x. x.lt) r past st.armed_lt h.lt (sym lt ∙ e);
          mute = λ e. absurd (some-not-none there (sym joy ∙ e));
          heard = λ k e. seen_ ∙ h.heard k (sym joy ∙ e);
        }

    on_lost-IsArmed :
        (disarms : Bool) (st : State R) (past : List Seen)
        → (disarms ≡ true) ⊎ ((st.armed_rt ≡ false) × (st.armed_lt ≡ false))
        → IsArmed st past
        → IsArmed (on_lost R args now disarms st).0 (missed ∷ past)
    unfolding on_lost disarm
    on_lost-IsArmed true st past none_left h = record {
      rt = λ e. cc e;
      lt = λ e. cc e;
      mute = λ e. (refl, refl);
      heard = h.heard;
    }
    on_lost-IsArmed false st past (inl e) h = absurd (cc e)
    on_lost-IsArmed false st past (inr (rt, lt)) h = record {
      rt = λ e. cc (rt, e);
      lt = λ e. cc (lt, e);
      mute = h.mute;
      heard = h.heard;
    }

    tick_on-IsArmed :
        (j : Option (Joy R)) (st : State R) (past : List Seen)
        → st.joy ≡ j
        → IsArmed st past
        → IsArmed (tick_on R args now j st).0 (seen args now j st ∷ past)
    unfolding on_fresh
    tick_on-IsArmed none st past there h = on_lost-IsArmed st.engaged st past (inr (h.mute there)) h
    tick_on-IsArmed (some j) st past there h =
        elim (Bool-cases (ltb (st.joy_t + args.joy_timeout_ms) now)) [
          | inl stale ↦ rw stale (
              on_lost-IsArmed (st.seen_joy || st.engaged) st past (inl (rw (h.heard j there) refl))
                h)
          | inr fresh ↦ rw fresh (on_reading-IsArmed j (read_pad R st.pad j) st past there h)
        ]

    on_joy-IsArmed :
        (i : Indices) (j : Joy R) (st : State R) (past : List Seen)
        → IsArmed st past
        → IsArmed (on_joy R i now j st) past
    unfolding on_joy
    on_joy-IsArmed i j st past h = elim (Bool-cases st.seen_joy) [
      | inl seen_ ↦ rw seen_ (record {
        rt = h.rt;
        lt = h.lt;
        mute = λ e. absurd (some-not-none refl e);
        heard = λ k e. refl;
      })
      | inr first ↦ rw first (record {
        rt = h.rt;
        lt = h.lt;
        mute = λ e. absurd (some-not-none refl e);
        heard = λ k e. refl;
      })
    ]

  module _ (args : Args R) (i : Indices) where
    after-IsArmed :
        (events : List Happening) (st : State R) (past : List Seen)
        → IsArmed st past
        → IsArmed (after args i events (st, past)).0 (after args i events (st, past)).1
    unfolding after tick
    after-IsArmed [] st past h = h
    after-IsArmed (hears now j ∷ events) st past h =
        after-IsArmed events _ past (on_joy-IsArmed args now i j st past h)
    after-IsArmed (ticks now ∷ events) st past h =
        after-IsArmed events _ _ (tick_on-IsArmed args now st.joy st past refl h)

    start-IsArmed : IsArmed (start R i) []
    unfolding start
    start-IsArmed = record {
      rt = λ e. cc e;
      lt = λ e. cc e;
      mute = λ e. (refl, refl);
      heard = λ j e. cc e;
    }

    -- A command of the operator: the message is fresh, its reading has RB held, and each trigger was at
    -- rest in some reading since the messages last failed, this one included.
    pub record Commands (now : ℕ) (st : State R) (past : List Seen) : Type 0 where
      pub joy : Joy R
      pub r : Reading R
      pub heard : st.joy ≡ some joy
      pub fresh : now ≤ st.joy_t + args.joy_timeout_ms
      pub reads : read_pad R st.pad joy ≡ some r
      pub held : r.rb ≡ true
      pub rt_rested : Rested (λ x. x.rt) (read r ∷ past)
      pub lt_rested : Rested (λ x. x.lt) (read r ∷ past)

    -- From the start, after any messages and ticks at any times: whatever a tick publishes is a stop, or
    -- it was asked for, on a fresh message whose indices are in range, with RB held, and each trigger was
    -- seen at rest by this tick or one before it, with no tick in between that found no message in time.
    pub run-Commands :
        (events : List Happening) (now : ℕ) (m : Twist R)
        → (tick R args now (after args i events (start R i, [])).0).1 ≡ some m
        → (m ≡ stop R)
          ⊎ Commands now
              (after args i events (start R i, [])).0
              (after args i events (start R i, [])).1
    run-Commands events now m e =
        let (st, past) = after args i events (start R i, []) in
        let armed = after-IsArmed events (start R i) [] start-IsArmed in
        elim (tick-cases R args now st m e) [
          | inl still ↦ inl still
          | inr d ↦ inr (record {
            joy = d.joy;
            r = d.r;
            heard = d.heard;
            fresh = d.fresh;
            reads = d.read;
            held = d.held;
            rt_rested = Rested-read args now (λ x. x.rt) d.r past st.armed_rt armed.rt d.rt_rested;
            lt_rested = Rested-read args now (λ x. x.lt) d.r past st.armed_lt armed.lt d.lt_rested;
          })
        ]
