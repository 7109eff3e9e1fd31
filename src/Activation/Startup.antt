-- ===== src/Activation/Startup.antt =====
-- Nodes that follow the lifecycle are brought up: three rounds on each are enough.
use ros2_ws_gp.Common.{
  ℕ, zero, suc, ◌≤◌, ◌≡◌, refl, ap, ◌∙◌, true, false, some, List, [], ◌∷◌, arith, ◌==◌, All,
  Bool-cases, inl, inr,
}
use ros2_ws_gp.Activation.{
  Name, controller_server, smoother_server, planner_server, behavior_server, bt_navigator,
  waypoint_follower, velocity_smoother, Label, active, unconfigured, inactive, other_state,
  Services, state_of, transition, Transition, configure, activate, order, want, get, code, drive_on,
  again, attempts, activate_all, survey, main,
}

-- The rounds that a node needs; one that is neither configured nor inactive is never started.
abbrev pub rounds : Label → ℕ
rounds active = 0
rounds inactive = 1
rounds unconfigured = 2
rounds (other_state n) = 4

-- The lifecycle: a transition moves a node from its own source state only.
abbrev pub moved : Transition → Label → Label
moved configure unconfigured = inactive
moved activate inactive = active
moved _ l = l

moved-rounds : (tid : Transition) (l : Label) → rounds (moved tid l) ≤ rounds l
moved-rounds configure unconfigured = omega arith
moved-rounds configure inactive = omega arith
moved-rounds configure active = omega arith
moved-rounds configure (other_state n) = omega arith
moved-rounds activate unconfigured = omega arith
moved-rounds activate inactive = omega arith
moved-rounds activate active = omega arith
moved-rounds activate (other_state n) = omega arith

-- Services that are there, answer a query with the label of the node, change nothing by it, and carry out
-- each transition on its node alone.
pub record Lifecycle {W : Type 0} (services : Services W) : Type 0 where
  pub label : W → Name → Label
  pub state_served : (name : Name) (w : W) → services.state_up name w ≡ (true, w)
  pub reports : (name : Name) (w : W) → services.get_state name w ≡ (some (label w name), w)
  pub change_served : (name : Name) (w : W) → services.change_up name w ≡ (true, w)
  pub changes :
      (name k : Name) (tid : Transition) (w : W)
      → (code name == code k) ≡ true
      → label (services.change_state name tid w).1 k ≡ moved tid (label w k)
  pub keeps_others :
      (name k : Name) (tid : Transition) (w : W)
      → (code name == code k) ≡ false
      → label (services.change_state name tid w).1 k ≡ label w k

module _ {W : Type 0} {services : Services W} (cycle : Lifecycle services) where
  answers : (name : Name) (w : W) → state_of services name w ≡ (some (cycle.label w name), w)
  unfolding state_of
  answers name w = rw (cycle.state_served name w, cycle.reports name w) refl

  transition_lem :
      (name : Name) (tid : Transition) (w : W)
      → (transition services name tid w).1 ≡ (services.change_state name tid w).1
  unfolding transition
  transition_lem name tid w = rw (cycle.change_served name w) refl

  moves :
      (name k : Name) (tid : Transition) (w : W)
      → (code name == code k) ≡ true
      → cycle.label (transition services name tid w).1 k ≡ moved tid (cycle.label w k)
  moves name k tid w e =
      ap (λ w'. cycle.label w' k) (transition_lem name tid w) ∙ cycle.changes name k tid w e

  keeps :
      (name k : Name) (tid : Transition) (w : W)
      → (code name == code k) ≡ false
      → cycle.label (transition services name tid w).1 k ≡ cycle.label w k
  keeps name k tid w e =
      ap (λ w'. cycle.label w' k) (transition_lem name tid w) ∙ cycle.keeps_others name k tid w e

  -- What a node needs never grows, whichever node a transition is for.
  transition-rounds :
      (name k : Name) (tid : Transition) (w : W)
      → rounds (cycle.label (transition services name tid w).1 k) ≤ rounds (cycle.label w k)
  transition-rounds name k tid w = elim (Bool-cases (code name == code k)) [
    | inl e ↦ rw (moves name k tid w e) (moved-rounds tid (cycle.label w k))
    | inr e ↦ rw (keeps name k tid w e) (omega arith)
  ]

  code_refl : (name : Name) → (code name == code name) ≡ true
  code_refl name = ground arith

  driven-rounds :
      (rest : W → W) (l : Label) (name k : Name) (w : W)
      → ((w' : W) → rounds (cycle.label (rest w') k) ≤ rounds (cycle.label w' k))
      → rounds (cycle.label (again services (drive_on services name (some l, w)) rest) k)
        ≤ rounds (cycle.label w k)
  unfolding want
  driven-rounds rest active name k w next = omega arith
  driven-rounds rest (other_state m) name k w next = omega arith
  driven-rounds rest inactive name k w next =
      omega
        (arith, next (transition services name activate w).1, transition-rounds name k activate w)
  driven-rounds rest unconfigured name k w next =
      omega
        (arith, next (transition services name configure w).1, transition-rounds name k configure w)

  attempts-rounds :
      (n : ℕ) (name k : Name) (w : W)
      → rounds (cycle.label (attempts services n name w) k) ≤ rounds (cycle.label w k)
  unfolding attempts
  attempts-rounds zero name k w = omega arith
  attempts-rounds (suc n) name k w = rw (answers name w) (
      driven-rounds (attempts services n name) (cycle.label w name) name k w
        (attempts-rounds n name k))

  -- A round brings the node one step nearer.
  driven-nearer :
      (n : ℕ) (rest : W → W) (l : Label) (name : Name) (w : W)
      → cycle.label w name ≡ l
      → rounds l ≤ suc n
      → n ≤ 2
      → ((w' : W) → rounds (cycle.label w' name) ≤ n → rounds (cycle.label (rest w') name) ≡ 0)
      → rounds (cycle.label (again services (drive_on services name (some l, w)) rest) name) ≡ 0
  unfolding want
  driven-nearer n rest active name w e few small next = ap rounds e
  driven-nearer n rest (other_state m) name w e few small next = absurd (omega arith)
  driven-nearer n rest inactive name w e few small next =
      next (transition services name activate w).1
        (rw (moves name name activate w (code_refl name), e) (omega arith))
  driven-nearer n rest unconfigured name w e few small next =
      next (transition services name configure w).1
        (rw (moves name name configure w (code_refl name), e) (omega arith))

  attempts-enough :
      (n : ℕ) (name : Name) (w : W)
      → rounds (cycle.label w name) ≤ n
      → n ≤ 3
      → rounds (cycle.label (attempts services n name w) name) ≡ 0
  unfolding attempts
  attempts-enough zero name w few small = omega arith
  attempts-enough (suc n) name w few small = rw (answers name w) (
      driven-nearer n (attempts services n name) (cycle.label w name) name w refl few (omega arith)
        (λ w' near. attempts-enough n name w' near (omega arith)))

  activate_all-rounds :
      (names : List Name) (k : Name) (w : W)
      → rounds (cycle.label (activate_all services names w) k) ≤ rounds (cycle.label w k)
  unfolding activate_all
  activate_all-rounds [] k w = omega arith
  activate_all-rounds (name ∷ names) k w =
      omega (
        arith,
        activate_all-rounds names k (attempts services 3 name w),
        attempts-rounds 3 name k w,
      )

  activate_all-enough :
      (names : List Name) (w : W)
      → ((k : Name) → rounds (cycle.label w k) ≤ 3)
      → All (λ k. rounds (cycle.label (activate_all services names w) k) ≡ 0) names
  unfolding activate_all
  activate_all-enough [] w few = tt
  activate_all-enough (name ∷ names) w few =
      let w' = attempts services 3 name w in
      (
        omega (
          arith,
          activate_all-rounds names name w',
          attempts-enough 3 name w (few name) (omega arith),
        ),
        activate_all-enough names w' (λ k. omega (arith, attempts-rounds 3 name k w, few k)),
      )

  rounds-active : (l : Label) → rounds l ≡ 0 → l ≡ active
  rounds-active active e = refl
  rounds-active inactive e = absurd (omega arith)
  rounds-active unconfigured e = absurd (omega arith)
  rounds-active (other_state n) e = absurd (omega arith)

  All-active :
      (names : List Name) (w : W)
      → All (λ k. rounds (cycle.label w k) ≡ 0) names
      → All (λ k. cycle.label w k ≡ active) names
  All-active [] w up = tt
  All-active (name ∷ names) w up =
      (rounds-active (cycle.label w name) up.0, All-active names w up.1)

  -- From nodes that are each unconfigured, inactive or active, and that follow the lifecycle, the script
  -- brings all of them up and exits with 0.
  pub main-startup :
      (w : W)
      → ((k : Name) → rounds (cycle.label w k) ≤ 3)
      → ((main services w).0 ≡ true) × All (λ k. cycle.label (main services w).1 k ≡ active) order
  unfolding main survey get
  main-startup w few =
      let w' = activate_all services order w in
      let up = All-active order w' (activate_all-enough order w few) in
      rw
        (
          answers controller_server w',
          answers smoother_server w',
          answers planner_server w',
          answers behavior_server w',
          answers bt_navigator w',
          answers waypoint_follower w',
          answers velocity_smoother w',
        )
        ((rw (up.0, up.1.1.0, up.1.1.1.1.0) refl, up))
