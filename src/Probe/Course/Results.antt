-- ===== src/Probe/Course/Results.antt =====
-- What `main` of nav_probe.py sums up.
use ros2_ws_gp.Common.{
  ℕ, zero, suc, ◌-◌, ◌≤◌, ◌≡◌, refl, ap, ◌∙◌, inl, inr, Bool, true, false, Option, some, List, [],
  ◌∷◌, length, length-append, select, All, Option-cases, arith,
}
use mathlib.Core.Path.{subst}
use mathlib.Core.Option.{some-injective}
use ros2_ws_gp.Common.Text.{Text, split_on}
use ros2_ws_gp.Override.Floats.{Floats}
use ros2_ws_gp.Probe.Goal.{Maths, Probe}
use ros2_ws_gp.Probe.Goal.Summary.{Result, GoalAnswers}
use ros2_ws_gp.Probe.Course.{
  floats_of, zeros, pad_goal, parse_goal, parse_goals, run_goals, is_success, summed_up, sum_up,
  Arguments, with_goals, main,
}

module _ (R : Floats) (maths : Maths R) (wheelbase steer_clamp : R.Float) where
  length-zeros : (n : ℕ) → length (zeros R maths wheelbase steer_clamp n) ≡ n
  length-zeros zero = refl
  length-zeros (suc n) = ap suc (length-zeros n)

  module _ (float : Text → Option R.Float) where
    length-floats_of :
        (ts : List Text) (vs : List R.Float)
        → floats_of R maths wheelbase steer_clamp float ts ≡ some vs
        → length vs ≡ length ts
    unfolding floats_of
    length-floats_of [] vs e = ground arith
    length-floats_of (t ∷ ts) vs e = elim (Option-cases (float t)) [
      | inl bad ↦ cc (rw bad at e)
      | inr (v, good) ↦ elim (Option-cases (floats_of R maths wheelbase steer_clamp float ts)) [
        | inl bad ↦ cc (rw (good, bad) at e)
        | inr (rest, goods) ↦
            ground (arith, (rw (good, goods) at e), length-floats_of ts rest goods)
      ]
    ]

    -- No more than three parts.
    abbrev pub IsShort : Text → Type 0
    IsShort g = length (split_on b',' g) ≤ 3

    parse_goal-triple :
        (g : Text) (vs : List R.Float)
        → IsShort g
        → parse_goal R maths wheelbase steer_clamp float g ≡ some vs
        → length vs ≡ 3
    unfolding parse_goal pad_goal
    parse_goal-triple g vs short e =
        elim (Option-cases (floats_of R maths wheelbase steer_clamp float (split_on b',' g))) [
          | inl bad ↦ cc (rw bad at e)
          | inr (ws, good) ↦
              (let parts = length (split_on b',' g) in
                ground (
                  arith,
                  (rw good at e),
                  length-floats_of (split_on b',' g) ws good,
                  length-append ws (zeros R maths wheelbase steer_clamp (3 - parts)),
                  length-zeros (3 - parts),
                ))
        ]

    parse_goals-triples :
        (gs : List Text) (goals : List (List R.Float))
        → All IsShort gs
        → parse_goals R maths wheelbase steer_clamp float gs ≡ some goals
        → All (λ goal. length goal ≡ 3) goals × (length goals ≡ length gs)
    unfolding parse_goals
    parse_goals-triples [] goals short e =
        subst (λ gs. All (λ goal. length goal ≡ 3) gs × (length gs ≡ 0)) (some-injective _ _ e)
          (tt, refl)
    parse_goals-triples (g ∷ gs) goals short e =
        elim (Option-cases (parse_goal R maths wheelbase steer_clamp float g)) [
          | inl bad ↦ cc (rw bad at e)
          | inr (goal, good) ↦
              elim (Option-cases (parse_goals R maths wheelbase steer_clamp float gs)) [
                | inl bad ↦ cc (rw (good, bad) at e)
                | inr (rest, goods) ↦
                    (let (triples, count) = parse_goals-triples gs rest short.1 goods in
                      subst
                        (λ all. All (λ goal. length goal ≡ 3) all × (length all ≡ suc (length gs)))
                        (some-injective _ _ (rw (good, goods) at e))
                        ((parse_goal-triple g goal short.0 good, triples), ap suc count))
              ]
        ]

  -- Every goal has its result.
  run_goals-each :
      (infinite : R.Float) (model : Text) (timeout : R.Float)
      (answers : ℕ → GoalAnswers R maths wheelbase steer_clamp) (k : ℕ)
      (goals : List (List R.Float)) (s : Probe R maths wheelbase)
      → All (λ goal. length goal ≡ 3) goals
      → ((run_goals R maths wheelbase steer_clamp infinite model timeout answers k goals s).0
          ≡ true)
        × (length
              (run_goals R maths wheelbase steer_clamp infinite model timeout answers k goals s).1
            ≡ length goals)
  unfolding run_goals
  run_goals-each infinite model timeout answers k [] s h = (refl, refl)
  run_goals-each infinite model timeout answers k ((x ∷ y ∷ yaw ∷ []) ∷ goals) s h =
      let (whole, count) = run_goals-each infinite model timeout answers (suc k) goals _ h.1 in
      (whole, ap suc count)
  run_goals-each infinite model timeout answers k ([] ∷ goals) s h = absurd (omega (arith, h.0))
  run_goals-each infinite model timeout answers k ((x ∷ []) ∷ goals) s h =
      absurd (omega (arith, h.0))
  run_goals-each infinite model timeout answers k ((x ∷ y ∷ []) ∷ goals) s h =
      absurd (omega (arith, h.0))
  run_goals-each infinite model timeout answers k ((x ∷ y ∷ z ∷ w ∷ rest) ∷ goals) s h =
      absurd (omega (arith, h.0))

  sum_up-whole :
      (done_ : Bool × List (Result R maths wheelbase steer_clamp))
      → done_.0 ≡ true
      → sum_up R maths wheelbase steer_clamp done_
        ≡ summed_up (length (select (is_success R maths wheelbase steer_clamp) done_.1)) done_.1
  unfolding sum_up
  sum_up-whole (true, results) e = refl
  sum_up-whole (false, results) e = cc

  -- With at least one goal, each of at most three parts that are numbers, a start of three numbers, and
  -- the action server: the script ends with one result for each goal, in whatever way the goals go, and
  -- the number of the successful ones.
  pub main-summed_up :
      (infinite : R.Float) (model : Text) (float : Text → Option R.Float)
      (answers : ℕ → GoalAnswers R maths wheelbase steer_clamp)
      (args : Arguments R maths wheelbase steer_clamp) (s : Probe R maths wheelbase)
      (goal : List R.Float) (goals : List (List R.Float)) (sx sy syaw : R.Float)
      → args.course ≡ false
      → All (IsShort float) args.goals
      → parse_goals R maths wheelbase steer_clamp float args.goals ≡ some (goal ∷ goals)
      → floats_of R maths wheelbase steer_clamp float (split_on b',' args.start)
        ≡ some (sx ∷ sy ∷ syaw ∷ [])
      → (results : List (Result R maths wheelbase steer_clamp)) × (main R maths wheelbase
            steer_clamp infinite model float true answers args s
          ≡ summed_up (length (select (is_success R maths wheelbase steer_clamp) results)) results)
        × (length results ≡ length args.goals)
  unfolding main with_goals
  main-summed_up infinite model float answers args s goal goals sx sy syaw own short parsed
        started =
      let (triples, count) = parse_goals-triples float args.goals (goal ∷ goals) short parsed in
      let run =
        run_goals R maths wheelbase steer_clamp infinite model args.timeout answers 0 (goal ∷ goals)
          s in
      let (whole, each) =
        run_goals-each infinite model args.timeout answers 0 (goal ∷ goals) s triples in
      (run.1, rw (own, parsed, with_goals, started) (sum_up-whole run whole), each ∙ count)
