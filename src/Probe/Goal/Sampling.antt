-- ===== src/Probe/Goal/Sampling.antt =====
-- What the loop of a goal has collected, whenever it ends.
use ros2_ws_gp.Common.{
  ◌+◌, ◌≡◌, refl, sym, ap, ◌∙◌, inl, inr, false, not, ◌&&◌, Option, none, some, List, [], ◌∷◌,
  length, length-append, Bool-cases, is_empty, get_elem?, get_elem?,
}
use ros2_ws_gp.Common.Text.{Text}
use ros2_ws_gp.Override.Floats.{Floats}
use ros2_ws_gp.Probe.{Point}
use ros2_ws_gp.Probe.Goal.{
  Maths, Probe, BodyPose, Heard, hear, same_plan, snapshot, measure, Pass, sample_while, cleared,
  models, amcl_pose, new_plan, joints, command, smoother_input, smoother_output,
}

module _ (R : Floats) (maths : Maths R) (wheelbase : R.Float) where
  abbrev Plan : Type 0
  Plan = List (Point R)

  -- No plan is empty, and none is the one before it.
  abbrev pub Changes : List Plan → Type 0
  Changes [] = Unit
  Changes (p ∷ []) = is_empty p ≡ false
  Changes (p ∷ q ∷ plans) =
      (is_empty p ≡ false) × (same_plan R maths wheelbase p q ≡ false) × Changes (q ∷ plans)

  -- A row of the trace for each sample, and plans that change.
  pub record IsCollected (s : Probe R maths wheelbase) : Type 0 where
    pub paired : length s.trace ≡ length s.samples
    pub changes : Changes s.plans

  snapshot-before :
      (p q : Plan) (plans : List Plan) (plan : Plan)
      → is_empty p ≡ false
      → same_plan R maths wheelbase p q ≡ false
      → Changes (snapshot R maths wheelbase plan (q ∷ plans))
      → Changes (p ∷ snapshot R maths wheelbase plan (q ∷ plans))
  unfolding snapshot
  snapshot-before p q plans [] e d h = (e, d, h)
  snapshot-before p q [] (a ∷ plan) e d h =
      elim (Bool-cases (same_plan R maths wheelbase q (a ∷ plan))) [
        | inl same ↦ rw same (e, d, (rw same at h))
        | inr other ↦ rw other (e, d, (rw other at h))
      ]
  snapshot-before p q (r ∷ plans) (a ∷ plan) e d h = (e, d, h)

  snapshot-Changes :
      (plan : Plan) (plans : List Plan)
      → Changes plans
      → Changes (snapshot R maths wheelbase plan plans)
  unfolding snapshot
  snapshot-Changes [] plans h = h
  snapshot-Changes (a ∷ plan) [] h = refl
  snapshot-Changes (a ∷ plan) (last ∷ []) h =
      elim (Bool-cases (same_plan R maths wheelbase last (a ∷ plan))) [
        | inl same ↦ rw same h
        | inr other ↦ rw other (h, other, refl)
      ]
  snapshot-Changes (a ∷ plan) (p ∷ q ∷ plans) h =
      snapshot-before p q plans (a ∷ plan) h.0 h.1 (snapshot-Changes (a ∷ plan) (q ∷ plans) h.2)

  hear-IsCollected :
      (model : Text) (heard : Option (Heard R maths wheelbase)) (s : Probe R maths wheelbase)
      → IsCollected s
      → IsCollected (hear R maths wheelbase model heard s)
  unfolding hear
  hear-IsCollected model none s h = h
  hear-IsCollected model (some (models ms)) s h = record { paired = h.paired; changes = h.changes }
  hear-IsCollected model (some (amcl_pose p)) s h = record {
    paired = h.paired;
    changes = h.changes;
  }
  hear-IsCollected model (some (new_plan ps)) s h = record {
    paired = h.paired;
    changes = h.changes;
  }
  hear-IsCollected model (some (joints js)) s h = record { paired = h.paired; changes = h.changes }
  hear-IsCollected model (some (command vx wz)) s h = record {
    paired = h.paired;
    changes = h.changes;
  }
  hear-IsCollected model (some (smoother_input t vx wz)) s h = record {
    paired = h.paired;
    changes = h.changes;
  }
  hear-IsCollected model (some (smoother_output t vx wz)) s h = record {
    paired = h.paired;
    changes = h.changes;
  }

  measure-IsCollected :
      (goal : Point R) (t : R.Float) (truth : Option (BodyPose R maths wheelbase))
      (s : Probe R maths wheelbase)
      → IsCollected s
      → IsCollected (measure R maths wheelbase goal t truth s)
  unfolding measure
  measure-IsCollected goal t none s h = h
  measure-IsCollected goal t (some truth) s h = record {
    paired = length-append s.trace _ ∙ ap (λ k. k + 1) h.paired ∙ sym (length-append s.samples _);
    changes = snapshot-Changes s.latest.plan s.plans h.changes;
  }

  sample_while-IsCollected :
      (model : Text) (goal : Point R) (timeout : R.Float) (passes : List (Pass R maths wheelbase))
      (s : Probe R maths wheelbase)
      → IsCollected s
      → IsCollected (sample_while R maths wheelbase model goal timeout passes s)
  unfolding sample_while
  sample_while-IsCollected model goal timeout [] s h = h
  sample_while-IsCollected model goal timeout (pass ∷ passes) s h =
      let s' = hear R maths wheelbase model pass.heard s in
      let next = measure R maths wheelbase goal pass.measured_at s'.latest.truth s' in
      let next-IsCollected =
        measure-IsCollected goal pass.measured_at s'.latest.truth s'
          (hear-IsCollected model pass.heard s h) in
      elim (Bool-cases (R.ltb pass.elapsed timeout && not pass.finished)) [
        | inl on ↦ rw on (sample_while-IsCollected model goal timeout passes next next-IsCollected)
        | inr over ↦ rw over h
      ]

  -- From any state of the probe, and through any passes of the loop: the trace has a row for each sample,
  -- and the plans that were recorded are not empty, each different from the one before it.
  pub run-IsCollected :
      (model : Text) (goal : Point R) (timeout : R.Float) (passes : List (Pass R maths wheelbase))
      (s : Probe R maths wheelbase)
      → IsCollected
          (sample_while R maths wheelbase model goal timeout passes (cleared R maths wheelbase s))
  unfolding cleared
  run-IsCollected model goal timeout passes s =
      sample_while-IsCollected model goal timeout passes (cleared R maths wheelbase s)
        (record { paired = refl; changes = tt })

  abbrev pub first_plan : Probe R maths wheelbase → Option Plan
  first_plan s = get_elem? s.plans 0
