-- ===== src/Probe/Steering/Pairs.antt =====
-- The matching of the smoother's outputs with its inputs.
use ros2_ws_gp.Common.{
  suc, ◌≤◌, ◌<◌, ◌≡◌, refl, ap, ◌∙◌, Bool, List, [], ◌∷◌, length, arith, select,
}
use ros2_ws_gp.Override.Floats.{Floats}
use ros2_ws_gp.Probe.Steering.{Sample, catch_up, pair_with, pair_up, inflated}

length-select : {A : Type 0} (test : A → Bool) (xs : List A) → length (select test xs) ≤ length xs
length-select test [] = omega arith
length-select test (x ∷ xs) = ground (arith, length-select test xs)

module _ (R : Floats) (atan : R.Float → R.Float) (hypot : R.Float → R.Float → R.Float)
    (wheelbase : R.Float) where
  catch_up-nonempty :
      (t : R.Float) (a : Sample R atan hypot wheelbase) (ins : List (Sample R atan hypot wheelbase))
      → 0 < length (catch_up R atan hypot wheelbase t (a ∷ ins))
  unfolding catch_up
  catch_up-nonempty t a [] = omega arith
  catch_up-nonempty t a ((u, d) ∷ ins) = ground (arith, catch_up-nonempty t (u, d) ins)

  length-pair_with :
      (d : R.Float) (ins : List (Sample R atan hypot wheelbase)) (rest : List (R.Float × R.Float))
      → 0 < length ins
      → length (pair_with R atan hypot wheelbase d ins rest) ≡ suc (length rest)
  length-pair_with d [] rest h = absurd (omega arith)
  length-pair_with d ((u, e) ∷ ins) rest h = refl

  length-pair_up :
      (ins outs : List (Sample R atan hypot wheelbase))
      → 0 < length ins
      → length (pair_up R atan hypot wheelbase ins outs) ≡ length outs
  unfolding pair_up
  length-pair_up ins [] h = refl
  length-pair_up [] ((t, d) ∷ outs) h = absurd (omega arith)
  length-pair_up (a ∷ ins) ((t, d) ∷ outs) h =
      let more = catch_up-nonempty t a ins in
      length-pair_with d (catch_up R atan hypot wheelbase t (a ∷ ins)) _ more
      ∙ ap suc (length-pair_up (catch_up R atan hypot wheelbase t (a ∷ ins)) outs more)

  -- With an input at all, each output of the smoother is matched with one input, and the outputs that
  -- are counted as inflated are at most all outputs.
  pub pair_up-inflated :
      (ins outs : List (Sample R atan hypot wheelbase))
      → 0 < length ins
      → (length (pair_up R atan hypot wheelbase ins outs) ≡ length outs)
        × (inflated R atan hypot wheelbase ins outs ≤ length outs)
  unfolding inflated
  pair_up-inflated ins outs h = (
    length-pair_up ins outs h,
    omega (
      arith,
      length-pair_up ins outs h,
      length-select (λ p. R.ltb (R.add p.0 (R.decimal 1 4)) p.1)
          (pair_up R atan hypot wheelbase ins outs),
    ),
  )
