-- ===== src/Override/Bounds.antt =====
-- What a command can be: the steering angle within its limit, no speed out of two pressed triggers, and
-- the pad map that the command line and the shape of the pad give.
use mathlib.Core.Path.{subst}
use mathlib.Core.Option.{some-injective}
use ros2_ws_gp.Common.{
  ℕ, ◌≡◌, refl, ◌∙◌, inl, inr, true, false, Option, none, some, arith, Bool-cases,
}
use ros2_ws_gp.Override.Floats.{Floats, min_float, max_float}
use ros2_ws_gp.Override.PadMap.{
  PadMap, Indices, profile, specified, fill, choose, or_default, resolve_pad_map,
}
use ros2_ws_gp.Override.Drive.{Caps, centred, steering}

-- What IEEE arithmetic does on finite values.
pub record Laws (R : Floats) : Type 0 where
  pub lt_asymm : (a b : R.Float) → R.ltb a b ≡ true → R.ltb b a ≡ false

module _ (R : Floats) (laws : Laws R) where
  lt_irrefl : (a : R.Float) → R.ltb a a ≡ false
  lt_irrefl a = elim (Bool-cases (R.ltb a a)) [
    | inl less ↦ laws.lt_asymm a a less
    | inr not_less ↦ not_less
  ]

  abbrev clamped : R.Float → R.Float → R.Float
  clamped m v = max_float R (R.neg m) (min_float R m v)

  clamped-within :
      (m v : R.Float)
      → R.ltb m (R.neg m) ≡ false
      → (R.ltb m (clamped m v) ≡ false) × (R.ltb (clamped m v) (R.neg m) ≡ false)
  unfolding min_float max_float
  clamped-within m v sane = elim (Bool-cases (R.ltb v m)) [
    | inl less ↦ rw less (elim (Bool-cases (R.ltb (R.neg m) v)) [
      | inl above ↦ rw above (laws.lt_asymm v m less, laws.lt_asymm (R.neg m) v above)
      | inr below ↦ rw below (sane, lt_irrefl (R.neg m))
    ])
    | inr more ↦ rw more (elim (Bool-cases (R.ltb (R.neg m) m)) [
      | inl above ↦ rw above (lt_irrefl m, laws.lt_asymm (R.neg m) m above)
      | inr below ↦ rw below (sane, lt_irrefl (R.neg m))
    ])
  ]

  -- Whatever the stick reads, the steering angle lies between the negative of the limit and the limit,
  -- for a limit that is not below its own negative.
  pub steering-within :
      (caps : Caps R) (axis_val : R.Float)
      → R.ltb caps.max_steer (R.neg caps.max_steer) ≡ false
      → (R.ltb caps.max_steer (steering R caps axis_val) ≡ false)
        × (R.ltb (steering R caps axis_val) (R.neg caps.max_steer) ≡ false)
  unfolding steering
  steering-within caps axis_val sane =
      clamped-within caps.max_steer
        (R.mul (centred R (R.mul axis_val caps.steer_sign)) caps.max_steer) sane

-- The index in force is the one that was chosen, if one was.
abbrev pub Chosen : Option ℕ → ℕ → Type 0
Chosen none m = Unit
Chosen (some v) m = m ≡ v

-- Every index that the operator chose is the one in force.
pub record Honours (i : Indices) (m : PadMap) : Type 0 where
  pub rt_axis : Chosen i.rt_axis m.rt_axis
  pub lt_axis : Chosen i.lt_axis m.lt_axis
  pub steer_axis : Chosen i.steer_axis m.steer_axis
  pub rb_button : Chosen i.rb_button m.rb_button

or_default-Chosen : (o : Option ℕ) (d : ℕ) → Chosen o (or_default o d)
or_default-Chosen none d = tt
or_default-Chosen (some n) d = refl

fill-Honours : (i : Indices) (p : PadMap) → Honours i (fill i p)
fill-Honours i p = record {
  rt_axis = or_default-Chosen i.rt_axis p.rt_axis;
  lt_axis = or_default-Chosen i.lt_axis p.lt_axis;
  steer_axis = or_default-Chosen i.steer_axis p.steer_axis;
  rb_button = or_default-Chosen i.rb_button p.rb_button;
}

fill-specified :
    (rt lt steer rb : Option ℕ) (all p : PadMap)
    → specified (record { rt_axis = rt; lt_axis = lt; steer_axis = steer; rb_button = rb })
      ≡ some all
    → fill (record { rt_axis = rt; lt_axis = lt; steer_axis = steer; rb_button = rb }) p ≡ all
unfolding specified
fill-specified (some a) (some b) (some c) (some d) all p e = ground (arith, e)
fill-specified none lt steer rb all p e = ground arith
fill-specified (some a) none steer rb all p e = ground arith
fill-specified (some a) (some b) none rb all p e = ground arith
fill-specified (some a) (some b) (some c) none all p e = ground arith

choose-Honours :
    (i : Indices) (s prof : Option PadMap) (m : PadMap)
    → specified i ≡ s
    → choose i s prof ≡ some m
    → Honours i m
choose-Honours i (some all) prof m e h =
    subst (Honours i) (fill-specified i.rt_axis i.lt_axis i.steer_axis i.rb_button m all (e ∙ h))
      (fill-Honours i all)
choose-Honours i none none m e h = ground arith
choose-Honours i none (some p) m e h =
    subst (Honours i) (some-injective (fill i p) m h) (fill-Honours i p)

choose-none :
    (i : Indices) (s prof : Option PadMap) → choose i s prof ≡ none → (s ≡ none) × (prof ≡ none)
choose-none i (some all) prof h = ground arith
choose-none i none none h = (refl, refl)
choose-none i none (some p) h = ground arith

-- The map in force honours every index that the operator chose.
pub resolve_pad_map-Honours :
    (n_ax n_btn : ℕ) (i : Indices) {m : PadMap}
    → resolve_pad_map n_ax n_btn i ≡ some m
    → Honours i m
unfolding resolve_pad_map
resolve_pad_map-Honours n_ax n_btn i {m} h =
    choose-Honours i (specified i) (profile n_ax n_btn) m refl h

-- The process exits only where some index is missing and the shape of the pad is unknown.
pub resolve_pad_map-none :
    (n_ax n_btn : ℕ) (i : Indices)
    → resolve_pad_map n_ax n_btn i ≡ none
    → (specified i ≡ none) × (profile n_ax n_btn ≡ none)
unfolding resolve_pad_map
resolve_pad_map-none n_ax n_btn i h = choose-none i (specified i) (profile n_ax n_btn) h
