-- ===== src/Probe/Goal/Numbers/Ranks.antt =====
-- Where the percentile stands among the values.
use ros2_ws_gp.Common.{
  ℕ, zero, suc, ◌-◌, ◌<◌, ◌≤◌, ◌≡◌, refl, sym, ap, ◌∙◌, inl, inr, Bool, true, false, some, List, [],
  ◌∷◌, ◌++◌, length, get_elem?, select, All, Bool-cases, arith,
}
use mathlib.Core.Path.{subst}
use ros2_ws_gp.Override.Floats.{Floats}
use ros2_ws_gp.Probe.Goal.Numbers.{insert_sorted, sort, p95}

-- The order of finite floating-point numbers: `b ≤ a` is that not `a < b`.
pub record IsOrdered (R : Floats) : Type 0 where
  pub asym : (a b : R.Float) → R.ltb a b ≡ true → R.ltb b a ≡ false
  pub trans : (a b c : R.Float) → R.ltb b a ≡ false → R.ltb c b ≡ false → R.ltb c a ≡ false

module _ (R : Floats) where
  -- Every value is at most each one after it.
  abbrev pub Ascends : List R.Float → Type 0
  Ascends [] = Unit
  Ascends (x ∷ xs) = All (λ y. R.ltb y x ≡ false) xs × Ascends xs

  module _ (o : IsOrdered R) where
    All-trans :
        (x y : R.Float) (zs : List R.Float)
        → R.ltb y x ≡ false
        → All (λ z. R.ltb z y ≡ false) zs
        → All (λ z. R.ltb z x ≡ false) zs
    All-trans x y [] e h = tt
    All-trans x y (z ∷ zs) e h = (o.trans x y z e h.0, All-trans x y zs e h.1)

    All-insert_sorted :
        (P : R.Float → Type 0) (x : R.Float) (ys : List R.Float)
        → P x
        → All P ys
        → All P (insert_sorted R x ys)
    unfolding insert_sorted
    All-insert_sorted P x [] h hs = (h, tt)
    All-insert_sorted P x (y ∷ ys) h hs = elim (Bool-cases (R.ltb y x)) [
      | inl before ↦ rw before (hs.0, All-insert_sorted P x ys h hs.1)
      | inr after ↦ rw after (h, hs)
    ]

    insert_sorted-Ascends :
        (x : R.Float) (ys : List R.Float) → Ascends ys → Ascends (insert_sorted R x ys)
    unfolding insert_sorted
    insert_sorted-Ascends x [] h = (tt, tt)
    insert_sorted-Ascends x (y ∷ ys) h = elim (Bool-cases (R.ltb y x)) [
      | inl before ↦ rw before (
        All-insert_sorted (λ z. R.ltb z y ≡ false) x ys (o.asym y x before) h.0,
        insert_sorted-Ascends x ys h.1,
      )
      | inr after ↦ rw after ((after, All-trans x y ys after h.0), h)
    ]

    pub sort-Ascends : (xs : List R.Float) → Ascends (sort R xs)
    unfolding sort
    sort-Ascends [] = tt
    sort-Ascends (x ∷ xs) = insert_sorted-Ascends x (sort R xs) (sort-Ascends xs)

  count-insert_sorted :
      (test : R.Float → Bool) (x : R.Float) (ys : List R.Float)
      → length (select test (insert_sorted R x ys)) ≡ length (select test (x ∷ ys))
  unfolding insert_sorted
  count-insert_sorted test x [] = refl
  count-insert_sorted test x (y ∷ ys) = ground (arith, count-insert_sorted test x ys)

  pub count-sort :
      (test : R.Float → Bool) (xs : List R.Float)
      → length (select test (sort R xs)) ≡ length (select test xs)
  unfolding sort
  count-sort test [] = refl
  count-sort test (x ∷ xs) =
      count-insert_sorted test x (sort R xs) ∙ ground (arith, count-sort test xs)

  length-insert_sorted :
      (x : R.Float) (ys : List R.Float) → length (insert_sorted R x ys) ≡ suc (length ys)
  unfolding insert_sorted
  length-insert_sorted x [] = refl
  length-insert_sorted x (y ∷ ys) = ground (arith, length-insert_sorted x ys)

  pub length-sort : (xs : List R.Float) → length (sort R xs) ≡ length xs
  unfolding sort
  length-sort [] = refl
  length-sort (x ∷ xs) = length-insert_sorted x (sort R xs) ∙ ap suc (length-sort xs)

  split_at :
      (xs : List R.Float) (i : ℕ)
      → i < length xs
      → (lows : List R.Float) × (v : R.Float) × (highs : List R.Float) × (xs ≡ lows ++ v ∷ highs)
        × (length lows ≡ i)
        × (get_elem? xs i ≡ some v)
  split_at [] i h = absurd (omega arith)
  split_at (x ∷ xs) zero h = ([], x, xs, refl, refl, refl)
  split_at (x ∷ xs) (suc i) h =
      let (lows, v, highs, cut, place, found) = split_at xs i (omega arith) in
      (x ∷ lows, v, highs, ap (◌∷◌ x) cut, ap suc place, found)

  Ascends-split :
      (lows : List R.Float) (v : R.Float) (highs : List R.Float)
      → Ascends (lows ++ v ∷ highs)
      → All (λ z. R.ltb v z ≡ false) lows × All (λ z. R.ltb z v ≡ false) highs
  Ascends-split [] v highs h = (tt, h.0)
  Ascends-split (x ∷ lows) v highs h =
      let (below, above) = Ascends-split lows v highs h.1 in ((at_middle lows h.0, below), above)
    where
      at_middle :
          (zs : List R.Float) → All (λ z. R.ltb z x ≡ false) (zs ++ v ∷ highs) → R.ltb v x ≡ false
      at_middle [] k = k.0
      at_middle (z ∷ zs) k = at_middle zs k.1

  -- With an order of the values, and an `int` that takes 95 % of a number to no more than that number:
  -- of at least one value the percentile exists. The values, each as often as it was measured, are those
  -- before it, the percentile, and those after it: 95 % of the others, cut to a whole number, stand
  -- before it and are not above it, and the rest are not below it.
  pub p95-splits :
      (int : R.Float → ℕ) (xs : List R.Float)
      → IsOrdered R
      → ((k : ℕ) → int (R.mul (R.decimal 95 2) (R.decimal k 0)) ≤ k)
      → 0 < length xs
      → (lows : List R.Float) × (v : R.Float) × (highs : List R.Float) × (p95 R int xs ≡ some v)
        × ((test : R.Float → Bool)
            → length (select test (lows ++ v ∷ highs)) ≡ length (select test xs))
        × (length lows ≡ int (R.mul (R.decimal 95 2) (R.decimal (length xs - 1) 0)))
        × All (λ z. R.ltb v z ≡ false) lows
        × All (λ z. R.ltb z v ≡ false) highs
  unfolding p95
  p95-splits int xs o law some_ =
      let place = int (R.mul (R.decimal 95 2) (R.decimal (length xs - 1) 0)) in
      let (lows, v, highs, cut, before, found) =
        split_at (sort R xs) place (omega (arith, law (length xs - 1), length-sort xs)) in
      let (below, above) = Ascends-split lows v highs (subst Ascends cut (sort-Ascends o xs)) in
      (
        lows,
        v,
        highs,
        found,
        (λ test. sym (ap (λ ys. length (select test ys)) cut) ∙ count-sort test xs),
        before,
        below,
        above,
      )
