-- ===== src/Probe/Cusps.antt =====
-- The runs of a plan: what is in them, and that they are the whole plan.
use ros2_ws_gp.Common.{
  ◌≤◌, ◌≡◌, ◌∙◌, inl, inr, Bool, false, List, [], ◌∷◌, ◌++◌, length, leb, leb→le, select, All,
  Bool-cases, append_assoc, append-nil, drop,
}
use ros2_ws_gp.Probe.{walk, runs_of, split_at_cusps}

module _ {P : Type 0} (doubles : P → P → P → Bool) where
  -- No three points in a row double back.
  abbrev pub IsSmooth : List P → Type 0
  IsSmooth (a ∷ b ∷ c ∷ rest) = (doubles a b c ≡ false) × IsSmooth (b ∷ c ∷ rest)
  IsSmooth _ = Unit

  snoc-IsSmooth :
      (xs : List P) (a b c : P)
      → IsSmooth (xs ++ a ∷ b ∷ [])
      → doubles a b c ≡ false
      → IsSmooth (xs ++ a ∷ b ∷ c ∷ [])
  snoc-IsSmooth [] a b c h e = (e, tt)
  snoc-IsSmooth (x ∷ []) a b c h e = (h.0, (e, tt))
  snoc-IsSmooth (x ∷ y ∷ []) a b c h e = (h.0, snoc-IsSmooth (y ∷ []) a b c h.1 e)
  snoc-IsSmooth (x ∷ y ∷ z ∷ xs) a b c h e = (h.0, snoc-IsSmooth (y ∷ z ∷ xs) a b c h.1 e)

  walk-IsSmooth :
      (xs : List P) (prev p : P) (rest : List P)
      → IsSmooth (xs ++ prev ∷ p ∷ [])
      → All IsSmooth (walk doubles xs prev p rest)
  unfolding walk
  walk-IsSmooth xs prev p [] h = (h, tt)
  walk-IsSmooth xs prev p (q ∷ rest) h = elim (Bool-cases (doubles prev p q)) [
    | inl cusp ↦ rw cusp (h, walk-IsSmooth [] p q rest tt)
    | inr onward ↦ rw onward (
        walk-IsSmooth (xs ++ prev ∷ []) p q rest
          (rw (append_assoc xs (prev ∷ []) (p ∷ q ∷ [])) (snoc-IsSmooth xs prev p q h onward)))
  ]

  runs_of-IsSmooth : (pts : List P) → All IsSmooth (runs_of doubles pts)
  unfolding runs_of
  runs_of-IsSmooth [] = tt
  runs_of-IsSmooth (a ∷ []) = (tt, tt)
  runs_of-IsSmooth (a ∷ b ∷ rest) = walk-IsSmooth [] a b rest tt

  select-All :
      (runs : List (List P))
      → All IsSmooth runs
      → All (λ run. (3 ≤ length run) × IsSmooth run) (select (λ run. leb 3 (length run)) runs)
  select-All [] h = tt
  select-All (run ∷ runs) h = elim (Bool-cases (leb 3 (length run))) [
    | inl long ↦ rw long ((leb→le 3 (length run) long, h.0), select-All runs h.1)
    | inr short ↦ rw short (select-All runs h.1)
  ]

  -- Every run that is measured has three points or more, and no cusp inside.
  pub split_at_cusps-IsSmooth :
      (pts : List P) → All (λ run. (3 ≤ length run) × IsSmooth run) (split_at_cusps doubles pts)
  unfolding split_at_cusps
  split_at_cusps-IsSmooth pts = select-All (runs_of doubles pts) (runs_of-IsSmooth pts)

  -- The runs in a row, each but the first without the point where it begins.
  abbrev pub glue : List (List P) → List P
  glue [] = []
  glue (run ∷ runs) = run ++ drop 1 (glue runs)

  glue-walk :
      (xs : List P) (prev p : P) (rest : List P)
      → glue (walk doubles xs prev p rest) ≡ xs ++ prev ∷ p ∷ rest
  unfolding walk
  glue-walk xs prev p [] = append-nil (xs ++ prev ∷ p ∷ [])
  glue-walk xs prev p (q ∷ rest) = elim (Bool-cases (doubles prev p q)) [
    | inl cusp ↦ rw (cusp, glue-walk [] p q rest) (append_assoc xs (prev ∷ p ∷ []) (q ∷ rest))
    | inr onward ↦
        rw onward
          (glue-walk (xs ++ prev ∷ []) p q rest ∙ append_assoc xs (prev ∷ []) (p ∷ q ∷ rest))
  ]

  -- Nothing of a plan of two points or more is lost before the short runs are dropped: the runs share
  -- their ends, and are together the plan.
  pub glue-runs_of :
      (a b : P) (rest : List P) → glue (runs_of doubles (a ∷ b ∷ rest)) ≡ a ∷ b ∷ rest
  unfolding runs_of
  glue-runs_of a b rest = glue-walk [] a b rest
