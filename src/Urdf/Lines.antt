-- ===== src/Urdf/Lines.antt =====
-- The lines that urdf_for_gazebo.py prints, or refuses.
use ros2_ws_gp.Common.{
  ℕ, suc, ◌+◌, ◌≡◌, refl, ap, ◌∙◌, sym, ◌⊎◌, inl, inr, Bool, true, false, not, ◌&&◌, Option, some,
  List, [], ◌∷◌, ◌++◌, ◌==◌, is_empty, drop, select, All, length, arith, Bool-cases,
}
use mathlib.Core.Path.{subst}
use ros2_ws_gp.Common.Dict.{Dict}
use ros2_ws_gp.Common.Text.{Text, strip, lstrip_by, rstrip_by}
use ros2_ws_gp.Urdf.{
  Node, strip_comments, is_break, starts_with, add_to_first, split_lines, join_lines, kept_lines,
  breaks, Exit, refused, printed, look_for_break, mappings, print_document, main,
}

abbrev pub Unbroken : Text → Type 0
Unbroken = All (λ c. is_break c ≡ false)

drop-Unbroken : (lines : List Text) → All Unbroken lines → All Unbroken (drop 1 lines)
drop-Unbroken [] h = tt
drop-Unbroken (l ∷ lines) h = h.1

add_to_first-Unbroken :
    (c : ℕ) (lines : List Text)
    → is_break c ≡ false
    → All Unbroken lines
    → All Unbroken (add_to_first c lines)
unfolding add_to_first
add_to_first-Unbroken c [] e h = ((e, tt), tt)
add_to_first-Unbroken c (l ∷ lines) e h = ((e, h.0), h.1)

split_lines-Unbroken : (t : Text) → All Unbroken (split_lines t)
unfolding split_lines
split_lines-Unbroken [] = tt
split_lines-Unbroken (c ∷ t) =
    let rest = split_lines-Unbroken t in
    elim (Bool-cases (is_break c)) [
      | inl ends ↦ elim (Bool-cases (c == 13 && starts_with 10 t)) [
        | inl both ↦ rw (ends, both) (tt, drop-Unbroken (split_lines t) rest)
        | inr one ↦ rw (ends, one) (tt, rest)
      ]
      | inr stays ↦ rw stays (add_to_first-Unbroken c (split_lines t) stays rest)
    ]

line_feed : is_break 10 ≡ true
unfolding is_break
line_feed = refl

split_lines-append : (l t : Text) → Unbroken l → split_lines (l ++ 10 ∷ t) ≡ l ∷ split_lines t
unfolding split_lines add_to_first
split_lines-append [] t h = rw line_feed refl
split_lines-append (c ∷ l) t h = rw (h.0, split_lines-append l t h.1) refl

split_lines-whole : (c : ℕ) (l : Text) → Unbroken (c ∷ l) → split_lines (c ∷ l) ≡ (c ∷ l) ∷ []
unfolding split_lines add_to_first
split_lines-whole c [] h = rw h.0 refl
split_lines-whole c (d ∷ l) h = rw (h.0, split_lines-whole d l h.1) refl

abbrev pub IsKept : Text → Type 0
IsKept line = not (is_empty (strip line)) ≡ true

-- Lines that are not blank and have no line end inside are found again in the text that they are joined to.
pub split_lines-join :
    (lines : List Text)
    → All Unbroken lines
    → All IsKept lines
    → split_lines (join_lines lines) ≡ lines
unfolding join_lines split_lines strip lstrip_by rstrip_by
split_lines-join [] h k = refl
split_lines-join ([] ∷ []) h k = cc
split_lines-join ((c ∷ l) ∷ []) h k = split_lines-whole c l h.0
split_lines-join (l ∷ m ∷ lines) h k =
    split_lines-append l (join_lines (m ∷ lines)) h.0
    ∙ ap (◌∷◌ l) (split_lines-join (m ∷ lines) h.1 k.1)

All-select {ℓ κ} :
    {A : Type ℓ} (P : A → Type κ) (test : A → Bool) (xs : List A)
    → All P xs
    → All P (select test xs)
All-select P test [] h = tt
All-select P test (x ∷ xs) h = elim (Bool-cases (test x)) [
  | inl passes ↦ rw passes (h.0, All-select P test xs h.1)
  | inr fails ↦ rw fails (All-select P test xs h.1)
]

select-All {ℓ} :
    {A : Type ℓ} (test : A → Bool) (xs : List A) → All (λ x. test x ≡ true) (select test xs)
select-All test [] = tt
select-All test (x ∷ xs) = elim (Bool-cases (test x)) [
  | inl passes ↦ rw passes (passes, select-All test xs)
  | inr fails ↦ rw fails (select-All test xs)
]

kept_lines-join : (urdf : Text) → split_lines (join_lines (kept_lines urdf)) ≡ kept_lines urdf
unfolding kept_lines
kept_lines-join urdf =
    split_lines-join (kept_lines urdf)
      (All-select Unbroken (λ line. not (is_empty (strip line))) (split_lines urdf)
        (split_lines-Unbroken urdf))
      (select-All (λ line. not (is_empty (strip line))) (split_lines urdf))

-- No line of the text would break the parser.
abbrev pub Harmless : List Text → Type 0
Harmless = All (λ line. breaks (strip line) ≡ false)

-- Nothing in the lines is refused and the text is printed, or the first line that breaks is refused,
-- numbered from `i`.
abbrev pub Judged : ℕ → List Text → Text → Exit → Type 0
Judged i lines urdf exit =
    (Harmless lines × (exit ≡ printed urdf))
    ⊎ ((before : List Text) × (line : Text) × (after : List Text) × (lines ≡ before ++ line ∷ after)
        × Harmless before
        × (breaks (strip line) ≡ true)
        × (exit ≡ refused (i + length before) (strip line)))

look_for_break-Judged :
    (i : ℕ) (lines : List Text) (urdf : Text) → Judged i lines urdf (look_for_break i lines urdf)
unfolding look_for_break
look_for_break-Judged i [] urdf = inl (tt, refl)
look_for_break-Judged i (l ∷ lines) urdf = elim (Bool-cases (breaks (strip l))) [
  | inl ends ↦
      inr ([], l, lines, refl, tt, ends, rw ends (ap (λ n. refused n (strip l)) (omega arith)))
  | inr stays ↦ elim (look_for_break-Judged (suc i) lines urdf) [
    | inl (h, e) ↦ inl ((stays, h), rw stays e)
    | inr (before, line, after, cut, h, ends, e) ↦ inr (
      l ∷ before,
      line,
      after,
      ap (◌∷◌ l) cut,
      (stays, h),
      ends,
      rw stays (e ∙ ap (λ n. refused n (strip line)) (omega arith)),
    )
  ]
]

module _ (process_file : Text → Dict Text Text → Option Node) (toprettyxml : Node → Text) where
  -- On a document, the lines that are printed are the lines of the document without comments that are
  -- not blank, and none of them breaks the parser; or the first of them that does is refused, with its
  -- number among the printed lines.
  pub main-Judged :
      (path : Text) (args : List Text) (doc : Node)
      → process_file path (mappings [] args) ≡ some doc
      → (let lines = kept_lines (toprettyxml (strip_comments doc)) in
          (split_lines (join_lines lines) ≡ lines)
          × Judged 1 lines (join_lines lines) (main process_file toprettyxml (path ∷ args)))
  unfolding main print_document
  main-Judged path args doc e =
      let lines = kept_lines (toprettyxml (strip_comments doc)) in
      let urdf = join_lines lines in
      let again = kept_lines-join (toprettyxml (strip_comments doc)) in
      rw e (
        again,
        subst (λ ls. Judged 1 lines urdf (look_for_break 1 ls urdf)) (sym again)
            (look_for_break-Judged 1 lines urdf),
      )
