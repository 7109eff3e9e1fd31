-- ===== src/Params/Swap/Parts.antt =====
-- A parameter file with its FollowPath block, as mk_rpp.py sees it.
use ros2_ws_gp.Common.{
  ℕ, ◌≡◌, refl, ap, ◌⊎◌, inl, inr, true, false, List, [], ◌∷◌, ◌++◌, All, Bool-cases,
}
use ros2_ws_gp.Common.Text.{Text}
use ros2_ws_gp.Params.Swap.{is_header, indent_of, ends_block}

-- No line of `lines` opens the block.
abbrev pub Headless : List Text → Type 0
Headless = All (λ l. is_header l ≡ false)

-- The line after the block, if there is one.
abbrev pub Closed : ℕ → List Text → Type 0
Closed indent [] = Unit
Closed indent (l ∷ lines) = ends_block indent l ≡ true

-- A file with its first FollowPath block: the lines before it, its header, its body, the lines after.
pub record Layout : Type 0 where
  pub before : List Text
  pub header : Text
  pub body : List Text
  pub after : List Text
  pub headless : Headless before
  pub opens : is_header header ≡ true
  pub inside : All (λ l. ends_block (indent_of header) l ≡ false) body
  pub closed : Closed (indent_of header) after

abbrev pub lines_of : Layout → List Text
lines_of f = f.before ++ f.header ∷ (f.body ++ f.after)

-- The lines up to the first one that ends the block.
cut_body :
    (indent : ℕ) (lines : List Text)
    → (body : List Text) × (after : List Text) × (lines ≡ body ++ after)
      × All (λ l. ends_block indent l ≡ false) body
      × Closed indent after
cut_body indent [] = ([], [], refl, tt, tt)
cut_body indent (l ∷ lines) = elim (Bool-cases (ends_block indent l)) [
  | inl ends ↦ ([], l ∷ lines, refl, tt, ends)
  | inr stays ↦
      (let (body, after, e, inside, closed) = cut_body indent lines in
        (l ∷ body, after, ap (◌∷◌ l) e, (stays, inside), closed))
]

pub layout-cases : (lines : List Text) → Headless lines ⊎ ((f : Layout) × (lines ≡ lines_of f))
layout-cases [] = inl tt
layout-cases (l ∷ lines) = elim (Bool-cases (is_header l)) [
  | inl opens ↦
      (let (body, after, e, inside, closed) = cut_body (indent_of l) lines in
        inr (
          record {
            before = [];
            header = l;
            body = body;
            after = after;
            headless = tt;
            opens = opens;
            inside = inside;
            closed = closed;
          },
          ap (◌∷◌ l) e,
        ))
  | inr stays ↦ elim (layout-cases lines) [
    | inl h ↦ inl (stays, h)
    | inr (f, e) ↦
        inr (record f { before = l ∷ f.before; headless = (stays, f.headless) }, ap (◌∷◌ l) e)
  ]
]
