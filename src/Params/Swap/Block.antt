-- ===== src/Params/Swap/Block.antt =====
-- What mk_rpp.py makes of a parameter file.
use ros2_ws_gp.Common.{
  ℕ, suc, ◌+◌, ◌<◌, ◌≡◌, refl, ap, ◌⊎◌, inl, inr, true, false, not, none, some, List, [], ◌∷◌, ◌++◌,
  length, take, drop, get_elem?, All, arith, drop-append, append_assoc, ◌∙◌, sym, length-append,
  any, ◌==◌,
}
use ros2_ws_gp.Common.Text.{Text, is_space, lstrip_by}
use ros2_ws_gp.Params.Swap.{
  is_header, indent_of, find_start, ends_block, find_end, rpp, Swapped, swap_at, swap_block,
}
use ros2_ws_gp.Params.Swap.Parts.{Headless, Closed, Layout, lines_of, layout-cases}

find_start-append :
    (i : ℕ) (before : List Text) (header : Text) (rest : List Text)
    → Headless before
    → is_header header ≡ true
    → find_start i (before ++ header ∷ rest) ≡ some (i + length before)
unfolding find_start
find_start-append i [] header rest h opens = ground arith
find_start-append i (l ∷ before) header rest h opens =
    ground (arith, find_start-append (suc i) before header rest h.1 opens)

find_end-append :
    (indent end : ℕ) (body after : List Text)
    → All (λ l. ends_block indent l ≡ false) body
    → Closed indent after
    → find_end indent end (body ++ after) ≡ end + length body
unfolding find_end
find_end-append indent end [] [] h closed = omega arith
find_end-append indent end [] (l ∷ after) h closed = ground arith
find_end-append indent end (l ∷ body) after h closed =
    ground (arith, find_end-append indent (suc end) body after h.1 closed)

get_elem?-append :
    {A : Type 0} (xs ys : List A) (y : A) → get_elem? (xs ++ y ∷ ys) (length xs) ≡ some y
get_elem?-append [] ys y = refl
get_elem?-append (x ∷ xs) ys y = get_elem?-append xs ys y

take-suc-append :
    {A : Type 0} (xs ys : List A) (y : A) → take (suc (length xs)) (xs ++ y ∷ ys) ≡ xs ++ y ∷ []
take-suc-append [] ys y = refl
take-suc-append (x ∷ xs) ys y = ap (◌∷◌ x) (take-suc-append xs ys y)

drop-suc-append : {A : Type 0} (xs ys : List A) (y : A) → drop (suc (length xs)) (xs ++ y ∷ ys) ≡ ys
drop-suc-append [] ys y = refl
drop-suc-append (x ∷ xs) ys y = drop-suc-append xs ys y

drop-body_append :
    {A : Type 0} (xs body ys : List A) (y : A)
    → drop (suc (length xs) + length body) ((xs ++ y ∷ body) ++ ys) ≡ ys
drop-body_append xs body ys y =
    drop-append (suc (length xs) + length body) (xs ++ y ∷ body) ys
      (omega (arith, length-append xs (y ∷ body)))

abbrev pub swapped : Layout → Swapped
swapped f = record {
  start = length f.before;
  end = suc (length f.before) + length f.body;
  out = f.before ++ f.header ∷ (rpp ++ f.after);
}

splice-append :
    (before body after : List Text) (header : Text)
    → take (suc (length before)) (before ++ header ∷ (body ++ after))
        ++ rpp
        ++ drop (suc (length before) + length body) (before ++ header ∷ (body ++ after))
      ≡ before ++ header ∷ (rpp ++ after)
splice-append before body after header =
    rw
      (
        take-suc-append before (body ++ after) header,
        sym (append_assoc before (header ∷ body) after),
        drop-body_append before body after header,
        append_assoc (before ++ header ∷ []) rpp after,
        append_assoc before (header ∷ []) (rpp ++ after),
      )
      refl

find_end-lines_of :
    (f : Layout)
    → find_end
        (indent_of f.header)
        (suc (length f.before))
        (drop (suc (length f.before)) (lines_of f))
      ≡ suc (length f.before) + length f.body
find_end-lines_of f =
    ap (find_end (indent_of f.header) (suc (length f.before)))
      (drop-suc-append f.before (f.body ++ f.after) f.header)
    ∙ find_end-append (indent_of f.header) (suc (length f.before)) f.body f.after f.inside f.closed

abbrev splice : Layout → ℕ → Swapped
splice f end = record {
  start = length f.before;
  end = end;
  out = take (suc (length f.before)) (lines_of f) ++ rpp ++ drop end (lines_of f);
}

swap_at-layout : (f : Layout) → swap_at (lines_of f) (length f.before) f.header ≡ swapped f
unfolding swap_at
swap_at-layout f =
    ap (splice f) (find_end-lines_of f)
    ∙ ap (λ out. record (swapped f) { out = out }) (splice-append f.before f.body f.after f.header)

find_start-lines_of : (f : Layout) → find_start 0 (lines_of f) ≡ some (length f.before)
find_start-lines_of f =
    find_start-append 0 f.before f.header (f.body ++ f.after) f.headless f.opens
    ∙ ap some (omega arith)

pub swap_block-layout : (f : Layout) → swap_block (lines_of f) ≡ some (swapped f)
unfolding swap_block
swap_block-layout f =
    rw
      (
        swap_block,
        find_start-lines_of f,
        get_elem?-append f.before (f.body ++ f.after) f.header,
        swap_at-layout f,
      )
      refl

find_start-Headless : (i : ℕ) (lines : List Text) → Headless lines → find_start i lines ≡ none
unfolding find_start
find_start-Headless i [] h = refl
find_start-Headless i (l ∷ lines) h = ground (arith, find_start-Headless (suc i) lines h.1)

-- A file without a line that strips to `FollowPath:` is refused. Any other file consists of the lines
-- before the first such line, that line, a body of blank or deeper lines, and the lines from the first
-- other one on; what is written has the controller in place of the body and every other line as it was.
pub swap_block-cases :
    (lines : List Text)
    → (Headless lines × (swap_block lines ≡ none))
      ⊎ ((f : Layout) × (lines ≡ lines_of f) × (swap_block lines ≡ some (swapped f)))
unfolding swap_block
swap_block-cases lines = elim (layout-cases lines) [
  | inl h ↦ inl (h, rw (find_start-Headless 0 lines h) refl)
  | inr (f, e) ↦ inr (f, e, ap swap_block e ∙ swap_block-layout f)
]

deep_enough :
    (indent : ℕ) (lines : List Text)
    → indent < 6
    → any (λ l. not (indent_of l == 6)) lines ≡ false
    → All (λ l. ends_block indent l ≡ false) lines
unfolding ends_block
deep_enough indent [] h e = tt
deep_enough indent (l ∷ lines) h e = (ground arith, deep_enough indent lines h (ground arith))

rpp-indent : any (λ l. not (indent_of l == 6)) rpp ≡ false
unfolding rpp indent_of lstrip_by is_space
rpp-indent = refl

-- The file that is written, its header indented by five columns at most, is its own result: the block
-- found in it is the controller's, and the lines around it are the same.
pub swap_block-again :
    (f : Layout)
    → indent_of f.header < 6
    → swap_block (swapped f).out
      ≡ some (record (swapped f) { end = suc (length f.before) + length rpp })
swap_block-again f h =
    swap_block-layout
      (record f { body = rpp; inside = deep_enough (indent_of f.header) rpp h rpp-indent })
