-- ===== src/Urdf/Document.antt =====
-- The document that is left when the comments are gone.
use ros2_ws_gp.Common.{
  ◌≡◌, refl, ap, ◌∙◌, sym, inl, inr, Bool-cases, Bool, true, false, List, [], ◌∷◌, ◌++◌, select,
}
use ros2_ws_gp.Common.Text.{Text}
use ros2_ws_gp.Urdf.{Node, comment, node, Nodes, nil, cons, strip_comments, strip_children}

-- The document as it is read from its start to its end.
pub data Mark : Type 0 where
  opened : Text → Mark
  closed : Mark
  remark : Text → Mark

unfoldable mutual
  pub marks : Node → List Mark
  marks (comment t) = remark t ∷ []
  marks (node label children) = opened label ∷ (marks_of children ++ closed ∷ [])

  pub marks_of : Nodes → List Mark
  marks_of nil = []
  marks_of (cons n children) = marks n ++ marks_of children

abbrev pub is_markup : Mark → Bool
is_markup (remark t) = false
is_markup _ = true

pub select-append {ℓ} :
    {A : Type ℓ} (test : A → Bool) (xs ys : List A)
    → select test (xs ++ ys) ≡ select test xs ++ select test ys
select-append test [] ys = refl
select-append test (x ∷ xs) ys = elim (Bool-cases (test x)) [
  | inl passes ↦ rw passes (ap (◌∷◌ x) (select-append test xs ys))
  | inr fails ↦ rw fails (select-append test xs ys)
]

around-append :
    (label : Text) (ms : List Mark)
    → opened label ∷ (select is_markup ms ++ closed ∷ [])
      ≡ select is_markup (opened label ∷ (ms ++ closed ∷ []))
around-append label ms = ap (◌∷◌ (opened label)) (sym (select-append is_markup ms (closed ∷ [])))

marks-children :
    (children : Nodes) → marks_of (strip_children children) ≡ select is_markup (marks_of children)
unfolding marks strip_comments
marks-children nil = refl
marks-children (cons (comment t) children) = marks-children children
marks-children (cons (node label inner) children) =
    let inside = marks_of inner ++ closed ∷ [] in
    rw (marks-children inner, marks-children children)
      (ap (◌∷◌ (opened label)) (
        ap (λ ms. ms ++ select is_markup (marks_of children))
          (sym (select-append is_markup (marks_of inner) (closed ∷ [])))
        ∙ sym (select-append is_markup inside (marks_of children))))

-- Read from its start to its end, the document without comments is the document less its comments, at
-- whatever depth they stand: nothing else goes, and nothing moves.
pub strip_comments-marks :
    (label : Text) (children : Nodes)
    → marks (strip_comments (node label children)) ≡ select is_markup (marks (node label children))
unfolding marks strip_comments
strip_comments-marks label children =
    ap (λ m. opened label ∷ (m ++ closed ∷ [])) (marks-children children)
    ∙ around-append label (marks_of children)
