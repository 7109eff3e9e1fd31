-- ===== src/Params/Overrides/Scoped.antt =====
-- An override of mkparams.py that names its parent block, and the report of those that were not found.
use mathlib.Core.Option
use ros2_ws_gp.Common.{
  ℕ, ◌≡◌, refl, ap, ◌∙◌, ◌&&◌, Option, none, some, List, [], ◌∷◌, ◌++◌, reverse, if◌then◌else◌,
  ==_true, length, arith,
}
use ros2_ws_gp.Common.Dict.{insert}
use ros2_ws_gp.Common.Text.{
  Text, text_beq, text_eq, Lacks, split_on-append, split_on-Lacks, split_once,
}
use ros2_ws_gp.Params.Overrides.{
  Keyed, match_line, Stack, parent_is, fits, fits_words, first_fit, write_override, parse_overrides,
  make_params,
}
use ros2_ws_gp.Params.Overrides.Enclosing.{
  enclosing, note, expected, expected_line, report_of, make_params-expected,
}

-- The line after the keyed lines `before`, under `parent.key=newval`.
unfoldable pub scoped_line : Text → Text → Text → List Keyed → Text → Option Keyed → Text
scoped_line parent key newval before line none = line
scoped_line parent key newval before line (some k) =
    if text_beq key k.key && parent_is parent (enclosing (length k.lead) before)
    then write_override k newval
    else line

unfoldable pub scoped_lines : Text → Text → Text → List Keyed → List Text → List Text
scoped_lines parent key newval before [] = []
scoped_lines parent key newval before (line ∷ lines) =
    scoped_line parent key newval before line (match_line line)
    ∷ scoped_lines parent key newval (note (match_line line) before) lines

fits-scoped :
    (parent key : Text) (stack : Stack) (k : Text)
    → Lacks b'.' parent
    → Lacks b'.' key
    → fits stack k (parent ++ b'.' ∷ key) ≡ (text_beq key k && parent_is parent stack)
unfolding fits fits_words
fits-scoped parent key stack k p_lacks k_lacks =
    ap (λ ws. fits_words stack k (reverse ws))
      (split_on-append b'.' parent key p_lacks ∙ ap (◌∷◌ parent) (split_on-Lacks b'.' key k_lacks))

expected_line-scoped :
    (parent key newval : Text) (before : List Keyed) (line : Text) (m : Option Keyed)
    → Lacks b'.' parent
    → Lacks b'.' key
    → expected_line ((parent ++ b'.' ∷ key, newval) ∷ []) before line m
      ≡ scoped_line parent key newval before line m
unfolding expected_line scoped_line first_fit
expected_line-scoped parent key newval before line none p_lacks k_lacks = refl
expected_line-scoped parent key newval before line (some k) p_lacks k_lacks =
    rw (fits-scoped parent key (enclosing (length k.lead) before) k.key p_lacks k_lacks)
      (ground arith)

expected-scoped :
    (parent key newval : Text) (before : List Keyed) (lines : List Text)
    → Lacks b'.' parent
    → Lacks b'.' key
    → expected ((parent ++ b'.' ∷ key, newval) ∷ []) before lines
      ≡ scoped_lines parent key newval before lines
unfolding expected scoped_lines
expected-scoped parent key newval before [] p_lacks k_lacks = refl
expected-scoped parent key newval before (line ∷ lines) p_lacks k_lacks =
    rw
      (
        expected_line-scoped parent key newval before line (match_line line) p_lacks k_lacks,
        expected-scoped parent key newval (note (match_line line) before) lines p_lacks k_lacks,
      )
      refl

split_once-append :
    (sep : ℕ) (s t : Text) → Lacks sep s → split_once sep (s ++ sep ∷ t) ≡ some (s, t)
unfolding split_once
split_once-append sep [] t h = rw (==_true sep) refl
split_once-append sep (c ∷ s) t h = rw (h.0, split_once-append sep s t h.1) refl

Lacks-append : (sep : ℕ) (s t : Text) → Lacks sep s → Lacks sep t → Lacks sep (s ++ t)
Lacks-append sep [] t h k = k
Lacks-append sep (c ∷ s) t h k = (h.0, Lacks-append sep s t h.1 k)

-- The one override `parent.key=newval`, in which neither name has a dot or an equals sign, rewrites
-- exactly the lines with that key whose innermost enclosing block is the parent, and keeps the other
-- lines as they were.
pub make_params-scoped :
    (parent key newval : Text) (lines : List Text)
    → Lacks b'.' parent
    → Lacks b'.' key
    → Lacks b'=' parent
    → Lacks b'=' key
    → Option.map
        (λ r. r.written)
        (make_params (((parent ++ b'.' ∷ key) ++ b'=' ∷ newval) ∷ []) lines)
      ≡ some (scoped_lines parent key newval [] lines)
unfolding parse_overrides
make_params-scoped parent key newval lines p_dots k_dots p_signs k_signs =
    let spec = parent ++ b'.' ∷ key in
    ap (Option.map (λ r. r.written)) (make_params-expected ((spec ++ b'=' ∷ newval) ∷ []) lines)
    ∙ ap
        (λ o.
          Option.map (λ r. r.written)
            (Option.map (report_of lines)
              (elim o [ none ↦ none | some pair ↦ some (insert pair.0 pair.1 []) ])))
        (split_once-append b'=' spec newval
          (Lacks-append b'=' parent (b'.' ∷ key) p_signs (refl, k_signs)))
    ∙ ap some (expected-scoped parent key newval [] lines p_dots k_dots)
