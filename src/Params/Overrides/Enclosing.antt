-- ===== src/Params/Overrides/Enclosing.antt =====
-- The stack of mkparams.py against the indentation of the lines before, and the lines that it writes.
use mathlib.Core.Option
use ros2_ws_gp.Common.{
  ℕ, ◌≤◌, ◌≡◌, refl, sym, ap, ◌∙◌, inl, inr, Option, none, some, List, [], ◌∷◌, ◌++◌, ltb,
  if◌then◌else◌, is_empty, length, arith, Option-cases, append_assoc, append-nil,
}
use ros2_ws_gp.Common.Dict.{Dict}
use ros2_ws_gp.Common.Text.{Text}
use ros2_ws_gp.Params.Overrides.{
  Keyed, match_line, Stack, Run, pop_deeper, first_fit, hit_name, push_open, write_override, on_fit,
  on_match, take_line, take_lines, Report, make_params, parse_overrides, missing,
}

-- The blocks that enclose a line of this indentation, found in the keyed lines before it, the latest
-- first: a line without a value that is indented less than every keyed line since.
unfoldable pub enclosing : ℕ → List Keyed → Stack
enclosing bound [] = []
enclosing bound (k ∷ before) =
    let further = enclosing bound before in
    let nearer = enclosing (length k.lead) before in
    if ltb (length k.lead) bound
    then if is_empty k.val then (length k.lead, k.key) ∷ nearer else nearer
    else further

abbrev pub note : Option Keyed → List Keyed → List Keyed
note none before = before
note (some k) before = k ∷ before

-- The keyed lines, the latest first.
unfoldable pub keyed_of : List Text → List Keyed → List Keyed
keyed_of [] before = before
keyed_of (line ∷ lines) before = keyed_of lines (note (match_line line) before)

pop_deeper-pop :
    (a b : ℕ) (stack : Stack) → a ≤ b → pop_deeper a (pop_deeper b stack) ≡ pop_deeper a stack
unfolding pop_deeper
pop_deeper-pop a b [] h = refl
pop_deeper-pop a b ((i, key) ∷ stack) h = ground (arith, pop_deeper-pop a b stack h)

pop_deeper-kept :
    (a b : ℕ) (stack : Stack) → b ≤ a → pop_deeper a (pop_deeper b stack) ≡ pop_deeper b stack
unfolding pop_deeper
pop_deeper-kept a b [] h = refl
pop_deeper-kept a b ((i, key) ∷ stack) h = ground (arith, pop_deeper-kept a b stack h)

-- A stack that gives the enclosing blocks for every indentation.
abbrev Encloses : Stack → List Keyed → Type 0
Encloses stack before = (b : ℕ) → pop_deeper b stack ≡ enclosing b before

push_open-Encloses :
    (k : Keyed) (stack : Stack) (before : List Keyed)
    → Encloses stack before
    → Encloses (push_open k (pop_deeper (length k.lead) stack)) (k ∷ before)
unfolding push_open enclosing pop_deeper
push_open-Encloses k stack before h b = ground (
  arith,
  h b,
  h (length k.lead),
  pop_deeper-pop b (length k.lead) stack,
  pop_deeper-kept b (length k.lead) stack,
)

-- What is written for a line after the keyed lines `before`, and what is recorded for it.
abbrev rewritten : Text → Keyed → Option Text → Text
rewritten line k none = line
rewritten line k (some newval) = write_override k newval

abbrev pub recorded : Text → Option Text → List Text
recorded name none = []
recorded name (some newval) = name ∷ []

unfoldable pub expected_line : Dict Text Text → List Keyed → Text → Option Keyed → Text
expected_line overrides before line none = line
expected_line overrides before line (some k) =
    rewritten line k (first_fit (enclosing (length k.lead) before) k.key overrides)

unfoldable pub expected_hit : Dict Text Text → List Keyed → Option Keyed → List Text
expected_hit overrides before none = []
expected_hit overrides before (some k) =
    let around = enclosing (length k.lead) before in
    recorded (hit_name around k.key) (first_fit around k.key overrides)

unfoldable pub expected : Dict Text Text → List Keyed → List Text → List Text
expected overrides before [] = []
expected overrides before (line ∷ lines) =
    expected_line overrides before line (match_line line)
    ∷ expected overrides (note (match_line line) before) lines

unfoldable pub expected_hits : Dict Text Text → List Keyed → List Text → List Text
expected_hits overrides before [] = []
expected_hits overrides before (line ∷ lines) =
    expected_hit overrides before (match_line line)
    ++ expected_hits overrides (note (match_line line) before) lines

abbrev pub IsAfter : Dict Text Text → List Keyed → Text → Option Keyed → Run → Run → Type 0
IsAfter overrides before line m run run' =
    (run'.out ≡ run.out ++ expected_line overrides before line m ∷ [])
    × (run'.hit ≡ run.hit ++ expected_hit overrides before m)
    × Encloses run'.stack (note m before)

on_fit_appends :
    (line : Text) (k : Keyed) (stack : Stack) (found : Option Text) (run : Run)
    → ((on_fit line k stack found run).out ≡ run.out ++ rewritten line k found ∷ [])
      × ((on_fit line k stack found run).hit ≡ run.hit ++ recorded (hit_name stack k.key) found)
      × ((on_fit line k stack found run).stack ≡ push_open k stack)
unfolding on_fit
on_fit_appends line k stack none run = (refl, sym (append-nil run.hit), refl)
on_fit_appends line k stack (some newval) run = (refl, refl, refl)

on_match-IsAfter :
    (overrides : Dict Text Text) (before : List Keyed) (line : Text) (m : Option Keyed) (run : Run)
    → Encloses run.stack before
    → IsAfter overrides before line m run (on_match overrides line m run)
unfolding on_match expected_line expected_hit
on_match-IsAfter overrides before line none run h = (refl, sym (append-nil run.hit), h)
on_match-IsAfter overrides before line (some k) run h =
    let stack = pop_deeper (length k.lead) run.stack in
    let (out, hit, pushed) = on_fit_appends line k stack (first_fit stack k.key overrides) run in
    (
      out
          ∙ ap (λ s. run.out ++ rewritten line k (first_fit s k.key overrides) ∷ [])
              (h (length k.lead)),
      hit
          ∙ ap (λ s. run.hit ++ recorded (hit_name s k.key) (first_fit s k.key overrides))
              (h (length k.lead)),
      λ b. ap (pop_deeper b) pushed ∙ push_open-Encloses k run.stack before h b,
    )

take_lines_appends :
    (overrides : Dict Text Text) (before : List Keyed) (lines : List Text) (run : Run)
    → Encloses run.stack before
    → ((take_lines overrides lines run).out ≡ run.out ++ expected overrides before lines)
      × ((take_lines overrides lines run).hit ≡ run.hit ++ expected_hits overrides before lines)
      × Encloses (take_lines overrides lines run).stack (keyed_of lines before)
unfolding take_lines take_line expected expected_hits keyed_of
take_lines_appends overrides before [] run h =
    (sym (append-nil run.out), sym (append-nil run.hit), h)
take_lines_appends overrides before (line ∷ lines) run h =
    let run' = on_match overrides line (match_line line) run in
    let (out, hit, stack) = on_match-IsAfter overrides before line (match_line line) run h in
    let (outs, hits, stacks) =
      take_lines_appends overrides (note (match_line line) before) lines run' stack in
    (
      outs
          ∙ ap (λ o. o ++ expected overrides (note (match_line line) before) lines) out
          ∙ append_assoc run.out _ _,
      hits
          ∙ ap (λ o. o ++ expected_hits overrides (note (match_line line) before) lines) hit
          ∙ append_assoc run.hit _ _,
      stacks,
    )

abbrev pub report_of : List Text → Dict Text Text → Report
report_of lines overrides =
    let hit = expected_hits overrides [] lines in
    record {
      written = expected overrides [] lines;
      applied = hit;
      not_found = missing overrides hit;
    }

abbrev start : Run
start = record { out = []; hit = []; stack = [] }

run-report :
    (overrides : Dict Text Text) (lines : List Text)
    → record {
      written = (take_lines overrides lines start).out;
      applied = (take_lines overrides lines start).hit;
      not_found = missing overrides (take_lines overrides lines start).hit;
    }
      ≡ report_of lines overrides
unfolding pop_deeper enclosing
run-report overrides lines =
    let (out, hit, stack) = take_lines_appends overrides [] lines start (λ b. refl) in
    ap
      (λ o. record {
        written = o;
        applied = (take_lines overrides lines start).hit;
        not_found = missing overrides (take_lines overrides lines start).hit;
      })
      out
    ∙ ap
        (λ hs. record {
          written = expected overrides [] lines;
          applied = hs;
          not_found = missing overrides hs;
        })
        hit

-- The script fails exactly if an argument has no equals sign. Otherwise each line is judged by itself
-- and the keyed lines before it: it is rewritten by the first override that fits its key and the blocks
-- that enclose it by their indentation, and written as it was if none fits; the hits are the rewritten
-- lines in their order, each with the block directly around it.
pub make_params-expected :
    (args lines : List Text)
    → make_params args lines ≡ Option.map (report_of lines) (parse_overrides [] args)
unfolding make_params
make_params-expected args lines = elim (Option-cases (parse_overrides [] args)) [
  | inl refused ↦ rw refused refl
  | inr (overrides, parsed) ↦ rw parsed (ap some (run-report overrides lines))
]
