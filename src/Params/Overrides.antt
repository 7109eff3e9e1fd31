-- ===== src/Params/Overrides.antt =====
-- mkparams.py: a parameter file is copied with scoped overrides. A line has its line end in it, and no
-- other one.
pub mod Enclosing
pub mod Missing
pub mod Scoped
use ros2_ws_gp.Common.{
  ℕ, Bool, true, false, not, ◌&&◌, ◌||◌, Option, none, some, List, [], ◌∷◌, ◌++◌, map, reverse, leb,
  ltb, ◌==◌, if◌then◌else◌, is_empty, length, select, any,
}
use ros2_ws_gp.Common.Dict.{Dict, insert}
use ros2_ws_gp.Common.Text.{
  Text, codes, is_space, strip, text_beq, text_eq, split_on, split_once, span_by,
}

-- The groups of a line that the expression matches: `(\s*)`, the key, and the value.
pub record Keyed : Type 0 where
  pub lead : Text
  pub key : Text
  pub val : Text

-- `[A-Za-z_]`
unfoldable pub is_key_start : ℕ → Bool
is_key_start c = (leb b'A' c && leb c b'Z') || (leb b'a' c && leb c b'z') || c == b'_'

-- `[A-Za-z0-9_]`
unfoldable pub is_key_char : ℕ → Bool
is_key_char c = is_key_start c || (leb b'0' c && leb c b'9')

-- `:\s*(.*?)\s*$`
unfoldable pub match_val : Text → Text → Text → Option Keyed
match_val lead key [] = none
match_val lead key (c ∷ t) =
    if c == b':' then some (record { lead = lead; key = key; val = strip t }) else none

-- `([A-Za-z_][A-Za-z0-9_]*)`, as long as it can be: no key character is a colon.
unfoldable pub match_key : Text → Text → Option Keyed
match_key lead [] = none
match_key lead (c ∷ t) =
    let (key, rest) = span_by is_key_char (c ∷ t) in
    if is_key_start c then match_val lead key rest else none

-- `re.match`
unfoldable pub match_line : Text → Option Keyed
match_line line = let (lead, rest) = span_by is_space line in match_key lead rest

-- The enclosing blocks, the innermost first.
abbrev pub Stack : Type 0
Stack = List (ℕ × Text)

pub record Run : Type 0 where
  pub out : List Text
  pub hit : List Text
  pub stack : Stack

-- The loop that pops.
unfoldable pub pop_deeper : ℕ → Stack → Stack
pop_deeper indent [] = []
pop_deeper indent ((i, key) ∷ stack) =
    let rest = pop_deeper indent stack in if leb indent i then rest else (i, key) ∷ stack

unfoldable pub parent_is : Text → Stack → Bool
parent_is want [] = false
parent_is want ((i, key) ∷ stack) = text_beq key want

-- `want`, its last word first. A text that is split has a word.
unfoldable pub fits_words : Stack → Text → List Text → Bool
fits_words stack key [] = false
fits_words stack key (last ∷ []) = text_beq last key
fits_words stack key (last ∷ parent ∷ words) = text_beq last key && parent_is parent stack

unfoldable pub fits : Stack → Text → Text → Bool
fits stack key spec = fits_words stack key (reverse (split_on b'.' spec))

-- The loop over the overrides: the value of the first that fits.
unfoldable pub first_fit : Stack → Text → Dict Text Text → Option Text
first_fit stack key [] = none
first_fit stack key ((spec, newval) ∷ overrides) =
    let rest = first_fit stack key overrides in if fits stack key spec then some newval else rest

-- `'.'.join(parents[-1:] + [key])`
unfoldable pub hit_name : Stack → Text → Text
hit_name [] key = key
hit_name ((i, parent) ∷ stack) key = parent ++ b'.' ∷ key

unfoldable pub push_open : Keyed → Stack → Stack
push_open k stack = if is_empty k.val then (length k.lead, k.key) ∷ stack else stack

unfoldable pub write_override : Keyed → Text → Text
write_override k newval = k.lead ++ (k.key ++ (codes ": " ++ (newval ++ 10 ∷ [])))

unfoldable pub on_fit : Text → Keyed → Stack → Option Text → Run → Run
on_fit line k stack (some newval) run = record {
  out = run.out ++ write_override k newval ∷ [];
  hit = run.hit ++ hit_name stack k.key ∷ [];
  stack = push_open k stack;
}
on_fit line k stack none run = record {
  out = run.out ++ line ∷ [];
  hit = run.hit;
  stack = push_open k stack;
}

unfoldable pub on_match : Dict Text Text → Text → Option Keyed → Run → Run
on_match overrides line none run = record run { out = run.out ++ line ∷ [] }
on_match overrides line (some k) run =
    let stack = pop_deeper (length k.lead) run.stack in
    on_fit line k stack (first_fit stack k.key overrides) run

unfoldable pub take_line : Dict Text Text → Text → Run → Run
take_line overrides line run = on_match overrides line (match_line line) run

unfoldable pub take_lines : Dict Text Text → List Text → Run → Run
take_lines overrides [] run = run
take_lines overrides (line ∷ lines) run = take_lines overrides lines (take_line overrides line run)

-- `s.split('.')[-1]`
abbrev head_or_nil : List Text → Text
head_or_nil [] = []
head_or_nil (w ∷ ws) = w

unfoldable pub last_word : Text → Text
last_word t = head_or_nil (reverse (split_on b'.' t))

unfoldable pub missing : Dict Text Text → List Text → List Text
missing overrides hit =
    select (λ spec. not (any (λ h. text_beq (last_word h) (last_word spec)) hit))
      (map (λ entry. entry.0) overrides)

-- `dict(a.split('=', 1) for a in ...)`; `none` is the ValueError of an argument without a sign.
unfoldable pub parse_overrides : Dict Text Text → List Text → Option (Dict Text Text)
parse_overrides found [] = some found
parse_overrides found (arg ∷ args) = elim (split_once b'=' arg) [
  | none ↦ none
  | some pair ↦ parse_overrides (insert pair.0 pair.1 found) args
]

pub record Report : Type 0 where
  pub written : List Text
  pub applied : List Text
  pub not_found : List Text

unfoldable pub make_params : List Text → List Text → Option Report
make_params args lines = with_overrides (parse_overrides [] args)
  where
    with_overrides : Option (Dict Text Text) → Option Report
    with_overrides none = none
    with_overrides (some overrides) =
        let run = take_lines overrides lines (record { out = []; hit = []; stack = [] }) in
        some
          (record { written = run.out; applied = run.hit; not_found = missing overrides run.hit })
