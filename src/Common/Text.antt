-- ===== src/Common/Text.antt =====
-- Texts as lists of code points, with what the sources use of Python's `str` and `int`:
-- `strip`, `rstrip`, `lower`, `endswith`, `split`, decimal printing and `int(text)`.
pub mod Decimal
use Prim.Native.Nat.{ℕ, zero, suc, ◌+◌, ◌-◌, ◌≤◌}
use Prim.Native.Char.{code}
use Prim.Native.String.{String}
use mathlib.Core.Path.{◌≡◌, refl}
use mathlib.Core.Logic.{◌↔◌}
use mathlib.Core.Bool.{Bool, true, false, ◌&&◌, ◌||◌}
use mathlib.Core.List.{List, [], ◌∷◌, ◌++◌}
use native.Mathlib.Omega.{arith}
use mathlib.Core.Option.{Option, none, some}
use mathlib.Core.Logic.{inl, inr}
use ros2_ws_gp.Common.Tests.{leb, ◌==◌, ==_iff, ==_true, if◌then◌else◌, Bool-cases}
use ros2_ws_gp.Common.Lists.{is_empty, All}
use ros2_ws_gp.Common.Dict.{Eq}

abbrev pub Text : Type 0
Text = List ℕ

abbrev pub codes : String → Text
codes String.[] = []
codes (String.◌∷◌ c s) = code c ∷ codes s

-- `c.isspace()`
unfoldable pub is_space : ℕ → Bool
is_space c =
    (leb 9 c && leb c 13)
    || (leb 28 c && leb c 32)
    || c == 0x85
    || c == 0xA0
    || c == 0x1680
    || (leb 0x2000 c && leb c 0x200A)
    || c == 0x2028
    || c == 0x2029
    || c == 0x202F
    || c == 0x205F
    || c == 0x3000

-- `t.lstrip(cs)` and `t.rstrip(cs)`, the characters given by a test.
unfoldable pub lstrip_by : (ℕ → Bool) → Text → Text
lstrip_by test [] = []
lstrip_by test (c ∷ t) = if test c then lstrip_by test t else c ∷ t

unfoldable pub rstrip_by : (ℕ → Bool) → Text → Text
rstrip_by test [] = []
rstrip_by test (c ∷ t) =
    let rest = rstrip_by test t in if test c && is_empty rest then [] else c ∷ rest

-- `t.strip()`
unfoldable pub strip : Text → Text
unfolding is_space lstrip_by rstrip_by
strip t = rstrip_by is_space (lstrip_by is_space t)

-- `t.lower()`, on ASCII letters; other letters are kept.
unfoldable pub lower : Text → Text
lower [] = []
lower (c ∷ t) = (if leb b'A' c && leb c b'Z' then c + 32 else c) ∷ lower t

unfoldable pub text_beq : Text → Text → Bool
text_beq [] [] = true
text_beq (c ∷ s) (d ∷ t) = c == d && text_beq s t
text_beq _ _ = false

pub text_beq_iff : (s t : Text) → (text_beq s t ≡ true) ↔ (s ≡ t)
unfolding text_beq
text_beq_iff [] [] = (λ _. refl, λ _. refl)
text_beq_iff [] (d ∷ t) = (λ h. cc, λ h. cc)
text_beq_iff (c ∷ s) [] = (λ h. cc, λ h. cc)
text_beq_iff (c ∷ s) (d ∷ t) = ground (arith, text_beq_iff s t)

instance abbrev pub text_eq : Eq Text
text_eq = record { beq = text_beq; beq_iff = text_beq_iff }

-- `t.split(sep, 1)[0]`
unfoldable pub before_first : ℕ → Text → Text
before_first sep [] = []
before_first sep (c ∷ t) = if c == sep then [] else c ∷ before_first sep t

-- The first of the words and the others, of `t.split(sep)`.
abbrev add_char : ℕ → List Text → List Text
add_char c [] = (c ∷ []) ∷ []
add_char c (w ∷ ws) = (c ∷ w) ∷ ws

-- `t.split(sep)`
unfoldable pub split_on : ℕ → Text → List Text
split_on sep [] = [] ∷ []
split_on sep (c ∷ t) =
    let words = split_on sep t in if c == sep then [] ∷ words else add_char c words

-- `t.split(sep, 1)`, of a text with a separator
unfoldable pub split_once : ℕ → Text → Option (Text × Text)
split_once sep [] = none
split_once sep (c ∷ t) =
    let rest = split_once sep t in if c == sep then some ([], t) else with_char c rest
  where
    with_char : ℕ → Option (Text × Text) → Option (Text × Text)
    with_char c none = none
    with_char c (some (s, u)) = some (c ∷ s, u)

-- The longest start of `t` whose characters pass the test, and the rest.
unfoldable pub span_by : (ℕ → Bool) → Text → Text × Text
span_by test [] = ([], [])
span_by test (c ∷ t) = let (s, u) = span_by test t in if test c then (c ∷ s, u) else ([], c ∷ t)

-- A text in which `c` does not occur.
abbrev pub Lacks : ℕ → Text → Type 0
Lacks c t = All (λ d. (d == c) ≡ false) t

pub before_first-append : (sep : ℕ) (s t : Text) → Lacks sep s → before_first sep (s ++ sep ∷ t) ≡ s
unfolding before_first
before_first-append sep [] t h = ground (arith, ==_iff sep sep)
before_first-append sep (c ∷ s) t h = ground (arith, before_first-append sep s t h.1)

pub split_on-Lacks : (sep : ℕ) (t : Text) → Lacks sep t → split_on sep t ≡ t ∷ []
unfolding split_on
split_on-Lacks sep [] h = refl
split_on-Lacks sep (c ∷ t) h = rw (h.0, split_on-Lacks sep t h.1) refl

pub split_on-append :
    (sep : ℕ) (s t : Text) → Lacks sep s → split_on sep (s ++ sep ∷ t) ≡ s ∷ split_on sep t
unfolding split_on
split_on-append sep [] t h = rw (==_true sep) refl
split_on-append sep (c ∷ s) t h = rw (h.0, split_on-append sep s t h.1) refl

pub span_by-passes : (test : ℕ → Bool) (t : Text) → All (λ c. test c ≡ true) (span_by test t).0
unfolding span_by
span_by-passes test [] = tt
span_by-passes test (c ∷ t) = elim (Bool-cases (test c)) [
  | inl passes ↦ rw passes (passes, span_by-passes test t)
  | inr fails ↦ rw fails tt
]
