-- ===== src/Params/Overrides/Missing.antt =====
-- What mkparams.py reports as not found.
use mathlib.Core.Option
use mathlib.Core.List.{reverse-append}
use ros2_ws_gp.Common.{
  ℕ, ◌≡◌, refl, ap, ◌∙◌, inl, inr, Bool, true, not, ◌||◌, Option, none, some, List, [], ◌∷◌, ◌++◌,
  map, ◌==◌, ==_true, length, select, any, arith, Option-cases, Bool-cases, All,
}
use ros2_ws_gp.Common.Dict.{Dict}
use ros2_ws_gp.Common.Text.{
  Text, text_beq, Lacks, split_on, split_on-Lacks, span_by, span_by-passes, is_space,
}
use ros2_ws_gp.Params.Overrides.{
  Keyed, match_line, match_key, match_val, is_key_char, is_key_start, Stack, first_fit, hit_name,
  last_word, missing, parse_overrides, make_params,
}
use ros2_ws_gp.Params.Overrides.Enclosing.{
  enclosing, note, recorded, expected_hit, expected_hits, report_of, make_params-expected,
}

-- The keys of the lines that are rewritten.
unfoldable pub rewritten_key : Dict Text Text → List Keyed → Option Keyed → List Text
rewritten_key overrides before none = []
rewritten_key overrides before (some k) =
    recorded k.key (first_fit (enclosing (length k.lead) before) k.key overrides)

unfoldable pub rewritten_keys : Dict Text Text → List Keyed → List Text → List Text
rewritten_keys overrides before [] = []
rewritten_keys overrides before (line ∷ lines) =
    rewritten_key overrides before (match_line line)
    ++ rewritten_keys overrides (note (match_line line) before) lines

abbrev IsDotless : Option Keyed → Type 0
IsDotless none = Unit
IsDotless (some k) = Lacks b'.' k.key

passes→Lacks : (t : Text) → All (λ c. is_key_char c ≡ true) t → Lacks b'.' t
unfolding is_key_char is_key_start
passes→Lacks [] h = tt
passes→Lacks (c ∷ t) h = (ground arith, passes→Lacks t h.1)

match_val-IsDotless : (lead key rest : Text) → Lacks b'.' key → IsDotless (match_val lead key rest)
unfolding match_val
match_val-IsDotless lead key [] h = tt
match_val-IsDotless lead key (c ∷ t) h = elim (Bool-cases (c == b':')) [
  | inl colon ↦ rw colon h
  | inr other ↦ rw other tt
]

match_key-IsDotless : (lead rest : Text) → IsDotless (match_key lead rest)
unfolding match_key
match_key-IsDotless lead [] = tt
match_key-IsDotless lead (c ∷ t) = elim (Bool-cases (is_key_start c)) [
  | inl starts ↦
      rw starts (match_val-IsDotless lead _ _ (passes→Lacks _ (span_by-passes is_key_char (c ∷ t))))
  | inr other ↦ rw other tt
]

match_line-IsDotless : (line : Text) → IsDotless (match_line line)
unfolding match_line
match_line-IsDotless line = match_key-IsDotless (span_by is_space line).0 (span_by is_space line).1

split_on-end :
    (sep : ℕ) (s t : Text)
    → (w : Text) × (ws : List Text) × (split_on sep (s ++ sep ∷ t) ≡ w ∷ ws ++ split_on sep t)
unfolding split_on
split_on-end sep [] t = ([], [], rw (==_true sep) refl)
split_on-end sep (c ∷ s) t =
    let (w, ws, e) = split_on-end sep s t in
    elim (Bool-cases (c == sep)) [
      | inl cut ↦ ([], w ∷ ws, rw (cut, e) refl)
      | inr kept ↦ (c ∷ w, ws, rw (kept, e) refl)
    ]

last_word-hit_name :
    (stack : Stack) (key : Text) → Lacks b'.' key → last_word (hit_name stack key) ≡ key
unfolding last_word hit_name
last_word-hit_name [] key h = rw (split_on-Lacks b'.' key h) refl
last_word-hit_name ((i, parent) ∷ stack) key h =
    let (w, ws, e) = split_on-end b'.' parent key in
    rw (e, split_on-Lacks b'.' key h, reverse-append (w ∷ ws) (key ∷ [])) refl

map-append : {A B : Type 0} (f : A → B) (xs ys : List A) → map f (xs ++ ys) ≡ map f xs ++ map f ys
map-append f [] ys = refl
map-append f (x ∷ xs) ys = ap (◌∷◌ (f x)) (map-append f xs ys)

last_words-hit :
    (overrides : Dict Text Text) (before : List Keyed) (m : Option Keyed)
    → IsDotless m
    → map last_word (expected_hit overrides before m) ≡ rewritten_key overrides before m
unfolding expected_hit rewritten_key
last_words-hit overrides before none h = refl
last_words-hit overrides before (some k) h =
    elim (Option-cases (first_fit (enclosing (length k.lead) before) k.key overrides)) [
      | inl unfit ↦ rw unfit refl
      | inr (newval, fit) ↦
          rw fit (ap (λ w. w ∷ []) (last_word-hit_name (enclosing (length k.lead) before) k.key h))
    ]

last_words-hits :
    (overrides : Dict Text Text) (before : List Keyed) (lines : List Text)
    → map last_word (expected_hits overrides before lines) ≡ rewritten_keys overrides before lines
unfolding expected_hits rewritten_keys
last_words-hits overrides before [] = refl
last_words-hits overrides before (line ∷ lines) =
    rw
      (
        map-append last_word (expected_hit overrides before (match_line line))
            (expected_hits overrides (note (match_line line) before) lines),
        last_words-hit overrides before (match_line line) (match_line-IsDotless line),
        last_words-hits overrides (note (match_line line) before) lines,
      )
      refl

any-map :
    {A B : Type 0} (f : A → B) (test : B → Bool) (xs : List A)
    → any (λ x. test (f x)) xs ≡ any test (map f xs)
any-map f test [] = refl
any-map f test (x ∷ xs) = ap (λ b. test (f x) || b) (any-map f test xs)

-- The overrides whose last word is the key of no rewritten line.
abbrev pub unused : Dict Text Text → List Text → List Text
unused overrides keys =
    select (λ spec. not (any (λ key. text_beq key (last_word spec)) keys))
      (map (λ entry. entry.0) overrides)

missing-unused :
    (overrides : Dict Text Text) (hit keys : List Text)
    → map last_word hit ≡ keys
    → missing overrides hit ≡ unused overrides keys
unfolding missing
missing-unused overrides hit keys e =
    ap (λ test. select test (map (λ entry. entry.0) overrides))
      (λ i spec. not (
        (any-map last_word (λ key. text_beq key (last_word spec)) hit
            ∙ ap (any (λ key. text_beq key (last_word spec))) e)
          i))

-- With overrides that are all given by an equals sign, exactly those are reported as not found whose
-- last word is the key of no rewritten line: the blocks that an override names are not compared.
pub make_params-not_found :
    (args lines : List Text) (overrides : Dict Text Text)
    → parse_overrides [] args ≡ some overrides
    → Option.map (λ r. r.not_found) (make_params args lines)
      ≡ some (unused overrides (rewritten_keys overrides [] lines))
make_params-not_found args lines overrides parsed =
    ap (Option.map (λ r. r.not_found))
      (make_params-expected args lines ∙ ap (Option.map (report_of lines)) parsed)
    ∙ ap some (
        missing-unused overrides (expected_hits overrides [] lines)
          (rewritten_keys overrides [] lines) (last_words-hits overrides [] lines))
