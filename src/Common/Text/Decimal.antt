-- ===== src/Common/Text/Decimal.antt =====
-- `str(n)` of a number and `int(text)`, with the round trip between them.
use Prim.Native.Nat.{ℕ, zero, suc, ◌+◌, ◌-◌, ◌*◌, ◌/◌, ◌%◌, ◌<◌}
use mathlib.Core.Path.{◌≡◌, refl, ap}
use mathlib.Core.Bool.{Bool, true, false, not, ◌&&◌}
use mathlib.Core.Option
use mathlib.Core.Option.{Option, none, some}
use mathlib.Core.List.{[], ◌∷◌, ◌++◌}
use native.Mathlib.Omega.{arith}
use ros2_ws_gp.Common.Tests.{leb, ◌==◌, if◌then◌else◌}
use ros2_ws_gp.Common.Lists.{All, is_empty}
use ros2_ws_gp.Common.Int.{ℤ, pos, neg}
use ros2_ws_gp.Common.Text.{Text, is_space, rstrip_by, strip}

unfoldable pub is_digit : ℕ → Bool
is_digit c = leb b'0' c && leb c b'9'

-- The digits of `n`, before `acc`; `n + 1` rounds are enough.
unfoldable pub print_from : ℕ → ℕ → Text → Text
print_from zero n acc = acc
print_from (suc f) n acc =
    let longer = (48 + n % 10) ∷ acc in
    let rest = print_from f (n / 10) longer in if n / 10 == 0 then longer else rest

-- `str(n)`
unfoldable pub print : ℕ → Text
unfolding print_from
print n = print_from (suc n) n []

-- Digits with single underscores between them; `need` says that a digit must come next.
unfoldable pub parse_digits : Bool → Text → ℕ → Option ℕ
unfolding is_digit
parse_digits need [] acc = if need then none else some acc
parse_digits need (c ∷ t) acc =
    let rest =
      parse_digits (not (is_digit c)) t (if is_digit c then acc * 10 + (c - 48) else acc) in
    if is_digit c then rest else if not need && c == b'_' then rest else none

-- `int(text)` of a text that is stripped; `none` is the ValueError.
unfoldable pub parse_int : Text → Option ℤ
unfolding parse_digits
parse_int [] = none
parse_int (c ∷ t) =
    if c == b'+'
    then Option.map pos (parse_digits true t 0)
    else if c == b'-'
    then Option.map neg (parse_digits true t 0)
    else Option.map pos (parse_digits true (c ∷ t) 0)

abbrev Digits : Text → Type 0
Digits t = All (λ c. is_digit c ≡ true) t

print_from-Digits : (f n : ℕ) (acc : Text) → Digits acc → Digits (print_from f n acc)
unfolding print_from is_digit
print_from-Digits zero n acc h = h
print_from-Digits (suc f) n acc h =
    ground (arith, print_from-Digits f (n / 10) ((48 + n % 10) ∷ acc))

pub print-Digits : (n : ℕ) → All (λ c. is_digit c ≡ true) (print n)
unfolding print
print-Digits n = print_from-Digits (suc n) n [] tt

parse_digits-digit :
    (need : Bool) (d : ℕ) (t : Text) (acc : ℕ)
    → d < 10
    → parse_digits need ((48 + d) ∷ t) acc ≡ parse_digits false t (acc * 10 + d)
unfolding parse_digits
parse_digits-digit need d t acc h = ground arith

-- Reading the digits back gives the number, and goes on with what follows them.
parse_digits-print_from :
    (f n : ℕ) (acc : Text)
    → n < f
    → parse_digits true (print_from f n acc) 0 ≡ parse_digits false acc n
unfolding print_from
parse_digits-print_from zero n acc h = absurd (omega arith)
parse_digits-print_from (suc f) n acc h = ground (
  arith,
  parse_digits-digit true (n % 10) acc 0,
  parse_digits-digit false (n % 10) acc (n / 10),
  parse_digits-print_from f (n / 10) ((48 + n % 10) ∷ acc),
)

parse_int-Digits :
    (t : Text) (n : ℕ) → Digits t → parse_digits true t 0 ≡ some n → parse_int t ≡ some (pos n)
unfolding parse_int
parse_int-Digits [] n d h = cc
parse_int-Digits (c ∷ t) n d h = ground arith

-- `int(str(n))` is `n`.
pub parse_int-print : (n : ℕ) → parse_int (print n) ≡ some (pos n)
unfolding print parse_digits
parse_int-print n =
    parse_int-Digits (print n) n (print-Digits n)
      (parse_digits-print_from (suc n) n [] (omega arith))

rstrip-line : (t : Text) → Digits t → rstrip_by is_space (t ++ 10 ∷ []) ≡ t
unfolding rstrip_by is_space is_digit
rstrip-line [] h = refl
rstrip-line (c ∷ t) h = ground (arith, rstrip-line t h.1)

strip-line : (t : Text) → Digits t → strip (t ++ 10 ∷ []) ≡ t
unfolding strip is_digit
strip-line [] h = refl
strip-line (c ∷ t) h = ground (arith, rstrip-line (c ∷ t) h)

-- `strip` takes the line end off a printed number.
pub strip-print : (n : ℕ) → strip (print n ++ 10 ∷ []) ≡ print n
strip-print n = strip-line (print n) (print-Digits n)

Digits-nonempty : (t : Text) (n : ℕ) → parse_int t ≡ some (pos n) → is_empty t ≡ false
unfolding parse_int
Digits-nonempty [] n h = cc
Digits-nonempty (c ∷ t) n h = refl

pub print_nonempty : (n : ℕ) → is_empty (print n) ≡ false
print_nonempty n = Digits-nonempty (print n) n (parse_int-print n)

-- Two numbers that print alike are one.
pub print-injective : (m n : ℕ) → print m ≡ print n → m ≡ n
print-injective m n h = ground (arith, parse_int-print m, parse_int-print n, ap parse_int h)
