-- ===== src/Secoc/Key/Laws.antt =====
-- Which keys `load_key` returns.
use ros2_ws_gp.Common.{
  ℕ, zero, suc, ◌+◌, ◌-◌, ◌*◌, ◌/◌, ◌%◌, ◌≡◌, ◌<◌, ◌≤◌, ◌⊎◌, inl, inr, refl, ap, true, false,
  Option, none, some, [], ◌∷◌, ◌++◌, ◌==◌, ltb, any, if◌then◌else◌, length, take, arith, All,
  Bool-cases, length-append,
}
use ros2_ws_gp.Common.Text.{rstrip_by}
use ros2_ws_gp.Secoc.Bytes.{Bytes}
use ros2_ws_gp.Secoc.Key.{is_blank, is_hex_space, hex_value, from_hex, load_key, join_byte}

join_byte-length :
    (h l : Option ℕ) (rest : Option Bytes) (n : ℕ) {k : Bytes}
    → ((r : Bytes) → rest ≡ some r → length r * 2 ≡ n)
    → join_byte h l rest ≡ some k
    → length k * 2 ≡ suc (suc n)
join_byte-length none l rest n ih e = cc
join_byte-length (some h) none rest n ih e = cc
join_byte-length (some h) (some l) none n ih e = cc
join_byte-length (some h) (some l) (some r) n ih e = ground (arith, ih r refl)

-- With no blank among them, two digits make one byte.
from_hex-length :
    (t : Bytes) (k : Bytes)
    → any is_hex_space t ≡ false
    → from_hex t ≡ some k
    → length k * 2 ≡ length t
unfolding from_hex
from_hex-length [] k no_space e = ground arith
from_hex-length (c ∷ []) k no_space e = ground arith
from_hex-length (c ∷ d ∷ t) k no_space e =
    join_byte-length (hex_value c) (hex_value d) (from_hex t) (length t) {k = k}
      (λ r q. from_hex-length t r (ground arith) q) (ground arith)

choice-length :
    (buf text : Bytes) {k : Bytes}
    → (if length buf == 16 then some buf else if length text == 32 then from_hex text else none)
      ≡ some k
    → any is_hex_space text ≡ false
    → length k ≡ 16
choice-length buf text {k} e solid = ground (arith, from_hex-length text k solid)

-- A key that is returned has sixteen bytes, or the text that it was read from has a blank inside.
pub load_key-length :
    (file : Bytes) {k : Bytes}
    → load_key file ≡ some k
    → (length k ≡ 16) ⊎ (any is_hex_space (rstrip_by is_blank (take 128 file)) ≡ true)
unfolding load_key
load_key-length file {k} e =
    elim (Bool-cases (any is_hex_space (rstrip_by is_blank (take 128 file)))) [
      | inl blank ↦ inr blank
      | inr solid ↦ inl (choice-length (take 128 file) (rstrip_by is_blank (take 128 file)) e solid)
    ]

unfoldable pub hex_digit : ℕ → ℕ
hex_digit n = if ltb n 10 then b'0' + n else b'a' + (n - 10)

-- The key in hexadecimal, as a provisioning tool prints it.
unfoldable pub hex_of : Bytes → Bytes
unfolding hex_digit
hex_of [] = []
hex_of (b ∷ bs) = hex_digit (b / 16) ∷ hex_digit (b % 16) ∷ hex_of bs

hex_value-digit : (n : ℕ) → n < 16 → hex_value (hex_digit n) ≡ some n
unfolding hex_value hex_digit
hex_value-digit n h = ground arith

hex_digit-solid :
    (n : ℕ) → n < 16 → (is_hex_space (hex_digit n) ≡ false) × (is_blank (hex_digit n) ≡ false)
unfolding is_hex_space is_blank hex_digit
hex_digit-solid n h = ground arith

from_hex-hex_of : (k : Bytes) → All (λ b. b < 256) k → from_hex (hex_of k) ≡ some k
unfolding from_hex hex_of
from_hex-hex_of [] h = refl
from_hex-hex_of (b ∷ k) h =
    rw
      (
        (hex_digit-solid (b / 16) (omega arith)).0,
        hex_value-digit (b / 16) (omega arith),
        hex_value-digit (b % 16) (omega arith),
        from_hex-hex_of k h.1,
      )
      (ground arith)

length-hex_of : (k : Bytes) → length (hex_of k) ≡ length k + length k
unfolding hex_of
length-hex_of [] = refl
length-hex_of (b ∷ k) = omega (arith, length-hex_of k)

rstrip-hex_of :
    (k : Bytes) → All (λ b. b < 256) k → rstrip_by is_blank (hex_of k ++ 10 ∷ []) ≡ hex_of k
unfolding rstrip_by hex_of is_blank
rstrip-hex_of [] h = refl
rstrip-hex_of (b ∷ k) h =
    rw (rstrip-hex_of k h.1) (
      ground
        (arith, hex_digit-solid (b / 16) (omega arith), hex_digit-solid (b % 16) (omega arith)))

take-all : (n : ℕ) (t : Bytes) → length t ≤ n → take n t ≡ t
take-all zero [] h = refl
take-all zero (x ∷ t) h = absurd (omega arith)
take-all (suc n) [] h = refl
take-all (suc n) (x ∷ t) h = ap (◌∷◌ x) (take-all n t (omega arith))

-- A key of sixteen bytes that is kept as hexadecimal digits and a line end is read back.
pub load_key-hex_of :
    (k : Bytes) → length k ≡ 16 → All (λ b. b < 256) k → load_key (hex_of k ++ 10 ∷ []) ≡ some k
unfolding load_key
load_key-hex_of k sixteen small =
    let line = hex_of k ++ 10 ∷ [] in
    let measured : length line ≡ 33 =
      omega (arith, length-append (hex_of k) (10 ∷ []), length-hex_of k) in
    rw (take-all 128 line (omega arith), rstrip-hex_of k small, from_hex-hex_of k small, measured)
      (rw (length-hex_of k, sixteen) refl)
