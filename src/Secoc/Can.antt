-- ===== src/Secoc/Can.antt =====
-- The raw CAN socket: the kernel's filter, and the struct can_frame that is sent and received.
-- `=IB3x8s` is little-endian on the Jetson: id, length, three bytes of padding, eight of content.
use native.Mathlib.Nat.{mod-eq_of_lt}
use ros2_ws_gp.Common.{
  ℕ, zero, suc, ◌+◌, ◌*◌, ◌/◌, ◌%◌, ◌^◌, ◌≤◌, ◌<◌, ◌≡◌, refl, ap, All, Bool, true, Option, none,
  some, List, [], ◌∷◌, ◌++◌, ◌==◌, if◌then◌else◌, length, take, any, arith, ltb, is_empty,
}
use ros2_ws_gp.Secoc.Bytes.{Bytes}

-- `CAN_SFF_MASK` is 0x7FF, so `x & CAN_SFF_MASK` is `x` modulo this.
abbrev pub sff_modulus : ℕ
sff_modulus = 2 ^ 11

-- What the kernel does with the filters of `can_open`: a socket with no filter receives everything.
unfoldable pub passes_filter : List ℕ → ℕ → Bool
passes_filter can_ids received =
    if is_empty can_ids
    then true
    else any (λ can_id. received % sff_modulus == can_id % sff_modulus) can_ids

unfoldable pub little_endian : ℕ → Bytes
little_endian n = n % 2 ^ 8 ∷ n / 2 ^ 8 % 2 ^ 8 ∷ n / 2 ^ 16 % 2 ^ 8 ∷ n / 2 ^ 24 % 2 ^ 8 ∷ []

-- `bytes(data).ljust(8, b"\x00")`, packed as `8s`
abbrev pad : ℕ → Bytes → Bytes
pad zero b = []
pad (suc n) [] = 0 ∷ pad n []
pad (suc n) (x ∷ b) = x ∷ pad n b

-- The frame that `can_send` writes; `none` is struct.error.
unfoldable pub encode_can : ℕ → Bytes → Option Bytes
unfolding little_endian
encode_can can_id content =
    if ltb can_id (2 ^ 32)
    then if ltb (length content) (2 ^ 8)
      then some (little_endian can_id ++ (length content ∷ 0 ∷ 0 ∷ 0 ∷ pad 8 content))
      else none
    else none

-- What `can_recv` makes of the bytes that it read; `none` is struct.error.
unfoldable pub decode_can : Bytes → Option (ℕ × ℕ × Bytes)
decode_can (a ∷ b ∷ c ∷ d ∷ dlc ∷ _ ∷ _ ∷ _ ∷ content) =
    if length content == 8
    then some ((a + b * 2 ^ 8 + c * 2 ^ 16 + d * 2 ^ 24) % sff_modulus, dlc, take dlc content)
    else none
decode_can _ = none

take-pad : (n : ℕ) (b : Bytes) → length b ≤ n → take (length b) (pad n b) ≡ b
take-pad n [] h = refl
take-pad zero (x ∷ b) h = absurd (omega arith)
take-pad (suc n) (x ∷ b) h = ap (◌∷◌ x) (take-pad n b (omega arith))

length-pad : (n : ℕ) (b : Bytes) → length (pad n b) ≡ n
length-pad zero b = refl
length-pad (suc n) [] = ap suc (length-pad n [])
length-pad (suc n) (x ∷ b) = ap suc (length-pad n b)

little_endian-sum :
    (n : ℕ)
    → n < 2 ^ 32
    → (n % 2 ^ 8
          + n / 2 ^ 8 % 2 ^ 8 * 2 ^ 8
          + n / 2 ^ 16 % 2 ^ 8 * 2 ^ 16
          + n / 2 ^ 24 % 2 ^ 8 * 2 ^ 24)
        % sff_modulus
      ≡ n % sff_modulus
little_endian-sum n h = omega arith

-- A frame of up to eight bytes arrives as it was sent: its identifier masked to eleven bits, its
-- length, and its content without the padding.
pub decode-encode :
    (can_id : ℕ) (content : Bytes)
    → can_id < 2 ^ 32
    → length content ≤ 8
    → (raw : Bytes) × (encode_can can_id content ≡ some raw)
      × (decode_can raw ≡ some (can_id % sff_modulus, length content, content))
unfolding encode_can decode_can
decode-encode can_id content small short = (
  little_endian can_id ++ (length content ∷ 0 ∷ 0 ∷ 0 ∷ pad 8 content),
  ground arith,
  ground (arith, length-pad 8 content, take-pad 8 content short, little_endian-sum can_id),
)

same_tests :
    (cs : List ℕ) (received : ℕ)
    → All (λ i. i < sff_modulus) cs
    → any (λ i. received % sff_modulus == i % sff_modulus) cs
      ≡ any (λ i. received % sff_modulus == i) cs
same_tests [] received h = refl
same_tests (c ∷ cs) received h = rw (mod-eq_of_lt h.0, same_tests cs received h.1)

-- Of the filters that are set for some identifiers of eleven bits, the kernel lets a frame through
-- exactly if `can_recv` reports one of these identifiers for it: a frame with an extended
-- identifier too, by its low eleven bits.
pub passes_filter_lem :
    (can_id : ℕ) (can_ids : List ℕ) (a b c d dlc : ℕ) (p q r : ℕ) (content : Bytes)
    → All (λ i. i < sff_modulus) (can_id ∷ can_ids)
    → length content ≡ 8
    → (masked : ℕ) × (decode_can (a ∷ b ∷ c ∷ d ∷ dlc ∷ p ∷ q ∷ r ∷ content)
        ≡ some (masked, dlc, take dlc content))
      × (passes_filter (can_id ∷ can_ids) (a + b * 2 ^ 8 + c * 2 ^ 16 + d * 2 ^ 24)
          ≡ any (λ i. masked == i) (can_id ∷ can_ids))
unfolding passes_filter decode_can
passes_filter_lem can_id can_ids a b c d dlc p q r content small eight = (
  (a + b * 2 ^ 8 + c * 2 ^ 16 + d * 2 ^ 24) % sff_modulus,
  ground arith,
  same_tests (can_id ∷ can_ids) (a + b * 2 ^ 8 + c * 2 ^ 16 + d * 2 ^ 24) small,
)
