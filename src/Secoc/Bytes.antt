-- ===== src/Secoc/Bytes.antt =====
-- The big-endian packing of `struct.pack(">H", n)` and `struct.pack(">I", n)`.
use ros2_ws_gp.Common.{
  ℕ, ◌+◌, ◌*◌, ◌/◌, ◌%◌, ◌^◌, Option, none, some, List, [], ◌∷◌, ltb, if◌then◌else◌, take, drop,
}
use ros2_ws_gp.Common.Int.{ℤ, pos, negsuc}

abbrev pub Bytes : Type 0
Bytes = List ℕ

-- `none` is struct.error: the number does not fit the field.
unfoldable pub pack_u16 : ℕ → Option Bytes
pack_u16 n = if ltb n (2 ^ 16) then some (n / 2 ^ 8 ∷ n % 2 ^ 8 ∷ []) else none

unfoldable pub pack_u32 : ℤ → Option Bytes
pack_u32 (negsuc n) = none
pack_u32 (pos n) =
    if ltb n (2 ^ 32)
    then some (n / 2 ^ 24 ∷ n / 2 ^ 16 % 2 ^ 8 ∷ n / 2 ^ 8 % 2 ^ 8 ∷ n % 2 ^ 8 ∷ [])
    else none

-- `struct.unpack(">H", b)[0]`, the bytes read from the left.
abbrev pub unpack_from : ℕ → Bytes → ℕ
unpack_from acc [] = acc
unpack_from acc (b ∷ bs) = unpack_from (acc * 256 + b) bs

-- `b[from:to]`
abbrev pub slice : ℕ → ℕ → Bytes → Bytes
slice from to b = drop from (take to b)

unfoldable pub unpack_u16 : Bytes → ℕ
unpack_u16 b = unpack_from 0 b
