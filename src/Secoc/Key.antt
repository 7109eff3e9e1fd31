-- ===== src/Secoc/Key.antt =====
-- `load_key`: sixteen raw bytes, or thirty-two hexadecimal digits with blanks after them.
pub mod Laws
use ros2_ws_gp.Common.{
  ℕ, ◌+◌, ◌-◌, ◌*◌, ◌≡◌, Bool, true, false, ◌||◌, Option, none, some, List, [], ◌∷◌, leb, ◌==◌, ltb,
  ◌&&◌, any, if◌then◌else◌, length, take,
}
use ros2_ws_gp.Common.Text.{rstrip_by}
use ros2_ws_gp.Secoc.Bytes.{Bytes}

-- `buf.rstrip(b" \t\r\n")`
unfoldable pub is_blank : ℕ → Bool
is_blank c = c == 32 || c == 9 || c == 13 || c == 10

-- The blanks that `bytes.fromhex` passes over between two bytes: ASCII white space.
unfoldable pub is_hex_space : ℕ → Bool
is_hex_space c = c == 32 || (leb 9 c && leb c 13)

unfoldable pub hex_value : ℕ → Option ℕ
hex_value c =
    if leb b'0' c && leb c b'9'
    then some (c - b'0')
    else if leb b'a' c && leb c b'f'
    then some (c - b'a' + 10)
    else if leb b'A' c && leb c b'F'
    then some (c - b'A' + 10)
    else none

-- The byte of two digits, before the rest.
abbrev join_byte : Option ℕ → Option ℕ → Option Bytes → Option Bytes
join_byte (some h) (some l) (some rest) = some ((h * 16 + l) ∷ rest)
join_byte _ _ _ = none

-- `bytes.fromhex(text)`; `none` is the ValueError, also of a text that is not ASCII.
unfoldable pub from_hex : Bytes → Option Bytes
unfolding is_hex_space hex_value
from_hex [] = some []
from_hex (c ∷ []) = if is_hex_space c then some [] else none
from_hex (c ∷ d ∷ t) =
    let after_space = from_hex (d ∷ t) in
    let after_pair = from_hex t in
    if is_hex_space c then after_space else join_byte (hex_value c) (hex_value d) after_pair

-- `none` is the ValueError.
unfoldable pub load_key : Bytes → Option Bytes
unfolding is_blank rstrip_by from_hex
load_key file =
    let buf = take 128 file in
    let text = rstrip_by is_blank buf in
    if length buf == 16 then some buf else if length text == 32 then from_hex text else none
