-- ===== src/Hex.antt =====
-- packages/core/src/utils/encoding.ts, the hexadecimal codec and `isHex`. A string is the list of its code units.
pub mod RoundTrip
pub mod Accepts
mod Tests
use browsertorrent.Common.{
  ℕ, ◌+◌, ◌-◌, ◌*◌, ◌/◌, ◌%◌, bit_or, Bool, true, not, ◌&&◌, ◌||◌, Option, none, some, List, [],
  ◌∷◌, ltb, leb, ◌==◌, if◌then◌else◌, Result, ok, err, ◌>>=◌, ◌>>◌, guard, length,
}

pub data HexError : Type 0 where
  odd_length : HexError
  invalid_character : ℕ → HexError

-- A digit of `toString(16)`.
unfoldable pub hex_digit : ℕ → ℕ
hex_digit d = if ltb d 10 then 48 + d else 87 + d

unfoldable pub encode_hex : List ℕ → List ℕ
encode_hex [] = []
encode_hex (b ∷ bs) = hex_digit (b / 16) ∷ hex_digit (b % 16) ∷ encode_hex bs

-- `parseInt(character, 16)`, `none` for `NaN`.
pub hex_value : ℕ → Option ℕ
hex_value c =
    if leb 48 c && leb c 57
    then some (c - 48)
    else if leb 65 c && leb c 70
    then some (c - 55)
    else if leb 97 c && leb c 102
    then some (c - 87)
    else none

-- `(hi << 4) | lo`, if both are numbers.
pub hex_byte : Option ℕ → Option ℕ → Option ℕ
hex_byte (some hi) (some lo) = some (bit_or (hi * 16) lo)
hex_byte _ _ = none

pub put_byte : ℕ → Option ℕ → Result HexError (List ℕ) → Result HexError (List ℕ)
put_byte position none rest = err (invalid_character position)
put_byte position (some b) rest = do bs ← rest; ok (b ∷ bs)

-- The loop of `decodeHex` from a position on; the length is even there.
pub decode_pairs : ℕ → List ℕ → Result HexError (List ℕ)
decode_pairs position [] = ok []
decode_pairs position (h ∷ []) = err (invalid_character position)
decode_pairs position (h ∷ l ∷ rest) =
    put_byte position (hex_byte (hex_value h) (hex_value l)) (decode_pairs (position + 2) rest)

pub decode_hex : List ℕ → Result HexError (List ℕ)
decode_hex text = do guard (length text % 2 == 0) odd_length; decode_pairs 0 text

-- `/^[0-9a-fA-F]+$/`: the test of a character, of all, and `isHex`.
pub is_hex_digit : ℕ → Bool
is_hex_digit c = (leb 48 c && leb c 57) || ((leb 97 c && leb c 102) || (leb 65 c && leb c 70))

pub all_hex_digits : List ℕ → Bool
all_hex_digits [] = true
all_hex_digits (c ∷ cs) = is_hex_digit c && all_hex_digits cs

pub is_hex : List ℕ → Bool
is_hex text = not (length text == 0) && all_hex_digits text
