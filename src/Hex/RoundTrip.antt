-- ===== src/Hex/RoundTrip.antt =====
-- Bytes through their hexadecimal string and back.
use browsertorrent.Common.{
  ℕ, ◌+◌, ◌*◌, ◌/◌, ◌%◌, ◌≡◌, ◌<◌, refl, ap, Bool, true, false, Option, none, some, List, [], ◌∷◌,
  ◌==◌, ==_iff, ok, length, arith,
}
use browsertorrent.Common.Words.{AllBytes}
use browsertorrent.Common.Tables.{holds_below, holds_below_sound}
use browsertorrent.Hex.{
  hex_digit, hex_value, hex_byte, encode_hex, put_byte, decode_pairs, decode_hex,
}

-- What the two digits of a byte are read as.
abbrev digits_of : ℕ → Option ℕ
digits_of b = hex_byte (hex_value (hex_digit (b / 16))) (hex_value (hex_digit (b % 16)))

abbrev is_some : ℕ → Option ℕ → Bool
is_some b none = false
is_some b (some c) = c == b

is_some-eq : (b : ℕ) (o : Option ℕ) → is_some b o ≡ true → o ≡ some b
is_some-eq b none h = cc
is_some-eq b (some c) h = ap some ((==_iff c b).0 h)

digits_table : holds_below 256 (λ b. is_some b (digits_of b)) ≡ true
unfolding holds_below hex_digit hex_value hex_byte
digits_table = refl

digits_lem : (b : ℕ) → b < 256 → digits_of b ≡ some b
digits_lem b h =
    is_some-eq b (digits_of b)
      (holds_below_sound 256 (λ b. is_some b (digits_of b)) b digits_table h)

-- The hexadecimal string has two characters for each byte.
pub length-encode_hex : (bs : List ℕ) → length (encode_hex bs) ≡ 2 * length bs
unfolding encode_hex
length-encode_hex [] = refl
length-encode_hex (b ∷ bs) = omega (arith, length-encode_hex bs)

decode_pairs-encode_hex :
    (position : ℕ) (bs : List ℕ) → AllBytes bs → decode_pairs position (encode_hex bs) ≡ ok bs
unfolding decode_pairs encode_hex put_byte
decode_pairs-encode_hex position [] all = refl
decode_pairs-encode_hex position (b ∷ bs) all =
    rw (digits_lem b all.0, decode_pairs-encode_hex (position + 2) bs all.1)

-- `decodeHex` reads the bytes back from the string that `encodeHex` writes for them.
pub decode_hex-encode_hex : (bs : List ℕ) → AllBytes bs → decode_hex (encode_hex bs) ≡ ok bs
unfolding decode_hex
decode_hex-encode_hex bs all =
    let even : (length (encode_hex bs) % 2 == 0) ≡ true =
      (==_iff _ _).1 (omega (arith, length-encode_hex bs)) in
    rw even (decode_pairs-encode_hex 0 bs all)
