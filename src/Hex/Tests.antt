-- ===== src/Hex/Tests.antt =====
-- Two bytes as "0aff".
use browsertorrent.Common.{◌≡◌, true, refl, [], ◌∷◌, ok, err}
use browsertorrent.Common.Words.{all_bytes→AllBytes}
use browsertorrent.Hex.{
  hex_digit, hex_value, hex_byte, encode_hex, put_byte, decode_pairs, decode_hex, is_hex,
  all_hex_digits, is_hex_digit, odd_length, invalid_character,
}
use browsertorrent.Hex.RoundTrip.{decode_hex-encode_hex}

encodes : encode_hex (10 ∷ 255 ∷ []) ≡ 48 ∷ 97 ∷ 102 ∷ 102 ∷ []
unfolding encode_hex hex_digit
encodes = refl

decodes_capitals : decode_hex (48 ∷ 65 ∷ 70 ∷ 70 ∷ []) ≡ ok (10 ∷ 255 ∷ [])
unfolding decode_hex decode_pairs put_byte hex_byte hex_value
decodes_capitals = refl

refuses_odd : decode_hex (48 ∷ []) ≡ err odd_length
unfolding decode_hex
refuses_odd = refl

refuses_other : decode_hex (48 ∷ 48 ∷ 48 ∷ 71 ∷ []) ≡ err (invalid_character 2)
unfolding decode_hex decode_pairs put_byte hex_byte hex_value
refuses_other = refl

decode_hex-encode_hex_example : decode_hex (encode_hex (10 ∷ 255 ∷ [])) ≡ ok (10 ∷ 255 ∷ [])
decode_hex-encode_hex_example =
    decode_hex-encode_hex (10 ∷ 255 ∷ []) (all_bytes→AllBytes (10 ∷ 255 ∷ []) refl)

zero_a-is_hex : is_hex (48 ∷ 97 ∷ []) ≡ true
unfolding is_hex all_hex_digits is_hex_digit
zero_a-is_hex = refl
