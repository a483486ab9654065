-- ===== src/Hex/Accepts.antt =====
-- What `decodeHex` accepts.
use browsertorrent.Common.{
  ℕ, ◌+◌, ◌*◌, ◌%◌, ◌≡◌, refl, true, ◌&&◌, some, List, [], ◌∷◌, ◌==◌, ==_iff, &&-eq-true, ok,
  length, arith, bit_or, Option-cases, inl, inr,
}
use browsertorrent.Hex.{
  hex_value, hex_byte, put_byte, decode_pairs, decode_hex, is_hex_digit, all_hex_digits, is_hex,
}

digit_value : (c : ℕ) → is_hex_digit c ≡ true → (v : ℕ) × (hex_value c ≡ some v)
unfolding is_hex_digit hex_value
digit_value c h = elim (Option-cases (hex_value c)) [
  | inl e ↦ absurd (ground arith)
  | inr found ↦ found
]

decode_pairs-all_hex_digits :
    (position : ℕ) (text : List ℕ)
    → length text % 2 ≡ 0
    → all_hex_digits text ≡ true
    → (bs : List ℕ) × (decode_pairs position text ≡ ok bs) × (length text ≡ 2 * length bs)
unfolding decode_pairs all_hex_digits put_byte hex_byte
decode_pairs-all_hex_digits position [] even all = ([], refl, refl)
decode_pairs-all_hex_digits position (h ∷ []) even all = absurd (omega arith)
decode_pairs-all_hex_digits position (h ∷ l ∷ rest) even all =
    let (first, others) = &&-eq-true (is_hex_digit h) (is_hex_digit l && all_hex_digits rest) all in
    let (second, tail) = &&-eq-true (is_hex_digit l) (all_hex_digits rest) others in
    let (hi, hi_read) = digit_value h first in
    let (lo, lo_read) = digit_value l second in
    let (bs, read, size) = decode_pairs-all_hex_digits (position + 2) rest (omega arith) tail in
    (bit_or (hi * 16) lo ∷ bs, rw (hi_read, lo_read, read), omega arith)

-- `decodeHex` accepts every string that `isHex` accepts and whose length is even, and makes one byte
-- of two characters.
pub decode_hex-is_hex :
    (text : List ℕ)
    → is_hex text ≡ true
    → length text % 2 ≡ 0
    → (bs : List ℕ) × (decode_hex text ≡ ok bs) × (length text ≡ 2 * length bs)
unfolding decode_hex is_hex
decode_hex-is_hex text h even =
    let (some_text, all) = &&-eq-true _ (all_hex_digits text) h in
    let (bs, read, size) = decode_pairs-all_hex_digits 0 text even all in
    let test : (length text % 2 == 0) ≡ true = (==_iff _ _).1 even in (bs, rw test read, size)
