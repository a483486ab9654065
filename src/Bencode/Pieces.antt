-- ===== src/Bencode/Pieces.antt =====
-- Integers and byte strings: what the encoder writes is read back, whatever follows.
use browsertorrent.Common.{
  ℕ, suc, ◌+◌, ◌≤◌, ◌≡◌, refl, ap, ◌∙◌, Bool, true, false, not, ◌&&◌, some, List, [], ◌∷◌, ◌++◌,
  if◌then◌else◌, ◌==◌, ok, length, leb, ltb, le→leb, arith, &&-eq-true, take-append, drop-append,
  list_eq, length-append,
}
use browsertorrent.Common.Int.{ℤ, pos, negsuc}
use mathlib.Core.List.{append_assoc}
use browsertorrent.Handshake.RoundTrip.{AllAscii, DecodesAscii}
use browsertorrent.Bencode.{Value, number, bigint, max_safe}
use browsertorrent.Bencode.Decimal.{
  decimal, decimal_int, is_digit, all_digits, value, is_numeral, decimal-is_numeral, value-decimal,
  decimal-Leading,
}
use browsertorrent.Bencode.Encode.{is_safe, encode_bytes}
use browsertorrent.Bencode.Decode.{
  split_at, is_integer_text, integer_of, positive, negative, read_integer, decode_integer,
  read_bytes, decode_byte_string, first_is_zero,
}

-- A list without the number.
abbrev pub without : ℕ → List ℕ → Bool
without b [] = true
without b (c ∷ cs) = not (c == b) && without b cs

pub split_at-without :
    (b : ℕ) (xs rest : List ℕ)
    → without b xs ≡ true
    → split_at b (xs ++ (b ∷ rest)) ≡ some (xs, rest)
unfolding split_at
split_at-without b [] rest h = let e : (b == b) ≡ true = ground arith in rw e
split_at-without b (c ∷ cs) rest h =
    let (other, later) = &&-eq-true (not (c == b)) (without b cs) h in
    let differs : (c == b) ≡ false = ground arith in rw (differs, split_at-without b cs rest later)

all_digits-without :
    (b : ℕ) (cs : List ℕ) → is_digit b ≡ false → all_digits cs ≡ true → without b cs ≡ true
all_digits-without b [] h all = refl
all_digits-without b (c ∷ cs) h all =
    let (first, later) = &&-eq-true (is_digit c) (all_digits cs) all in
    let ih = all_digits-without b cs h later in ground (arith, ih)

all_digits-AllAscii : (cs : List ℕ) → all_digits cs ≡ true → AllAscii cs
all_digits-AllAscii [] h = tt
all_digits-AllAscii (c ∷ cs) h =
    let (first, later) = &&-eq-true (is_digit c) (all_digits cs) h in
    (ground arith, all_digits-AllAscii cs later)

-- The shape of a numeral.
pub record Spelled (cs : List ℕ) : Type 0 where
  pub first : ℕ
  pub others : List ℕ
  pub shape : cs ≡ first ∷ others
  pub digit : (48 ≤ first) × (first ≤ 57)
  pub all : all_digits others ≡ true

is_numeral-Spelled : (cs : List ℕ) → is_numeral cs ≡ true → Spelled cs
is_numeral-Spelled [] h = cc
is_numeral-Spelled (c ∷ []) h = record {
  first = c;
  others = [];
  shape = refl;
  digit = (ground arith, ground arith);
  all = refl;
}
is_numeral-Spelled (c ∷ d ∷ ds) h =
    let (first, later) = &&-eq-true (leb 49 c && leb c 57) (all_digits (d ∷ ds)) h in
    record {
      first = c;
      others = d ∷ ds;
      shape = refl;
      digit = (ground arith, ground arith);
      all = later;
    }

pub decimal-Spelled : (n : ℕ) → Spelled (decimal n)
decimal-Spelled n = is_numeral-Spelled (decimal n) (decimal-is_numeral n)

Spelled-all_digits : {cs : List ℕ} → Spelled cs → all_digits cs ≡ true
Spelled-all_digits s = let e : is_digit s.first ≡ true = ground arith in rw (s.shape, e) s.all

decimal-all_digits : (n : ℕ) → all_digits (decimal n) ≡ true
decimal-all_digits n = Spelled-all_digits (decimal-Spelled n)

numeral-integer :
    (cs : List ℕ)
    → is_numeral cs ≡ true
    → (is_integer_text cs ≡ true) × (integer_of cs ≡ positive (value 0 cs))
numeral-integer cs h =
    let s = is_numeral-Spelled cs h in
    let digit : (s.first == 45) ≡ false = ground arith in
    let spelled : is_numeral (s.first ∷ s.others) ≡ true = rw s.shape at h in
    rw s.shape (rw digit spelled, rw digit)

negative_text :
    (n : ℕ)
    → (is_integer_text (45 ∷ decimal (suc n)) ≡ true)
      × (integer_of (45 ∷ decimal (suc n)) ≡ negative (suc n))
negative_text n =
    let r = decimal-Leading n in
    let shape : decimal (suc n) ≡ r.first ∷ r.others = r.shape in
    let spelled = decimal-is_numeral (suc n) in
    let not_zero : list_eq (r.first ∷ r.others) (48 ∷ []) ≡ false = ground arith in
    let not_zero' : list_eq (decimal (suc n)) (48 ∷ []) ≡ false = rw shape not_zero in
    (rw (spelled, not_zero'), ap negative (value-decimal (suc n)))

-- The value of an integer that is decoded.
abbrev pub integer_value : ℤ → Value
integer_value n = if is_safe n then number n else bigint n

negative-integer_value : (n : ℕ) → negative (suc n) ≡ integer_value (negsuc n)
negative-integer_value n = let e : suc n ≡ n + 1 = omega arith in rw e

module _ (encode_text decode_text : List ℕ → List ℕ) (ascii : DecodesAscii decode_text) where
  read_digits : (n : ℕ) → decode_text (decimal n) ≡ decimal n
  read_digits n = ascii.forth (decimal n) (all_digits-AllAscii (decimal n) (decimal-all_digits n))

  read_int :
      (n : ℤ)
      → (decode_text (decimal_int n) ≡ decimal_int n)
        × (is_integer_text (decimal_int n) ≡ true)
        × (integer_of (decimal_int n) ≡ integer_value n)
        × (without 101 (decimal_int n) ≡ true)
  unfolding decimal_int
  read_int (pos n) =
      let (valid, same) = numeral-integer (decimal n) (decimal-is_numeral n) in
      (
        read_digits n,
        valid,
        same ∙ ap positive (value-decimal n),
        all_digits-without 101 (decimal n) refl (decimal-all_digits n),
      )
  read_int (negsuc n) =
      let (valid, same) = negative_text n in
      let all = decimal-all_digits (suc n) in
      (
        ascii.forth (45 ∷ decimal (suc n)) (omega arith, all_digits-AllAscii (decimal (suc n)) all),
        valid,
        same ∙ negative-integer_value n,
        all_digits-without 101 (decimal (suc n)) refl all,
      )

  -- Behind the "i", the decoder reads the integer that was written.
  pub decode_integer-decimal_int :
      (n : ℤ) (rest : List ℕ)
      → decode_integer encode_text decode_text (decimal_int n ++ (101 ∷ rest))
        ≡ ok (integer_value n, rest)
  unfolding decode_integer read_integer
  decode_integer-decimal_int n rest =
      let (same, valid, v, free) = read_int n in
      rw (split_at-without 101 (decimal_int n) rest free, same, valid, v)

  not_leading :
      (cs : List ℕ)
      → is_numeral cs ≡ true
      → (not (length cs == 0) ≡ true) × (not (ltb 1 (length cs) && first_is_zero cs) ≡ true)
  not_leading [] h = cc
  not_leading (c ∷ []) h = (refl, refl)
  not_leading (c ∷ d ∷ ds) h = (ground arith, ground arith)

  -- A byte string of safe length is read back.
  pub decode_byte_string-encode_bytes :
      (bs rest : List ℕ)
      → length bs ≤ max_safe
      → decode_byte_string encode_text decode_text (encode_bytes bs ++ rest) ≡ ok (bs, rest)
  unfolding decode_byte_string read_bytes encode_bytes
  decode_byte_string-encode_bytes bs rest h =
      let n : ℕ = length bs in
      let raw : List ℕ = decimal n in
      let all = decimal-all_digits n in
      let (nonempty, short) = not_leading raw (decimal-is_numeral n) in
      let found = split_at-without 58 raw (bs ++ rest) (all_digits-without 58 raw refl all) in
      let safe = le→leb n max_safe h in
      let fits : leb n (length (bs ++ rest)) ≡ true =
        le→leb n (length (bs ++ rest)) (omega (arith, length-append bs rest)) in
      rw (
        append_assoc raw (58 ∷ bs) rest,
        found,
        nonempty,
        all,
        short,
        read_digits n,
        value-decimal n,
        safe,
        fits,
        take-append bs rest n refl,
        drop-append bs rest 0 n (omega arith),
      )
