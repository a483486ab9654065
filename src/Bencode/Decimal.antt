-- ===== src/Bencode/Decimal.antt =====
-- Decimal numerals: what a template string makes of an integer, and what `Number` and `BigInt` make
-- of the text of one.
use browsertorrent.Common.{
  ℕ, zero, suc, ◌+◌, ◌-◌, ◌*◌, ◌/◌, ◌%◌, ◌≤◌, ◌<◌, ◌≡◌, refl, ◌∙◌, ap, Bool, true, false, ◌&&◌,
  List, [], ◌∷◌, leb, ltb, Bool-cases, inl, inr, arith, if◌then◌else◌,
}
use browsertorrent.Common.Int.{ℤ, pos, negsuc}

-- The digits of a number in front of `out`, on fuel.
unfoldable pub digits : ℕ → ℕ → List ℕ → List ℕ
digits zero n out = out
digits (suc fuel) n out =
    let longer = digits fuel (n / 10) ((48 + n % 10) ∷ out) in
    if ltb n 10 then (48 + n) ∷ out else longer

-- `${n}`; a division by ten takes one away at least, so that `n + 1` is fuel enough.
unfoldable pub decimal : ℕ → List ℕ
unfolding digits
decimal n = digits (suc n) n []

unfoldable pub decimal_int : ℤ → List ℕ
decimal_int (pos n) = decimal n
decimal_int (negsuc n) = 45 ∷ decimal (suc n)

abbrev pub is_digit : ℕ → Bool
is_digit c = leb 48 c && leb c 57

abbrev pub all_digits : List ℕ → Bool
all_digits [] = true
all_digits (c ∷ cs) = is_digit c && all_digits cs

-- The number that digits spell behind `n`.
abbrev pub value : ℕ → List ℕ → ℕ
value n [] = n
value n (c ∷ cs) = value (n * 10 + (c - 48)) cs

-- `(?:0|[1-9]\d*)` on a whole text
abbrev pub is_numeral : List ℕ → Bool
is_numeral [] = false
is_numeral (c ∷ []) = is_digit c
is_numeral (c ∷ d ∷ ds) = (leb 49 c && leb c 57) && all_digits (d ∷ ds)

pub value-digits :
    (fuel n : ℕ) (out : List ℕ) → n < fuel → value 0 (digits fuel n out) ≡ value n out
unfolding digits
value-digits zero n out h = absurd (omega arith)
value-digits (suc fuel) n out h = elim (Bool-cases (ltb n 10)) [
  | inl small ↦ let e : 0 + (48 + n - 48) ≡ n = omega arith in rw small (ap (λ m. value m out) e)
  | inr big ↦
      let e : n / 10 * 10 + (48 + n % 10 - 48) ≡ n = omega arith in
      rw big
        (value-digits fuel (n / 10) ((48 + n % 10) ∷ out) (ground arith) ∙ ap (λ m. value m out) e)
]

-- The numeral of a number above 0: its first digit is not 0.
pub record Leading (n : ℕ) (out text : List ℕ) : Type 0 where
  pub first : ℕ
  pub others : List ℕ
  pub shape : text ≡ first ∷ others
  pub range : (49 ≤ first) × (first ≤ 57)
  pub digits : all_digits others ≡ all_digits out

pub digits-Leading :
    (fuel n : ℕ) (out : List ℕ) → 0 < n → n < fuel → Leading n out (digits fuel n out)
unfolding digits
digits-Leading zero n out h lt = absurd (omega arith)
digits-Leading (suc fuel) n out h lt = elim (Bool-cases (ltb n 10)) [
  | inl small ↦ record {
    first = 48 + n;
    others = out;
    shape = rw small;
    range = (omega arith, ground arith);
    digits = refl;
  }
  | inr big ↦
      let d : ℕ = 48 + n % 10 in
      let r = digits-Leading fuel (n / 10) (d ∷ out) (ground arith) (ground arith) in
      let e : is_digit d ≡ true = ground arith in
      record {
        first = r.first;
        others = r.others;
        shape = rw big r.shape;
        range = r.range;
        digits = r.digits ∙ (rw e);
      }
]

pub decimal-is_numeral : (n : ℕ) → is_numeral (decimal n) ≡ true
decimal-is_numeral zero = unfold decimal digits in refl
decimal-is_numeral (suc n) =
    let r = digits-Leading (suc (suc n)) (suc n) [] (omega arith) (omega arith) in
    let shape : decimal (suc n) ≡ r.first ∷ r.others = unfold decimal in r.shape in
    rw shape (spelled r.first r.others r.range r.digits)
  where
    spelled :
        (c : ℕ) (cs : List ℕ)
        → (49 ≤ c) × (c ≤ 57)
        → all_digits cs ≡ true
        → is_numeral (c ∷ cs) ≡ true
    spelled c [] range all = ground arith
    spelled c (d ∷ ds) range all =
        let first : (leb 49 c && leb c 57) ≡ true = ground arith in rw (first, all)

pub value-decimal : (n : ℕ) → value 0 (decimal n) ≡ n
unfolding decimal
value-decimal n = value-digits (suc n) n [] (omega arith)

pub decimal-Leading : (n : ℕ) → Leading (suc n) [] (decimal (suc n))
unfolding decimal
decimal-Leading n = digits-Leading (suc (suc n)) (suc n) [] (omega arith) (omega arith)
