-- ===== src/Common/Words.antt =====
-- Bytes and big-endian words, as `DataView` and `Uint8Array` store them, and JavaScript numbers.
use Prim.Native.Nat.{ℕ, ◌+◌, ◌*◌, ◌/◌, ◌%◌, ◌≤◌, ◌<◌}
use mathlib.Core.Path.{◌≡◌, sym, subst}
use mathlib.Core.Bool.{Bool, true, false, ◌&&◌}
use mathlib.Core.List.{List, [], ◌∷◌, ◌++◌}
use native.Mathlib.Omega.{arith}
use browsertorrent.Common.Tests.{leb, ltb, ltb→lt, &&-eq-true}
use browsertorrent.Common.Lists.{get_or, set, replicate, take, drop, take-append-drop}
use Prim.Native.Nat.{zero, suc}

-- A `number`: a natural number, the negative integer -(n + 1), a number between n and n + 1 with a mark
-- that tells it from the others there, or `NaN`. Negative fractions and the infinities are left out.
pub data Number : Type 0 where
  nat : ℕ → Number
  negative : ℕ → Number
  fraction : ℕ → ℕ → Number
  not_a_number : Number

-- `Number.isInteger(value) && value >= 0 && value <= maximum`
abbrev pub is_uint : ℕ → Number → Bool
is_uint maximum (nat n) = leb n maximum
is_uint maximum (negative n) = false
is_uint maximum (fraction n mark) = false
is_uint maximum not_a_number = false

-- The natural number behind a value that passed `is_uint`.
abbrev pub to_nat : Number → ℕ
to_nat (nat n) = n
to_nat (negative n) = 0
to_nat (fraction n mark) = 0
to_nat not_a_number = 0

abbrev pub AllBytes : List ℕ → Type 0
AllBytes [] = Unit {0}
AllBytes (b ∷ bs) = (b < 256) × AllBytes bs

-- `setUint16` and `setUint32`, big endian.
abbrev pub uint16_bytes : ℕ → List ℕ
uint16_bytes n = (n / 256 % 256) ∷ (n % 256) ∷ []

abbrev pub uint32_bytes : ℕ → List ℕ
uint32_bytes n = (n / 16777216 % 256) ∷ (n / 65536 % 256) ∷ (n / 256 % 256) ∷ (n % 256) ∷ []

abbrev pub word16 : ℕ → ℕ → ℕ
word16 a b = a * 256 + b

abbrev pub word32 : ℕ → ℕ → ℕ → ℕ → ℕ
word32 a b c d = ((a * 256 + b) * 256 + c) * 256 + d

pub AllBytes-append : (xs ys : List ℕ) → AllBytes xs → AllBytes ys → AllBytes (xs ++ ys)
AllBytes-append [] ys hx hy = hy
AllBytes-append (x ∷ xs) ys hx hy = (hx.0, AllBytes-append xs ys hx.1 hy)

pub AllBytes-append_right : (xs ys : List ℕ) → AllBytes (xs ++ ys) → AllBytes ys
AllBytes-append_right [] ys h = h
AllBytes-append_right (x ∷ xs) ys h = AllBytes-append_right xs ys h.1

pub AllBytes-append_left : (xs ys : List ℕ) → AllBytes (xs ++ ys) → AllBytes xs
AllBytes-append_left [] ys h = tt
AllBytes-append_left (x ∷ xs) ys h = (h.0, AllBytes-append_left xs ys h.1)

pub word32_of_uint32 :
    (n : ℕ)
    → n ≤ 4294967295
    → word32 (n / 16777216 % 256) (n / 65536 % 256) (n / 256 % 256) (n % 256) ≡ n
word32_of_uint32 n h = omega arith

pub word16_of_uint16 : (n : ℕ) → n ≤ 65535 → word16 (n / 256 % 256) (n % 256) ≡ n
word16_of_uint16 n h = omega arith

pub word32-le : (a b c d : ℕ) → a < 256 → b < 256 → c < 256 → d < 256 → word32 a b c d ≤ 4294967295
word32-le a b c d ha hb hc hd = omega arith

pub uint32_bytes-word32 :
    (a b c d : ℕ)
    → a < 256
    → b < 256
    → c < 256
    → d < 256
    → uint32_bytes (word32 a b c d) ≡ a ∷ b ∷ c ∷ d ∷ []
uint32_bytes-word32 a b c d ha hb hc hd = ground arith

pub uint16_bytes-word16 : (a b : ℕ) → a < 256 → b < 256 → uint16_bytes (word16 a b) ≡ a ∷ b ∷ []
uint16_bytes-word16 a b ha hb = ground arith

pub AllBytes-get_or : (xs : List ℕ) (i : ℕ) → AllBytes xs → get_or xs i 0 < 256
AllBytes-get_or [] i h = omega arith
AllBytes-get_or (x ∷ xs) zero h = h.0
AllBytes-get_or (x ∷ xs) (suc i) h = AllBytes-get_or xs i h.1

pub AllBytes-set : (xs : List ℕ) (i v : ℕ) → AllBytes xs → v < 256 → AllBytes (set xs i v)
AllBytes-set [] i v h hv = tt
AllBytes-set (x ∷ xs) zero v h hv = (hv, h.1)
AllBytes-set (x ∷ xs) (suc i) v h hv = (h.0, AllBytes-set xs i v h.1 hv)

pub AllBytes-replicate : (n v : ℕ) → v < 256 → AllBytes (replicate n v)
AllBytes-replicate zero v h = tt
AllBytes-replicate (suc n) v h = (h, AllBytes-replicate n v h)

pub AllBytes-take : (n : ℕ) (xs : List ℕ) → AllBytes xs → AllBytes (take n xs)
AllBytes-take n xs h =
    AllBytes-append_left (take n xs) (drop n xs) (subst AllBytes (sym (take-append-drop n xs)) h)

pub AllBytes-drop : (n : ℕ) (xs : List ℕ) → AllBytes xs → AllBytes (drop n xs)
AllBytes-drop n xs h =
    AllBytes-append_right (take n xs) (drop n xs) (subst AllBytes (sym (take-append-drop n xs)) h)

-- The test for `AllBytes`, which computes on a list that is written out.
abbrev pub all_bytes : List ℕ → Bool
all_bytes [] = true
all_bytes (b ∷ bs) = ltb b 256 && all_bytes bs

pub all_bytes→AllBytes : (bs : List ℕ) → all_bytes bs ≡ true → AllBytes bs
all_bytes→AllBytes [] h = tt
all_bytes→AllBytes (b ∷ bs) h =
    let (small, rest) = &&-eq-true (ltb b 256) (all_bytes bs) h in
    (ltb→lt b 256 small, all_bytes→AllBytes bs rest)
