-- ===== src/Bitfield/Count.antt =====
-- `count` after `set` and `unset`.
use browsertorrent.Common.{
  ℕ, zero, suc, ◌+◌, ◌≤◌, ◌<◌, ◌≡◌, refl, ap, ◌∙◌, Bool, true, false, arith, leb, ◌==◌,
  if◌then◌else◌, Bool-cases, inl, inr, ok, lt_of_not_leb, leb→le, ==_iff,
}
use browsertorrent.Common.Int.{pos}
use native.Mathlib.Nat.{zero-add}
use browsertorrent.Bitfield.{Bitfield, get, set, unset, count_loop, count}
use browsertorrent.Bitfield.Laws.{IsValid, SetsBit, get-set, get-unset}

abbrev as_number : Bool → ℕ
as_number b = if b then 1 else 0

-- The number of bits that are on among the `n` from index `i` on.
count_from : (ℕ → Bool) → ℕ → ℕ → ℕ
count_from p zero i = 0
count_from p (suc n) i = as_number (p i) + count_from p n (i + 1)

abbrev bits : Bitfield → ℕ → Bool
bits bf i = get bf (pos i)

count_loop-count_from :
    (bf : Bitfield) (n i acc : ℕ) → count_loop bf n i acc ≡ acc + count_from (bits bf) n i
unfolding count_loop count_from
count_loop-count_from bf zero i acc = omega arith
count_loop-count_from bf (suc n) i acc =
    ground
      (arith, count_loop-count_from bf n (i + 1) acc, count_loop-count_from bf n (i + 1) (acc + 1))

count_from-ext :
    (p q : ℕ → Bool) (n i : ℕ) → ((j : ℕ) → i ≤ j → p j ≡ q j) → count_from p n i ≡ count_from q n i
unfolding count_from
count_from-ext p q zero i h = refl
count_from-ext p q (suc n) i h =
    rw (h i (omega arith), count_from-ext p q n (i + 1) (λ j le. h j (omega arith)))

-- Two sets of bits that differ at `k` alone.
count_from-update :
    (p q : ℕ → Bool) (k : ℕ) (v : Bool) (n i : ℕ)
    → ((j : ℕ) → q j ≡ (if k == j then v else p j))
    → i ≤ k
    → k < i + n
    → count_from q n i + as_number (p k) ≡ count_from p n i + as_number v
unfolding count_from
count_from-update p q k v zero i h le lt = absurd (omega arith)
count_from-update p q k v (suc n) i h le lt = elim (Bool-cases (k == i)) [
  | inl e ↦
      let here : k ≡ i = (==_iff k i).0 e in
      let on : q i ≡ v = h i ∙ rw e in
      let rest : count_from q n (i + 1) ≡ count_from p n (i + 1) =
        count_from-ext q p n (i + 1)
          (λ j far. h j ∙ (let apart : (k == j) ≡ false = ground arith in rw apart)) in
      omega (arith, ap as_number on, ap (λ t. as_number (p t)) here, rest)
  | inr e ↦ ground (arith, h i, count_from-update p q k v n (i + 1) h)
]

-- Bits past the end are off.
count_from_none : (p : ℕ → Bool) (m i : ℕ) → ((j : ℕ) → i ≤ j → p j ≡ false) → count_from p m i ≡ 0
unfolding count_from
count_from_none p zero i h = refl
count_from_none p (suc m) i h =
    rw (h i (omega arith), count_from_none p m (i + 1) (λ j le. h j (omega arith)))

count_from_past :
    (p : ℕ → Bool) (n m i : ℕ)
    → ((j : ℕ) → i + n ≤ j → p j ≡ false)
    → n ≤ m
    → count_from p m i ≡ count_from p n i
unfolding count_from
count_from_past p zero m i h le = count_from_none p m i (λ j far. h j (omega arith))
count_from_past p (suc n) zero i h le = absurd (omega arith)
count_from_past p (suc n) (suc m) i h le =
    ap (λ t. as_number (p i) + t)
      (count_from_past p n m (i + 1) (λ j far. h j (omega arith)) (omega arith))

count_from-le : (p : ℕ → Bool) (n i : ℕ) → count_from p n i ≤ n
unfolding count_from
count_from-le p zero i = omega arith
count_from-le p (suc n) i = ground (arith, count_from-le p n (i + 1))

count-count_from : (bf : Bitfield) → count bf ≡ count_from (bits bf) bf.length 0
unfolding count
count-count_from bf = count_loop-count_from bf bf.length 0 0 ∙ zero-add _

get_past : (bf : Bitfield) (j : ℕ) → bf.length ≤ j → get bf (pos j) ≡ false
unfolding get
get_past bf j h = ground arith

-- `count` is at most the length.
pub count-le-length : (bf : Bitfield) → count bf ≤ bf.length
count-le-length bf = omega (arith, count-count_from bf, count_from-le (bits bf) bf.length 0)

-- On a valid bitfield, a successful `set` adds one to the count if the bit was off, and nothing if it was on.
pub count-set :
    (bf bf' : Bitfield) (i : ℕ)
    → IsValid bf
    → set bf (pos i) ≡ ok bf'
    → count bf' ≡ (if get bf (pos i) then count bf else count bf + 1)
count-set bf bf' i v h =
    let s : SetsBit bf i bf' = get-set bf bf' i v h in
    let moved =
      count_from-update (bits bf) (bits bf') i true bf'.length 0 s.bits (omega arith)
        (omega (arith, s.covers)) in
    let same =
      count_from_past (bits bf) bf.length bf'.length 0 (λ j far. get_past bf j (omega arith))
        s.keeps in
    ground (arith, moved, same, count-count_from bf', count-count_from bf)

-- On a valid bitfield, `unset` takes one from the count if the bit was on, and nothing if it was off.
pub count-unset :
    (bf : Bitfield) (i : ℕ)
    → IsValid bf
    → count bf ≡ (if get bf (pos i) then count (unset bf (pos i)) + 1 else count (unset bf (pos i)))
count-unset bf i v = elim (Bool-cases (leb bf.length i)) [
  | inl past ↦ unfold unset in ground (arith, get_past bf i (leb→le _ _ past))
  | inr inside ↦
      let (valid, off, len) = get-unset bf i v in
      let moved =
        count_from-update (bits bf) (bits (unset bf (pos i))) i false bf.length 0 off (omega arith)
          (omega (arith, lt_of_not_leb _ _ inside)) in
      let counted : count (unset bf (pos i)) ≡ count_from (bits (unset bf (pos i))) bf.length 0 =
        count-count_from (unset bf (pos i))
        ∙ ap (λ t. count_from (bits (unset bf (pos i))) t 0) len in
      ground (arith, moved, counted, count-count_from bf)
]
