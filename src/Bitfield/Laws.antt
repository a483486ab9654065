-- ===== src/Bitfield/Laws.antt =====
-- `Bitfield` as an array of bits: the invariant of its buffer, `get` after each operation, and
-- the serialised form.
use browsertorrent.Common.{
  ℕ, ◌+◌, ◌*◌, ◌-◌, ◌/◌, ◌%◌, ◌≤◌, ◌<◌, ◌≡◌, refl, sym, ap, ◌∙◌, true, false, List, [], ◌↔◌, ◌⊎◌,
  arith, ltb, leb, ◌==◌, if◌then◌else◌, Bool-cases, inl, inr, ==_iff, leb→le, ltb→lt, lt→ltb,
  lt_of_not_leb, length, get_or, replicate, length-set, length-append, length-replicate, ok, err,
  >>=-eq-ok, guard, guard-eq-ok, ok-injective,
}
use browsertorrent.Common.Int.{ℤ, pos, negsuc}
use browsertorrent.Common.Words.{AllBytes, AllBytes-get_or, AllBytes-append, AllBytes-replicate}
use browsertorrent.Bitfield.{
  Bitfield, BitfieldError, invalid_buffer_length, spare_bits_non_zero, negative_index,
  index_out_of_range, Grow, fixed, growing, by, byte_length, spare_bits, spare_clear, new,
  from_bytes, raw_bit, get, resize, set_raw, clear_raw, set_in_range, grown_length, set, unset,
  to_buffer,
}
use browsertorrent.Bitfield.Bytes
use browsertorrent.Bitfield.Raw
use mathlib.Core.Path.{subst}

-- The buffer has the bytes that the length asks for, and the bits past the length are off.
pub record IsValid (bf : Bitfield) : Type 0 where
  pub size : length bf.buffer ≡ byte_length bf.length
  pub bytes : AllBytes bf.buffer
  pub spare : (i : ℕ) → bf.length ≤ i → raw_bit bf.buffer i ≡ false

-- On a valid bitfield, `get` is the bit of the buffer at every index.
get-raw_bit : (bf : Bitfield) → IsValid bf → (i : ℕ) → get bf (pos i) ≡ raw_bit bf.buffer i
unfolding get
get-raw_bit bf v i = elim (Bool-cases (leb bf.length i)) [
  | inl e ↦ rw (e, v.spare i (leb→le _ _ e))
  | inr e ↦ rw e
]

-- The constructor makes a valid bitfield with every bit off.
pub new_lem : (n : ℕ) (g : Grow) → IsValid (new n g) × ((i : ℤ) → get (new n g) i ≡ false)
unfolding new
new_lem n g = (
  record {
    size = length-replicate (byte_length n) 0;
    bytes = AllBytes-replicate (byte_length n) 0 (omega arith);
    spare = λ i le. zeros i;
  },
  elim [ negsuc i ↦ unfold get in refl | pos i ↦ unfold get in ground (arith, zeros i) ],
)
  where
    zeros : (i : ℕ) → raw_bit (replicate (byte_length n) 0) i ≡ false
    zeros i =
        Raw.raw_bit-append_replicate [] (byte_length n) i ∙ Raw.raw_bit_past [] i (omega arith)

resize-IsValid : (bf : Bitfield) (n : ℕ) → bf.length ≤ n → IsValid bf → IsValid (resize bf n)
unfolding resize
resize-IsValid bf n h v = record {
  size = rw (length-append, length-replicate) (omega (arith, v.size));
  bytes = AllBytes-append bf.buffer _ v.bytes (AllBytes-replicate _ 0 (omega arith));
  spare = λ i le. Raw.raw_bit-append_replicate bf.buffer _ i ∙ v.spare i (omega arith);
}

set_in_range_lem :
    (bf : Bitfield) (i : ℕ)
    → IsValid bf
    → i < bf.length
    → IsValid (set_in_range bf i)
      × ((j : ℕ) → get (set_in_range bf i) (pos j) ≡ (if i == j then true else get bf (pos j)))
set_in_range_lem bf i v h =
    let inside : i / 8 < length bf.buffer = omega (arith, v.size) in
    let bits = Raw.raw_bit-set_raw bf.buffer v.bytes i inside in
    let valid : IsValid (set_in_range bf i) = record {
      size = unfold set_raw in length-set bf.buffer (i / 8) _ ∙ v.size;
      bytes = Raw.set_raw-AllBytes bf.buffer v.bytes i;
      spare =
          λ j le. bits j ∙ (let far : (i == j) ≡ false = ground arith in rw (far, v.spare j le));
    } in
    (valid, λ j. get-raw_bit (set_in_range bf i) valid j ∙ bits j ∙ rw (get-raw_bit bf v j))

pub grown_length-le :
    (g : Grow) (n i : ℕ) {m : ℕ} → n ≤ i → grown_length g n i ≡ ok m → (n ≤ m) × (i < m)
unfolding grown_length
grown_length-le fixed n i h e = cc
grown_length-le growing n i h e = ground arith
grown_length-le (by step) n i h e = ground arith

-- What a successful `set` makes of a bitfield.
pub record SetsBit (bf : Bitfield) (i : ℕ) (bf' : Bitfield) : Type 0 where
  pub valid : IsValid bf'
  pub bits : (j : ℕ) → get bf' (pos j) ≡ (if i == j then true else get bf (pos j))
  pub covers : i < bf'.length
  pub keeps : bf.length ≤ bf'.length
  pub same_grow : bf'.grow ≡ bf.grow

set_resized :
    (bf : Bitfield) (i n : ℕ)
    → IsValid bf
    → bf.length ≤ n
    → i < n
    → SetsBit bf i (set_in_range (resize bf n) i)
unfolding resize
set_resized bf i n v le lt =
    let big : IsValid (resize bf n) = resize-IsValid bf n le v in
    let same : (j : ℕ) → get (resize bf n) (pos j) ≡ get bf (pos j) = λ j.
      get-raw_bit (resize bf n) big j
      ∙ Raw.raw_bit-append_replicate bf.buffer _ j
      ∙ sym (get-raw_bit bf v j) in
    let lt' : i < (resize bf n).length = lt in
    let (valid, bits) = set_in_range_lem (resize bf n) i big lt' in
    record {
      valid = valid;
      bits = λ j. bits j ∙ rw (same j);
      covers = lt';
      keeps = le;
      same_grow = refl;
    }

-- On a valid bitfield, a successful `set` keeps it valid and its `grow`, turns the bit at the index
-- on and keeps every other bit, also where the bitfield grows to reach the index. The new length covers
-- the index, and is no smaller than the old one.
pub get-set : (bf bf' : Bitfield) (i : ℕ) → IsValid bf → set bf (pos i) ≡ ok bf' → SetsBit bf i bf'
unfolding set
get-set bf bf' i v h = elim (Bool-cases (leb bf.length i)) [
  | inl past ↦
      let (n, grown, e) = >>=-eq-ok (grown_length bf.grow bf.length i) _ (rw past at h) in
      let (le, lt) = grown_length-le bf.grow bf.length i (leb→le _ _ past) grown in
      subst (SetsBit bf i) (ok-injective e) (set_resized bf i n v le lt)
  | inr inside ↦
      let lt : i < bf.length = ground arith in
      let (valid, bits) = set_in_range_lem bf i v lt in
      subst (SetsBit bf i) (ok-injective (rw inside at h))
        (record { valid = valid; bits = bits; covers = lt; keeps = omega arith; same_grow = refl })
]

grown_length-err :
    (g : Grow) (n i : ℕ) (e : BitfieldError)
    → grown_length g n i ≡ err e
    → (g ≡ fixed) × (e ≡ index_out_of_range)
unfolding grown_length
grown_length-err fixed n i e h = (refl, cc)
grown_length-err growing n i e h = cc
grown_length-err (by step) n i e h = cc

-- `set` fails in two cases only: at a negative index, and past the end of a bitfield that is not
-- allowed to grow.
pub set_fails :
    (bf : Bitfield) (i : ℤ) (e : BitfieldError)
    → (set bf i ≡ err e) ↔ (
        ((n : ℕ) × (i ≡ negsuc n) × (e ≡ negative_index))
        ⊎ ((n : ℕ) × (i ≡ pos n) × (bf.length ≤ n) × (bf.grow ≡ fixed) × (e ≡ index_out_of_range)))
unfolding set
set_fails bf (negsuc n) e = (
  λ h. inl (n, refl, cc),
  elim [ inl (m, _, why) ↦ ap err (sym why) | inr (m, at, _, _, _) ↦ cc ],
)
set_fails bf (pos n) e = (
  λ h. elim (Bool-cases (leb bf.length n)) [
    | inl past ↦
        let out : (bf.grow ≡ fixed) × (e ≡ index_out_of_range) =
          ground (arith, grown_length-err bf.grow bf.length n e) in
        inr (n, refl, leb→le _ _ past, out.0, out.1)
    | inr inside ↦ absurd (ground arith)
  ],
  elim [
    | inl (m, at, _) ↦ cc
    | inr (m, at, past, rigid, why) ↦ unfold grown_length in ground arith
  ],
)

-- `unset` keeps a valid bitfield valid and of its length. It turns the bit at the index off, at any
-- index, and keeps every other bit.
pub get-unset :
    (bf : Bitfield) (i : ℕ)
    → IsValid bf
    → IsValid (unset bf (pos i))
      × ((j : ℕ) → get (unset bf (pos i)) (pos j) ≡ (if i == j then false else get bf (pos j)))
      × ((unset bf (pos i)).length ≡ bf.length)
unfolding unset
get-unset bf i v = elim (Bool-cases (leb bf.length i)) [
  | inl past ↦ rw past (
    v,
    λ j. elim (Bool-cases (i == j)) [ inl e ↦ unfold get in ground arith | inr e ↦ rw e ],
    refl,
  )
  | inr inside ↦
      let cell : i / 8 < length bf.buffer = omega (arith, v.size, lt_of_not_leb _ _ inside) in
      let bits = Raw.raw_bit-clear_raw bf.buffer v.bytes i cell in
      let bf' : Bitfield = record bf { buffer = clear_raw bf.buffer i } in
      let valid : IsValid bf' = record {
        size = unfold clear_raw in length-set bf.buffer (i / 8) _ ∙ v.size;
        bytes = Raw.clear_raw-AllBytes bf.buffer v.bytes i;
        spare = λ j le. bits j ∙ ground (arith, v.spare j le);
      } in
      rw inside (valid, λ j. get-raw_bit bf' valid j ∙ bits j ∙ rw (get-raw_bit bf v j), refl)
]

-- `fromBytes` on the bytes, the length and the `grow` of a valid bitfield gives it back.
pub from_bytes-to_buffer :
    (bf : Bitfield) → IsValid bf → from_bytes (to_buffer bf) bf.length bf.grow ≡ ok bf
unfolding from_bytes to_buffer
from_bytes-to_buffer bf v =
    let n : ℕ = bf.length in
    let size : (length bf.buffer == byte_length n) ≡ true = (==_iff _ _).1 v.size in
    let last : ℕ = length bf.buffer - 1 in
    let clear : (if ltb 0 (spare_bits n)
          then spare_clear (get_or bf.buffer last 0) (spare_bits n)
          else true)
        ≡ true =
      elim (Bool-cases (ltb 0 (spare_bits n))) [
        | inl some' ↦ rw some' (
            Bytes.spare_clear_complete _ (AllBytes-get_or bf.buffer last v.bytes) (spare_bits n)
              (omega arith)
              (λ k hk far.
                sym (Raw.raw_bit_at bf.buffer last k hk)
                ∙ v.spare (last * 8 + k) (omega (arith, ltb→lt _ _ some', v.size))))
        | inr none' ↦ rw none'
      ] in
    rw (size, clear)

-- Of a buffer of bytes that `fromBytes` accepts it makes a valid bitfield with these bytes, the
-- length and the `grow` that were given.
pub from_bytes-IsValid :
    (buffer : List ℕ) (n : ℕ) (g : Grow) {bf : Bitfield}
    → AllBytes buffer
    → from_bytes buffer n g ≡ ok bf
    → IsValid bf × (to_buffer bf ≡ buffer) × (bf.length ≡ n) × (bf.grow ≡ g)
unfolding from_bytes to_buffer
from_bytes-IsValid buffer n g {bf} bytes h =
    let (u, test, h1) =
      >>=-eq-ok (guard (length buffer == byte_length n) invalid_buffer_length) _ h in
    let size : length buffer ≡ byte_length n = (==_iff _ _).0 (guard-eq-ok _ _ test) in
    let last : ℕ = length buffer - 1 in
    let (w, test', e) =
      >>=-eq-ok
        (guard
          (if ltb 0 (spare_bits n) then spare_clear (get_or buffer last 0) (spare_bits n) else true)
          spare_bits_non_zero)
        _ h1 in
    let clear = guard-eq-ok _ _ test' in
    let off : (i : ℕ) → n ≤ i → raw_bit buffer i ≡ false = λ i le.
      elim (Bool-cases (leb (length buffer) (i / 8))) [
        | inl past ↦ Raw.raw_bit_past buffer i (leb→le _ _ past)
        | inr inside ↦
            let lt : i / 8 < length buffer = lt_of_not_leb _ _ inside in
            let cell : i / 8 ≡ last = omega (arith, size) in
            let some' : ltb 0 (spare_bits n) ≡ true = lt→ltb _ _ (omega (arith, size)) in
            unfold raw_bit in
            rw cell (
              Bytes.spare_clear_sound _ (AllBytes-get_or buffer last bytes) (spare_bits n) (i % 8)
                (omega arith) (omega arith) (omega (arith, size)) (rw some' at clear))
      ] in
    let made : IsValid (record { buffer = buffer; length = n; grow = g }) = record {
      size = size;
      bytes = bytes;
      spare = off;
    } in
    subst (λ t. IsValid t × (t.buffer ≡ buffer) × (t.length ≡ n) × (t.grow ≡ g)) (ok-injective e)
      (made, refl, refl, refl)
