-- ===== src/Bitfield/Raw.antt =====
-- The bits of a buffer, at every index: setting or clearing one changes that bit alone.
use browsertorrent.Common.{
  ℕ, ◌*◌, ◌+◌, ◌/◌, ◌%◌, ◌≤◌, ◌<◌, ◌≡◌, true, false, List, ◌++◌, arith, ◌==◌, if◌then◌else◌,
  Bool-cases, inl, inr, ==_iff, length, get_or, replicate, get_or-set_self, get_or-set_ne,
  get_or_past, get_or-append_replicate,
}
use browsertorrent.Common.Words.{AllBytes, AllBytes-get_or, AllBytes-set}
use browsertorrent.Bitfield.{test_bit, or_bit, clear_bit, raw_bit, set_raw, clear_raw}
use browsertorrent.Bitfield.Bytes

module _ (buffer : List ℕ) (bytes : AllBytes buffer) (i : ℕ) where
  byte-lt : get_or buffer (i / 8) 0 < 256
  byte-lt = AllBytes-get_or buffer (i / 8) bytes

  pub set_raw-AllBytes : AllBytes (set_raw buffer i)
  unfolding set_raw
  set_raw-AllBytes =
      AllBytes-set buffer (i / 8) _ bytes (Bytes.or_bit-lt _ byte-lt (i % 8) (omega arith))

  pub clear_raw-AllBytes : AllBytes (clear_raw buffer i)
  unfolding clear_raw
  clear_raw-AllBytes =
      AllBytes-set buffer (i / 8) _ bytes (Bytes.clear_bit-lt _ byte-lt (i % 8) (omega arith))

  module _ (inside : i / 8 < length buffer) (j : ℕ) where
    pub raw_bit-set_raw : raw_bit (set_raw buffer i) j ≡ (if i == j then true else raw_bit buffer j)
    unfolding raw_bit set_raw
    raw_bit-set_raw = elim (Bool-cases (i / 8 == j / 8)) [
      | inl e ↦
          let near : i / 8 ≡ j / 8 = (==_iff _ _).0 e in
          let bits : (i % 8 == j % 8) ≡ (i == j) = ground arith in
          rw
            (
              ← near,
              get_or-set_self buffer (i / 8) (or_bit (get_or buffer (i / 8) 0) (i % 8)) 0 inside,
              ← bits,
            )
            (Bytes.test_bit-or_bit _ byte-lt (i % 8) (j % 8) (omega arith) (omega arith))
      | inr e ↦
          let other : (i == j) ≡ false = ground arith in
          rw (
            get_or-set_ne buffer (i / 8) (j / 8) (or_bit (get_or buffer (i / 8) 0) (i % 8)) 0
                (ground arith),
            other,
          )
    ]

    pub raw_bit-clear_raw :
        raw_bit (clear_raw buffer i) j ≡ (if i == j then false else raw_bit buffer j)
    unfolding raw_bit clear_raw
    raw_bit-clear_raw = elim (Bool-cases (i / 8 == j / 8)) [
      | inl e ↦
          let near : i / 8 ≡ j / 8 = (==_iff _ _).0 e in
          let bits : (i % 8 == j % 8) ≡ (i == j) = ground arith in
          rw
            (
              ← near,
              get_or-set_self buffer (i / 8) (clear_bit (get_or buffer (i / 8) 0) (i % 8)) 0 inside,
              ← bits,
            )
            (Bytes.test_bit-clear_bit _ byte-lt (i % 8) (j % 8) (omega arith) (omega arith))
      | inr e ↦
          let other : (i == j) ≡ false = ground arith in
          rw (
            get_or-set_ne buffer (i / 8) (j / 8) (clear_bit (get_or buffer (i / 8) 0) (i % 8)) 0
                (ground arith),
            other,
          )
    ]

pub raw_bit_past : (buffer : List ℕ) (i : ℕ) → length buffer ≤ i / 8 → raw_bit buffer i ≡ false
unfolding raw_bit
raw_bit_past buffer i h = rw (get_or_past buffer (i / 8) 0 h) (Bytes.test_bit-zero (i % 8))

pub raw_bit-append_replicate :
    (buffer : List ℕ) (n i : ℕ) → raw_bit (buffer ++ replicate n 0) i ≡ raw_bit buffer i
unfolding raw_bit
raw_bit-append_replicate buffer n i = rw (get_or-append_replicate buffer n (i / 8) 0)

pub raw_bit_at :
    (buffer : List ℕ) (b k : ℕ)
    → k < 8
    → raw_bit buffer (b * 8 + k) ≡ test_bit (get_or buffer b 0) k
unfolding raw_bit
raw_bit_at buffer b k h =
    let byte : (b * 8 + k) / 8 ≡ b = omega arith in
    let bit : (b * 8 + k) % 8 ≡ k = omega arith in rw (byte, bit)
