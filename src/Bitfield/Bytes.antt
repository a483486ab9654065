-- ===== src/Bitfield/Bytes.antt =====
-- One byte of a bitfield: setting and clearing a bit, by tables over all bytes and bits.
use browsertorrent.Common.{
  ℕ, ◌+◌, ◌<◌, ◌≡◌, refl, Bool, true, false, ◌&&◌, ◌||◌, not, ltb, ◌==◌, if◌then◌else◌, ltb→lt,
  &&-eq-true, sym, ◌∙◌, ◌≤◌, Bool-cases, inl, inr, arith,
}
use browsertorrent.Common.Tables.{
  holds_below, holds_below_sound, holds_below_complete, same, same_eq,
}
use Prim.Native.Nat.{bit_and-bitwise}
use browsertorrent.Bitfield.{mask, test_bit, or_bit, clear_bit, spare_clear}

module _ (p : ℕ → ℕ → ℕ → Bool) where
  abbrev bytes_and_bits : Bool
  bytes_and_bits = holds_below 256 (λ b. holds_below 8 (λ k. holds_below 8 (λ j. p b k j)))

  bytes_and_bits_sound :
      bytes_and_bits ≡ true → (b k j : ℕ) → b < 256 → k < 8 → j < 8 → p b k j ≡ true
  bytes_and_bits_sound h b k j hb hk hj =
      holds_below_sound 8 (p b k) j
        (holds_below_sound 8 (λ k. holds_below 8 (p b k)) k
          (holds_below_sound 256 (λ b. holds_below 8 (λ k. holds_below 8 (p b k))) b h hb) hk)
        hj

or_bit_table :
    bytes_and_bits (λ b k j. same (test_bit (or_bit b k) j) (if k == j then true else test_bit b j))
    ≡ true
unfolding holds_below test_bit or_bit
or_bit_table = refl

clear_bit_table :
    bytes_and_bits
      (λ b k j. same (test_bit (clear_bit b k) j) (if k == j then false else test_bit b j))
    ≡ true
unfolding holds_below test_bit clear_bit
clear_bit_table = refl

range_table :
    holds_below 256 (λ b. holds_below 8 (λ k. ltb (or_bit b k) 256 && ltb (clear_bit b k) 256))
    ≡ true
unfolding holds_below or_bit clear_bit
range_table = refl

spare_table :
    holds_below 256 (λ b.
      holds_below 8
        (λ s. same (spare_clear b s) (holds_below 8 (λ k. ltb (k + s) 8 || not (test_bit b k)))))
    ≡ true
unfolding holds_below test_bit spare_clear
spare_table = refl

module _ (b : ℕ) (hb : b < 256) where
  pub test_bit-or_bit :
      (k j : ℕ) → k < 8 → j < 8 → test_bit (or_bit b k) j ≡ (if k == j then true else test_bit b j)
  test_bit-or_bit k j hk hj = same_eq _ _ (bytes_and_bits_sound _ or_bit_table b k j hb hk hj)

  pub test_bit-clear_bit :
      (k j : ℕ)
      → k < 8
      → j < 8
      → test_bit (clear_bit b k) j ≡ (if k == j then false else test_bit b j)
  test_bit-clear_bit k j hk hj = same_eq _ _ (bytes_and_bits_sound _ clear_bit_table b k j hb hk hj)

  ranges : (k : ℕ) → k < 8 → (ltb (or_bit b k) 256 && ltb (clear_bit b k) 256) ≡ true
  ranges k hk = holds_below_sound 8 _ k (holds_below_sound 256 _ b range_table hb) hk

  pub or_bit-lt : (k : ℕ) → k < 8 → or_bit b k < 256
  or_bit-lt k hk = ltb→lt _ _ (&&-eq-true _ _ (ranges k hk)).0

  pub clear_bit-lt : (k : ℕ) → k < 8 → clear_bit b k < 256
  clear_bit-lt k hk = ltb→lt _ _ (&&-eq-true _ _ (ranges k hk)).1

  spare_clear-eq :
      (s : ℕ) → s < 8 → spare_clear b s ≡ holds_below 8 (λ k. ltb (k + s) 8 || not (test_bit b k))
  spare_clear-eq s hs =
      same_eq _ _ (holds_below_sound 8 _ s (holds_below_sound 256 _ b spare_table hb) hs)

  -- The last `s` bits of a byte are off exactly when the mask of `s` ones finds none.
  pub spare_clear_sound :
      (s k : ℕ) → s < 8 → k < 8 → 8 ≤ k + s → spare_clear b s ≡ true → test_bit b k ≡ false
  spare_clear_sound s k hs hk far h =
      let one =
        holds_below_sound 8 (λ k. ltb (k + s) 8 || not (test_bit b k)) k
          (sym (spare_clear-eq s hs) ∙ h) hk in
      ground arith

  pub spare_clear_complete :
      (s : ℕ)
      → s < 8
      → ((k : ℕ) → k < 8 → 8 ≤ k + s → test_bit b k ≡ false)
      → spare_clear b s ≡ true
  spare_clear_complete s hs h =
      spare_clear-eq s hs
      ∙ holds_below_complete 8 _ (λ k hk. elim (Bool-cases (ltb (k + s) 8)) [
        | inl e ↦ rw e
        | inr e ↦ rw (e, h k hk (ground arith))
      ])

pub test_bit-zero : (k : ℕ) → test_bit 0 k ≡ false
unfolding test_bit
test_bit-zero k = rw (bit_and-bitwise 0 (mask k))
