-- ===== src/Handshake/Extensions.antt =====
-- The reserved bits of the handshake: setting or clearing one extension changes that one alone.
use browsertorrent.Common.{
  ℕ, ◌-◌, ◌^◌, ◌<◌, ◌≡◌, ◌≢◌, refl, bit_and, bit_or, Bool, true, false, not, ◌&&◌, ◌||◌, ◌⊎◌, arith,
  ◌==◌, if◌then◌else◌, ltb, ltb→lt, &&-eq-true, ==_iff,
}
use browsertorrent.Common.Tables.{holds_below, holds_below_sound, same, same_eq}
use browsertorrent.Handshake.{
  HandshakeExtension, fast, extension_protocol, dht, v2, extension_byte, extension_mask,
}

abbrev pub extension_index : HandshakeExtension → ℕ
extension_index fast = 1
extension_index extension_protocol = 2
extension_index dht = 0
extension_index v2 = 2

pub mask_lem : (e : HandshakeExtension) → extension_mask e ≡ 4 ^ extension_index e
mask_lem fast = refl
mask_lem extension_protocol = refl
mask_lem dht = refl
mask_lem v2 = refl

pub index-lt : (e : HandshakeExtension) → extension_index e < 3
index-lt fast = omega arith
index-lt extension_protocol = omega arith
index-lt dht = omega arith
index-lt v2 = omega arith

pub byte-lt : (e : HandshakeExtension) → extension_byte e < 8
byte-lt fast = omega arith
byte-lt extension_protocol = omega arith
byte-lt dht = omega arith
byte-lt v2 = omega arith

-- Two extensions stand in two bytes, or under two masks of one.
pub apart :
    (e e' : HandshakeExtension)
    → e ≢ e'
    → (extension_byte e ≢ extension_byte e') ⊎ (extension_index e ≢ extension_index e')
apart e e' h = ground arith

-- `byte` after the extension's bit is set or cleared.
abbrev pub with_bit : ℕ → ℕ → Bool → ℕ
with_bit b m on = if on then bit_or b m else bit_and b (4294967295 - m)

abbrev pub has_bit : ℕ → ℕ → Bool
has_bit b m = not (bit_and b m == 0)

abbrev agrees : Bool → ℕ → ℕ → ℕ → Bool
agrees on b k j =
    same (has_bit (with_bit b (4 ^ k) on) (4 ^ j)) (if k == j then on else has_bit b (4 ^ j))

bit_table :
    holds_below 256
      (λ b. holds_below 3 (λ k. holds_below 3 (λ j. agrees true b k j && agrees false b k j)))
    ≡ true
unfolding holds_below
bit_table = refl

range_table :
    holds_below 256 (λ b.
      holds_below 3 (λ k. ltb (with_bit b (4 ^ k) true) 256 && ltb (with_bit b (4 ^ k) false) 256))
    ≡ true
unfolding holds_below
range_table = refl

-- A bit that is on stays as it is when it is set.
again_table :
    holds_below 256 (λ b. holds_below 3 (λ k. not (has_bit b (4 ^ k)) || (bit_or b (4 ^ k) == b)))
    ≡ true
unfolding holds_below
again_table = refl

module _ (b : ℕ) (hb : b < 256) where
  pub has_bit-with_bit :
      (k j : ℕ) (on : Bool)
      → k < 3
      → j < 3
      → has_bit (with_bit b (4 ^ k) on) (4 ^ j) ≡ (if k == j then on else has_bit b (4 ^ j))
  has_bit-with_bit k j on hk hj =
      let both =
        holds_below_sound 3 (λ j. agrees true b k j && agrees false b k j) j
          (holds_below_sound 3 (λ k. holds_below 3 (λ j. agrees true b k j && agrees false b k j)) k
            (holds_below_sound 256
              (λ b.
                holds_below 3 (λ k. holds_below 3 (λ j. agrees true b k j && agrees false b k j)))
              b bit_table hb)
            hk)
          hj in
      let (yes', no') = &&-eq-true (agrees true b k j) (agrees false b k j) both in
      (elim on
        as (λ on.
          has_bit (with_bit b (4 ^ k) on) (4 ^ j) ≡ (if k == j then on else has_bit b (4 ^ j))) [
            | true ↦ same_eq _ _ yes'
            | false ↦ same_eq _ _ no'
          ])

  pub with_bit-lt : (k : ℕ) (on : Bool) → k < 3 → with_bit b (4 ^ k) on < 256
  with_bit-lt k on hk =
      let both =
        holds_below_sound 3
          (λ k. ltb (with_bit b (4 ^ k) true) 256 && ltb (with_bit b (4 ^ k) false) 256) k
          (holds_below_sound 256
            (λ b.
              holds_below 3
                (λ k. ltb (with_bit b (4 ^ k) true) 256 && ltb (with_bit b (4 ^ k) false) 256))
            b range_table hb)
          hk in
      let (yes', no') =
        &&-eq-true (ltb (with_bit b (4 ^ k) true) 256) (ltb (with_bit b (4 ^ k) false) 256) both in
      (elim on as (λ on. with_bit b (4 ^ k) on < 256) [
        | true ↦ ltb→lt _ _ yes'
        | false ↦ ltb→lt _ _ no'
      ])

  pub with_bit_again : (k : ℕ) → k < 3 → has_bit b (4 ^ k) ≡ true → bit_or b (4 ^ k) ≡ b
  with_bit_again k hk on =
      let one =
        holds_below_sound 3 (λ k. not (has_bit b (4 ^ k)) || (bit_or b (4 ^ k) == b)) k
          (holds_below_sound 256
            (λ b. holds_below 3 (λ k. not (has_bit b (4 ^ k)) || (bit_or b (4 ^ k) == b))) b
            again_table hb)
          hk in
      (==_iff _ _).0 (rw on at one)
