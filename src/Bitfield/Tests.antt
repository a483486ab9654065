-- ===== src/Bitfield/Tests.antt =====
-- A bitfield of ten bits, written out.
use browsertorrent.Common.{◌≡◌, refl, [], ◌∷◌, ok, err}
use browsertorrent.Common.Int.{pos}
use browsertorrent.Common.Words.{all_bytes→AllBytes}
use browsertorrent.Bitfield.{
  Bitfield, new, fixed, by, get, set, unset, count, count_loop, grown_length, from_bytes, resize,
  raw_bit, test_bit, or_bit, clear_bit, set_raw, clear_raw, spare_clear, spare_bits_non_zero,
}
use browsertorrent.Bitfield.Laws.{IsValid, SetsBit, get-set, from_bytes-IsValid}

abbrev ten_bits : Bitfield
ten_bits = record { buffer = 0 ∷ 0 ∷ []; length = 10; grow = by 4 }

abbrev third_on : Bitfield
third_on = record { buffer = 16 ∷ 0 ∷ []; length = 10; grow = by 4 }

-- Bit 15 lies past the end: the bitfield grows to 16 bits.
abbrev grown : Bitfield
grown = record { buffer = 16 ∷ 1 ∷ []; length = 16; grow = by 4 }

makes_ten_bits : new 10 (by 4) ≡ ten_bits
unfolding new
makes_ten_bits = refl

sets_third : set ten_bits (pos 3) ≡ ok third_on
unfolding set set_raw or_bit
sets_third = refl

grows : set third_on (pos 15) ≡ ok grown
unfolding set set_raw or_bit grown_length resize
grows = refl

counts : count grown ≡ 2
unfolding count count_loop get raw_bit test_bit
counts = refl

unsets : unset grown (pos 3) ≡ record { buffer = 0 ∷ 1 ∷ []; length = 16; grow = by 4 }
unfolding unset clear_raw clear_bit
unsets = refl

refuses_spare : from_bytes (16 ∷ 32 ∷ []) 10 fixed ≡ err spare_bits_non_zero
unfolding from_bytes spare_clear
refuses_spare = refl

accepts : from_bytes (16 ∷ 0 ∷ []) 10 (by 4) ≡ ok third_on
unfolding from_bytes spare_clear
accepts = refl

abbrev third_on-IsValid : IsValid third_on
third_on-IsValid =
    (from_bytes-IsValid (16 ∷ 0 ∷ []) 10 (by 4) (all_bytes→AllBytes (16 ∷ 0 ∷ []) refl) accepts).0

get-set_example : SetsBit third_on 15 grown
get-set_example = get-set third_on grown 15 third_on-IsValid grows
