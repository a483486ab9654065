-- ===== src/Common/Tables.antt =====
-- Facts about all numbers below a bound, checked by evaluation.
use Prim.Native.Nat.{ℕ, zero, suc, ◌<◌}
use mathlib.Core.Path.{◌≡◌, refl}
use mathlib.Core.Bool.{Bool, true, false, ◌&&◌, not}
use native.Mathlib.Omega.{arith}

unfoldable pub holds_below : ℕ → (ℕ → Bool) → Bool
holds_below (suc bound) test = holds_below bound test && test bound
holds_below zero test = true

pub holds_below_sound :
    (bound : ℕ) (test : ℕ → Bool) (i : ℕ)
    → holds_below bound test ≡ true
    → i < bound
    → test i ≡ true
unfolding holds_below
holds_below_sound (suc bound) test i h lt = ground (arith, holds_below_sound bound test i)
holds_below_sound zero test i h lt = absurd (omega arith)

pub holds_below_complete :
    (n : ℕ) (p : ℕ → Bool) → ((x : ℕ) → x < n → p x ≡ true) → holds_below n p ≡ true
unfolding holds_below
holds_below_complete zero test h = refl
holds_below_complete (suc bound) test h =
    rw (holds_below_complete bound test (λ i lt. h i (omega arith))) (h bound (omega arith))

-- Equality of two tests, as a test.
abbrev pub same : Bool → Bool → Bool
same true b = b
same false b = not b

pub same_eq : (a b : Bool) → same a b ≡ true → a ≡ b
same_eq true b h = ground arith
same_eq false true h = cc
same_eq false false h = refl
