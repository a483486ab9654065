-- ===== src/Wire/Blocks.antt =====
-- The maps of outstanding blocks: their sizes, and what holds of every block in them.
use browsertorrent.Common.{suc, ◌≤◌, inl, inr, List, [], ◌∷◌, ◌++◌, length, Bool-cases, arith}
use browsertorrent.Message.{BlockRequest}
use browsertorrent.Wire.Transitions.{same_block, set_block, delete_block}

abbrev pub All {ℓ κ} : {A : Type ℓ} → (A → Type κ) → List A → Type κ
All holds [] = Unit {κ}
All holds (b ∷ bs) = holds b × All holds bs

pub All-append {ℓ κ} :
    {A : Type ℓ} (P : A → Type κ) (xs ys : List A) → All P xs → All P ys → All P (xs ++ ys)
All-append P [] ys h k = k
All-append P (x ∷ xs) ys h k = (h.0, All-append P xs ys h.1 k)

pub All-map {ℓ κ μ} :
    {A : Type ℓ} (P : A → Type κ) (Q : A → Type μ) (xs : List A)
    → ((x : A) → P x → Q x)
    → All P xs
    → All Q xs
All-map P Q [] f h = tt
All-map P Q (x ∷ xs) f h = (f x h.0, All-map P Q xs f h.1)

pub length-set_block :
    (r : BlockRequest) (bs : List BlockRequest) → length (set_block r bs) ≤ suc (length bs)
unfolding set_block
length-set_block r [] = omega arith
length-set_block r (b ∷ bs) = elim (Bool-cases (same_block b r)) [
  | inl e ↦ rw e (omega arith)
  | inr e ↦ rw e (omega (arith, length-set_block r bs))
]

pub length-delete_block :
    (r : BlockRequest) (bs : List BlockRequest) → length (delete_block r bs) ≤ length bs
unfolding delete_block
length-delete_block r [] = omega arith
length-delete_block r (b ∷ bs) = elim (Bool-cases (same_block b r)) [
  | inl e ↦ rw e (omega arith)
  | inr e ↦ rw e (omega (arith, length-delete_block r bs))
]

module _ {ℓ} (P : BlockRequest → Type ℓ) where
  pub set_block-All :
      (r : BlockRequest) (bs : List BlockRequest) → P r → All P bs → All P (set_block r bs)
  unfolding set_block
  set_block-All r [] p h = (p, tt)
  set_block-All r (b ∷ bs) p h = elim (Bool-cases (same_block b r)) [
    | inl e ↦ rw e (p, h.1)
    | inr e ↦ rw e (h.0, set_block-All r bs p h.1)
  ]

  pub delete_block-All :
      (r : BlockRequest) (bs : List BlockRequest) → All P bs → All P (delete_block r bs)
  unfolding delete_block
  delete_block-All r [] h = tt
  delete_block-All r (b ∷ bs) h = elim (Bool-cases (same_block b r)) [
    | inl e ↦ rw e h.1
    | inr e ↦ rw e (h.0, delete_block-All r bs h.1)
  ]
