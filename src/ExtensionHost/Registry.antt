-- ===== src/ExtensionHost/Registry.antt =====
-- The IDs that the host gives, over any sequence of calls.
use browsertorrent.Common.{
  ℕ, suc, ◌+◌, ◌≤◌, ◌<◌, ◌≡◌, refl, ap, inl, inr, true, false, some, List, [], ◌∷◌, ◌++◌, length,
  list_eq, list_eq→eq, list_eq_refl, ◌==◌, Bool-cases, arith,
}
use browsertorrent.ExtensionHost.{lookup, put_id, find_name_by_id}
use browsertorrent.ExtensionHost.Host.{has_name}

-- Names with consecutive numbers.
abbrev pub numbered_from : ℕ → List (List ℕ) → List (List ℕ × ℕ)
numbered_from n [] = []
numbered_from n (x ∷ xs) = (x, n) ∷ numbered_from (suc n) xs

abbrev pub AllNew : List (List ℕ) → Type 0
AllNew [] = Unit {0}
AllNew (x ∷ xs) = (has_name x xs ≡ false) × AllNew xs

-- A name behind others that differ from it.
pub put_id-numbered_from :
    (name : List ℕ) (n id : ℕ) (xs : List (List ℕ))
    → has_name name xs ≡ false
    → id ≡ n + length xs
    → put_id name id (numbered_from n xs) ≡ numbered_from n (xs ++ (name ∷ []))
unfolding put_id
put_id-numbered_from name n id [] h e = let same : id ≡ n = omega arith in rw same refl
put_id-numbered_from name n id (x ∷ xs) h e = elim (Bool-cases (list_eq x name)) [
  | inl q ↦ absurd (let y = rw q at h in cc)
  | inr q ↦ rw (q, put_id-numbered_from name (suc n) id xs (rw q at h) (omega (arith, e))) refl
]

has_name-append :
    (x name : List ℕ) (xs : List (List ℕ))
    → has_name x xs ≡ false
    → list_eq name x ≡ false
    → has_name x (xs ++ (name ∷ [])) ≡ false
has_name-append x name [] h k = rw k refl
has_name-append x name (y ∷ ys) h k = elim (Bool-cases (list_eq y x)) [
  | inl q ↦ absurd (let z = rw q at h in cc)
  | inr q ↦ rw q (has_name-append x name ys (rw q at h) k)
]

pub AllNew-append :
    (name : List ℕ) (xs : List (List ℕ))
    → AllNew xs
    → has_name name xs ≡ false
    → AllNew (xs ++ (name ∷ []))
AllNew-append name [] h k = (refl, tt)
AllNew-append name (x ∷ xs) h k = elim (Bool-cases (list_eq x name)) [
  | inl q ↦ absurd (let z = rw q at k in cc)
  | inr q ↦ (has_name-append x name xs h.0 (other_way q), AllNew-append name xs h.1 (rw q at k))
]
  where
    other_way : list_eq x name ≡ false → list_eq name x ≡ false
    other_way q = elim (Bool-cases (list_eq name x)) [
      | inr e ↦ e
      | inl e ↦
          absurd (let s = ap (list_eq x) (list_eq→eq name x e) in let r = list_eq_refl x in cc)
    ]

-- The number of a name is not found at another one.
pub numbered_below :
    (name : List ℕ) (n id : ℕ) (xs : List (List ℕ))
    → lookup name (numbered_from n xs) ≡ some id
    → (n ≤ id) × (id < n + length xs)
unfolding lookup
numbered_below name n id [] e = absurd cc
numbered_below name n id (x ∷ xs) e = elim (Bool-cases (list_eq x name)) [
  | inl q ↦ let same : n ≡ id = (let y = rw q at e in cc) in (omega arith, omega arith)
  | inr q ↦
      let (low, high) = numbered_below name (suc n) id xs (rw q at e) in (omega arith, omega arith)
]

pub find-lookup :
    (name : List ℕ) (n id : ℕ) (xs : List (List ℕ))
    → lookup name (numbered_from n xs) ≡ some id
    → find_name_by_id (numbered_from n xs) id ≡ some name
unfolding lookup find_name_by_id
find-lookup name n id [] e = absurd cc
find-lookup name n id (x ∷ xs) e = elim (Bool-cases (list_eq x name)) [
  | inl q ↦
      let same : n ≡ id = (let y = rw q at e in cc) in
      let yes : (n == id) ≡ true = ground arith in rw yes (ap some (list_eq→eq x name q))
  | inr q ↦
      let later = rw q at e in
      let low = (numbered_below name (suc n) id xs later).0 in
      let no_match : (n == id) ≡ false = ground arith in
      rw no_match (find-lookup name (suc n) id xs later)
]
