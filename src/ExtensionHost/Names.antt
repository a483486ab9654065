-- ===== src/ExtensionHost/Names.antt =====
-- Maps from names to IDs: what `set`, `delete` and `get` make of each other.
use browsertorrent.Common.{
  ℕ, ◌≡◌, refl, sym, ap, ◌∙◌, inl, inr, false, none, some, List, [], ◌∷◌, list_eq, list_eq→eq,
  list_eq_refl, Bool-cases,
}
use browsertorrent.ExtensionHost.{lookup, put_id, remove_id}

-- No name stands twice.
abbrev pub HasDistinct : List (List ℕ × ℕ) → Type 0
HasDistinct [] = Unit {0}
HasDistinct ((k, id) ∷ ids) = (lookup k ids ≡ none) × HasDistinct ids

list_eq_sym : (xs ys : List ℕ) → list_eq xs ys ≡ false → list_eq ys xs ≡ false
list_eq_sym xs ys h = elim (Bool-cases (list_eq ys xs)) [
  | inr e ↦ e
  | inl e ↦
      absurd
        (let q = list_eq→eq ys xs e in let r = list_eq_refl xs in let s = ap (list_eq xs) q in cc)
]

pub lookup-put_id_self :
    (name : List ℕ) (id : ℕ) (ids : List (List ℕ × ℕ)) → lookup name (put_id name id ids) ≡ some id
unfolding lookup put_id
lookup-put_id_self name id [] = rw (list_eq_refl name) refl
lookup-put_id_self name id ((k, old) ∷ ids) = elim (Bool-cases (list_eq k name)) [
  | inl e ↦ rw (e, e) refl
  | inr e ↦ rw (e, e) (lookup-put_id_self name id ids)
]

pub lookup-put_id_ne :
    (name other : List ℕ) (id : ℕ) (ids : List (List ℕ × ℕ))
    → list_eq name other ≡ false
    → lookup other (put_id name id ids) ≡ lookup other ids
unfolding lookup put_id
lookup-put_id_ne name other id [] h = rw h refl
lookup-put_id_ne name other id ((k, old) ∷ ids) h = elim (Bool-cases (list_eq k name)) [
  | inl e ↦
      let ne : list_eq k other ≡ false = ap (λ x. list_eq x other) (list_eq→eq k name e) ∙ h in
      rw (e, ne) refl
  | inr e ↦ rw e (elim (Bool-cases (list_eq k other)) [
    | inl e' ↦ rw e' refl
    | inr e' ↦ rw e' (lookup-put_id_ne name other id ids h)
  ])
]

pub lookup-remove_id_ne :
    (name other : List ℕ) (ids : List (List ℕ × ℕ))
    → list_eq name other ≡ false
    → lookup other (remove_id name ids) ≡ lookup other ids
unfolding lookup remove_id
lookup-remove_id_ne name other [] h = refl
lookup-remove_id_ne name other ((k, old) ∷ ids) h = elim (Bool-cases (list_eq k name)) [
  | inl e ↦
      let ne : list_eq k other ≡ false = ap (λ x. list_eq x other) (list_eq→eq k name e) ∙ h in
      rw (e, ne) refl
  | inr e ↦ rw e (elim (Bool-cases (list_eq k other)) [
    | inl e' ↦ rw e' refl
    | inr e' ↦ rw e' (lookup-remove_id_ne name other ids h)
  ])
]

pub lookup-remove_id_self :
    (name : List ℕ) (ids : List (List ℕ × ℕ))
    → HasDistinct ids
    → lookup name (remove_id name ids) ≡ none
unfolding lookup remove_id
lookup-remove_id_self name [] h = refl
lookup-remove_id_self name ((k, old) ∷ ids) h = elim (Bool-cases (list_eq k name)) [
  | inl e ↦ rw e (ap (λ x. lookup x ids) (sym (list_eq→eq k name e)) ∙ h.0)
  | inr e ↦ rw (e, e) (lookup-remove_id_self name ids h.1)
]

pub put_id-HasDistinct :
    (name : List ℕ) (id : ℕ) (ids : List (List ℕ × ℕ))
    → HasDistinct ids
    → HasDistinct (put_id name id ids)
unfolding put_id
put_id-HasDistinct name id [] h = (unfold lookup in refl, tt)
put_id-HasDistinct name id ((k, old) ∷ ids) h = elim (Bool-cases (list_eq k name)) [
  | inl e ↦ rw e h
  | inr e ↦ rw e (
    lookup-put_id_ne name k id ids (list_eq_sym k name e) ∙ h.0,
    put_id-HasDistinct name id ids h.1,
  )
]

pub remove_id-HasDistinct :
    (name : List ℕ) (ids : List (List ℕ × ℕ)) → HasDistinct ids → HasDistinct (remove_id name ids)
unfolding remove_id
remove_id-HasDistinct name [] h = tt
remove_id-HasDistinct name ((k, old) ∷ ids) h = elim (Bool-cases (list_eq k name)) [
  | inl e ↦ rw e h.1
  | inr e ↦ rw e (
    lookup-remove_id_ne name k ids (list_eq_sym k name e) ∙ h.0,
    remove_id-HasDistinct name ids h.1,
  )
]
