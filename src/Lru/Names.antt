-- ===== src/Lru/Names.antt =====
-- Taking a node out, moving one to the front and adding one keep a cache well formed.
use browsertorrent.Common.{
  ℕ, suc, ◌-◌, ◌≡◌, refl, sym, ap, ◌∙◌, true, false, none, some, List, [], ◌∷◌, ◌++◌, length,
  list_eq, list_eq→eq, list_eq_refl, arith, Bool-cases, inl, inr,
}
use mathlib.Core.Path.{subst}
use browsertorrent.Lru.{Cache, is_same, put_node, add_to_front, remove_node, move_to_front}
use browsertorrent.Lru.View.{
  find, Unlike, AllBelow, Holds, find-append_none, find-skip, Unlike-without, Unlike-behind,
  AllBelow-without,
}
use browsertorrent.Lru.Moves.{remove_node-Linked, move_to_front-Linked}

list_eq_comm : (a b : List ℕ) → list_eq a b ≡ false → list_eq b a ≡ false
list_eq_comm a b h = elim (Bool-cases (list_eq b a)) [
  | inl same ↦
      let e : true ≡ false = sym (rw (list_eq→eq b a same) (list_eq_refl a)) ∙ h in absurd (no e)
  | inr other ↦ other
]
  where
    no : ¬ (true ≡ false)
    no e = cc

unnamed :
    (names : ℕ → List ℕ) (k xs ys : List ℕ) (i : ℕ)
    → find names k (xs ++ (i ∷ ys)) ≡ none
    → list_eq (names i) k ≡ false
unnamed names k [] ys i h = elim (Bool-cases (list_eq (names i) k)) [
  | inl same ↦ let e : some i ≡ none = rw same at h in cc
  | inr other ↦ other
]
unnamed names k (x ∷ xs) ys i h = elim (Bool-cases (list_eq (names x) k)) [
  | inl same ↦ let e : some x ≡ none = rw same at h in cc
  | inr other ↦ unnamed names k xs ys i (rw other at h)
]

pub Unlike-before :
    (names : ℕ → List ℕ) (xs ys : List ℕ) (i : ℕ)
    → Unlike names (xs ++ (i ∷ ys))
    → find names (names i) xs ≡ none
Unlike-before names [] ys i u = refl
Unlike-before names (x ∷ xs) ys i (h, u) =
    let other = list_eq_comm (names i) (names x) (unnamed names (names x) xs ys i h) in
    rw other (Unlike-before names xs ys i u)

find-move :
    (names : ℕ → List ℕ) (k xs ys : List ℕ) (i : ℕ)
    → Unlike names (xs ++ (i ∷ ys))
    → find names k (xs ++ (i ∷ ys)) ≡ find names k (i ∷ (xs ++ ys))
find-move names k xs ys i u = elim (Bool-cases (list_eq (names i) k)) [
  | inl same ↦
      let none_before : find names k xs ≡ none =
        subst (λ n. find names n xs ≡ none) (list_eq→eq (names i) k same)
          (Unlike-before names xs ys i u) in
      find-append_none names k xs (i ∷ ys) none_before ∙ (rw same refl)
  | inr other ↦ find-skip names k xs ys i other ∙ (rw other refl)
]

gone :
    (names : ℕ → List ℕ) (xs ys : List ℕ) (i : ℕ)
    → Unlike names (xs ++ (i ∷ ys))
    → find names (names i) (xs ++ ys) ≡ none
gone names xs ys i u =
    find-append_none names (names i) xs ys (Unlike-before names xs ys i u)
    ∙ Unlike-behind names xs ys i u

length-middle : (xs ys : List ℕ) (i : ℕ) → length (xs ++ (i ∷ ys)) ≡ suc (length (xs ++ ys))
length-middle [] ys i = refl
length-middle (x ∷ xs) ys i = ap suc (length-middle xs ys i)

-- The fields that the links leave alone.
pub record Kept {ℓ} {T : Type ℓ} (c d : Cache T) : Type ℓ where
  pub keys : d.node_key ≡ c.node_key
  pub values : d.node_value ≡ c.node_value
  pub nodes : d.nodes ≡ c.nodes
  pub allocated : d.allocated ≡ c.allocated
  pub capacity : d.capacity ≡ c.capacity
  pub size : d.size ≡ c.size

module _ {ℓ} {T : Type ℓ} where
  pub move_to_front-Kept : (c : Cache T) (i : ℕ) → Kept c (move_to_front c i)
  unfolding move_to_front remove_node add_to_front
  move_to_front-Kept c i = elim (Bool-cases (is_same c.head i)) [
    | inl first ↦ record {
      keys = rw first refl;
      values = rw first refl;
      nodes = rw first refl;
      allocated = rw first refl;
      capacity = rw first refl;
      size = rw first refl;
    }
    | inr other ↦ record {
      keys = rw other refl;
      values = rw other refl;
      nodes = rw other refl;
      allocated = rw other refl;
      capacity = rw other refl;
      size = rw other refl;
    }
  ]

  -- A node and its key are taken out.
  abbrev pub dropped : Cache T → ℕ → List ℕ → Cache T
  dropped c i key =
      let d : Cache T = remove_node c i in
      record d { nodes = put_node d.nodes key none; size = d.size - 1 }

  pub dropped-Holds :
      (c : Cache T) (xs ys : List ℕ) (i : ℕ)
      → Holds c (xs ++ (i ∷ ys))
      → Holds (dropped c i (c.node_key i)) (xs ++ ys)
  unfolding remove_node
  dropped-Holds c xs ys i h =
      let l = remove_node-Linked c xs ys i h.linked in
      record {
        linked = record {
          links = l.links;
          distinct = l.distinct;
          at_head = l.at_head;
          at_tail = l.at_tail;
        };
        count = ap (λ n. n - 1) (h.count ∙ length-middle xs ys i) ∙ omega arith;
        known = (AllBelow-without c.allocated xs ys i h.known).0;
        unlike = Unlike-without c.node_key xs ys i h.unlike;
        found = λ k. elim (Bool-cases (list_eq (c.node_key i) k)) [
          | inl same ↦ rw same (
              sym (
                subst (λ n. find c.node_key n (xs ++ ys) ≡ none) (list_eq→eq (c.node_key i) k same)
                  (gone c.node_key xs ys i h.unlike)))
          | inr other ↦ rw other (h.found k ∙ find-skip c.node_key k xs ys i other)
        ];
      }

  pub move_to_front-Holds :
      (c : Cache T) (xs ys : List ℕ) (i : ℕ)
      → Holds c (xs ++ (i ∷ ys))
      → Holds (move_to_front c i) (i ∷ (xs ++ ys))
  move_to_front-Holds c xs ys i h =
      let k = move_to_front-Kept c i in
      let (rest, here) = AllBelow-without c.allocated xs ys i h.known in
      record {
        linked = move_to_front-Linked c xs ys i h.linked;
        count = k.size ∙ h.count ∙ length-middle xs ys i;
        known = subst (λ n. AllBelow n (i ∷ (xs ++ ys))) (sym k.allocated) (here, rest);
        unlike =
            subst (λ names. Unlike names (i ∷ (xs ++ ys))) (sym k.keys)
              (gone c.node_key xs ys i h.unlike, Unlike-without c.node_key xs ys i h.unlike);
        found = λ key.
            ap (λ f. f key) k.nodes
            ∙ h.found key
            ∙ find-move c.node_key key xs ys i h.unlike
            ∙ ap (λ names. find names key (i ∷ (xs ++ ys))) (sym k.keys);
      }
