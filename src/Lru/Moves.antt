-- ===== src/Lru/Moves.antt =====
-- `addToFront`, `removeNode` and `moveToFront` on the addresses in order.
use browsertorrent.Common.{
  ℕ, ◌≡◌, refl, sym, ap, ◌∙◌, true, false, none, some, List, [], ◌∷◌, ◌++◌, Bool-cases, inl, inr,
}
use mathlib.Core.List.{append-nil}
use mathlib.Core.Path.{subst}
use browsertorrent.Lru.{
  Cache, update, update_at, or_if_null, unless_null, is_same, add_to_front, remove_node,
  move_to_front,
}
use browsertorrent.Lru.Links.{
  first_or, last_or, last_or-append, Segment, Distinct, Fresh, Distinct-without,
  Segment-append_right, Segment-without, Segment-in_front,
}
use browsertorrent.Lru.View.{Linked}

last_or-some : (x : ℕ) (xs : List ℕ) → (k : ℕ) × (last_or xs (some x) ≡ some k)
last_or-some x [] = (x, refl)
last_or-some x (y ∷ ys) = last_or-some y ys

head_without :
    (xs ys : List ℕ) (i : ℕ)
    → unless_null (last_or xs none) (first_or (xs ++ (i ∷ ys)) none) (first_or ys none)
      ≡ first_or (xs ++ ys) none
head_without [] ys i = refl
head_without (x ∷ xs) ys i = let (k, e) = last_or-some x xs in rw e refl

tail_without :
    (xs ys : List ℕ) (i : ℕ)
    → unless_null (first_or ys none) (last_or (xs ++ (i ∷ ys)) none) (last_or xs none)
      ≡ last_or (xs ++ ys) none
tail_without xs [] i = ap (λ zs. last_or zs none) (sym (append-nil xs))
tail_without xs (y ∷ ys) i =
    last_or-append xs (i ∷ y ∷ ys) none ∙ sym (last_or-append xs (y ∷ ys) none)

tail_in_front :
    (ids : List ℕ) (i : ℕ) → or_if_null (last_or ids none) (some i) ≡ last_or ids (some i)
tail_in_front [] i = refl
tail_in_front (j ∷ js) i = let (k, e) = last_or-some j js in rw e refl

is_first :
    (xs ys : List ℕ) (i : ℕ)
    → Distinct (xs ++ (i ∷ ys))
    → is_same (first_or (xs ++ (i ∷ ys)) none) i ≡ true
    → xs ≡ []
is_first [] ys i d h = refl
is_first (x ∷ xs) ys i d h =
    let (rest, (other, apart)) = Distinct-without (x ∷ xs) ys i d in
    let clash : true ≡ false = sym h ∙ other in cc

module _ {ℓ} {T : Type ℓ} where
  first-Linked :
      (c : Cache T) (xs ys : List ℕ) (i : ℕ)
      → Linked c (xs ++ (i ∷ ys))
      → xs ≡ []
      → Linked c (i ∷ (xs ++ ys))
  first-Linked c xs ys i l e = rw e (rw e at l)

  pub remove_node-Linked :
      (c : Cache T) (xs ys : List ℕ) (i : ℕ)
      → Linked c (xs ++ (i ∷ ys))
      → Linked (remove_node c i) (xs ++ ys)
  unfolding remove_node
  remove_node-Linked c xs ys i l =
      let here = Segment-append_right c.prev c.next none none xs (i ∷ ys) l.links in
      let before : c.prev i ≡ last_or xs none = here.0 in
      let behind : c.next i ≡ first_or ys none = here.1 in
      record {
        links = rw (before, behind) (Segment-without c.prev c.next xs ys i l.distinct l.links);
        distinct = (Distinct-without xs ys i l.distinct).0;
        at_head = rw (before, behind, l.at_head) (head_without xs ys i);
        at_tail = rw (before, behind, l.at_tail) (tail_without xs ys i);
      }

  pub add_to_front-Linked :
      (c : Cache T) (ids : List ℕ) (i : ℕ)
      → Fresh i ids
      → Linked c ids
      → Linked (add_to_front c i) (i ∷ ids)
  unfolding add_to_front
  add_to_front-Linked c ids i fresh l = record {
    links =
        subst
          (λ o.
            Segment (update_at (update c.prev i none) o (some i)) (update c.next i o) none (i ∷ ids)
              none)
          (sym l.at_head) (Segment-in_front c.prev c.next ids i fresh l.distinct l.links);
    distinct = (fresh, l.distinct);
    at_head = refl;
    at_tail = rw l.at_tail (tail_in_front ids i);
  }

  pub move_to_front-Linked :
      (c : Cache T) (xs ys : List ℕ) (i : ℕ)
      → Linked c (xs ++ (i ∷ ys))
      → Linked (move_to_front c i) (i ∷ (xs ++ ys))
  unfolding move_to_front
  move_to_front-Linked c xs ys i l = elim (Bool-cases (is_same c.head i)) [
    | inl first ↦
        rw first (first-Linked c xs ys i l (is_first xs ys i l.distinct (rw l.at_head at first)))
    | inr other ↦ rw other (
        add_to_front-Linked (remove_node c i) (xs ++ ys) i (Distinct-without xs ys i l.distinct).1
          (remove_node-Linked c xs ys i l))
  ]
