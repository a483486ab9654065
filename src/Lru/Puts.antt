-- ===== src/Lru/Puts.antt =====
-- `put`, with the eviction of the least recent entry.
use browsertorrent.Common.{
  ℕ, suc, ◌≡◌, refl, sym, ap, ◌∙◌, true, Option, none, some, List, [], ◌∷◌, ◌++◌, if◌then◌else◌,
  ◌==◌, length, leb, list_eq, arith, Bool-cases, inl, inr,
}
use mathlib.Core.Path.{subst}
use mathlib.Core.List.{append-nil}
use browsertorrent.Lru.{
  Cache, update, move_to_front, drop_node, evict, insert, put, put_at, put_new,
}
use browsertorrent.Lru.Links.{Distinct-without, last_or, last_or-append}
use browsertorrent.Lru.View.{find, Holds, Represents, view, lookup, without, without_last}
use browsertorrent.Lru.Names.{dropped, dropped-Holds}
use browsertorrent.Lru.Inserts.{insert-Holds, view-insert, view-update_value}
use browsertorrent.Lru.Laws.{stored, Hit, hit, miss, move_to_front-Represents}

-- A list is empty or has a last element.
data Ending (ids : List ℕ) : Type 0 where
  empty : ids ≡ [] → Ending ids
  ends : (xs : List ℕ) (i : ℕ) → ids ≡ xs ++ (i ∷ []) → Ending ids

ending : (ids : List ℕ) → Ending ids
ending [] = empty refl
ending (i ∷ is) = elim (ending is) [
  | empty e ↦ ends [] i (ap (◌∷◌ i) e)
  | ends xs j e ↦ ends (i ∷ xs) j (ap (◌∷◌ i) e)
]

itself : (i : ℕ) → (i == i) ≡ true
itself i = ground arith

module _ {ℓ} {T : Type ℓ} where
  view-without_last :
      (names : ℕ → List ℕ) (items : ℕ → T) (xs : List ℕ) (i : ℕ)
      → without_last (view names items (xs ++ (i ∷ []))) ≡ view names items xs
  view-without_last names items [] i = refl
  view-without_last names items (x ∷ []) i = refl
  view-without_last names items (x ∷ y ∷ xs) i =
      ap (◌∷◌ (names x, items x)) (view-without_last names items (y ∷ xs) i)

  -- `evict` drops the last entry.
  evict-Represents :
      (c : Cache T) (es : List (List ℕ × T))
      → Represents c es
      → Represents (evict c) (without_last es)
  unfolding evict drop_node
  evict-Represents c es r = elim (ending r.ids) [
    | empty e ↦
        let no_tail : c.tail ≡ none = r.holds.linked.at_tail ∙ ap (λ ids. last_or ids none) e in
        let no_entry : es ≡ [] = sym r.shows ∙ ap (view c.node_key c.node_value) e in
        subst (λ ds. Represents (drop_node c c.tail) (without_last ds)) (sym no_entry)
          (subst (λ o. Represents (drop_node c o) []) (sym no_tail)
            (subst (λ ds. Represents c ds) no_entry r))
    | ends xs i e ↦
        let last : c.tail ≡ some i =
          r.holds.linked.at_tail
          ∙ ap (λ ids. last_or ids none) e
          ∙ last_or-append xs (i ∷ []) none in
        let h = dropped-Holds c xs [] i (subst (λ ids. Holds c ids) e r.holds) in
        subst (λ o. Represents (drop_node c o) (without_last es)) (sym last)
          (record {
            ids = xs;
            holds = subst (λ ids. Holds (dropped c i (c.node_key i)) ids) (append-nil xs) h;
            shows =
                sym (view-without_last c.node_key c.node_value xs i)
                ∙ ap (λ ids. without_last (view c.node_key c.node_value ids)) (sym e)
                ∙ ap without_last r.shows;
          })
  ]

  unfound :
      (c : Cache T) (k ids : List ℕ)
      → lookup k (view c.node_key c.node_value ids) ≡ none
      → find c.node_key k ids ≡ none
  unfound c k [] h = refl
  unfound c k (i ∷ is) h = elim (Bool-cases (list_eq (c.node_key i) k)) [
    | inl same ↦ let e : some (c.node_value i) ≡ none = rw same at h in cc
    | inr other ↦ rw other (unfound c k is (rw other at h))
  ]

  insert-Represents :
      (k : List ℕ) (v : T) (c : Cache T) (es : List (List ℕ × T))
      → Represents c es
      → lookup k es ≡ none
      → Represents (insert k v c) ((k, v) ∷ es)
  insert-Represents k v c es r absent =
      let not_found = unfound c k r.ids (ap (lookup k) r.shows ∙ absent) in
      record {
        ids = c.allocated ∷ r.ids;
        holds = insert-Holds k v c r.ids r.holds not_found;
        shows = view-insert k v c r.ids r.holds.known ∙ ap (◌∷◌ (k, v)) r.shows;
      }

  lookup-without_last :
      (k : List ℕ) (es : List (List ℕ × T)) → lookup k es ≡ none → lookup k (without_last es) ≡ none
  lookup-without_last k [] h = refl
  lookup-without_last k (e ∷ []) h = refl
  lookup-without_last k ((k', v) ∷ e ∷ es) h = elim (Bool-cases (list_eq k' k)) [
    | inl same ↦ let x : some v ≡ none = rw same at h in cc
    | inr other ↦ rw other (lookup-without_last k (e ∷ es) (rw other at h))
  ]

  length-view :
      (names : ℕ → List ℕ) (items : ℕ → T) (ids : List ℕ)
      → length (view names items ids) ≡ length ids
  length-view names items [] = refl
  length-view names items (i ∷ is) = ap suc (length-view names items is)

  -- `getSize` counts the entries.
  pub Represents-size :
      (c : Cache T) (es : List (List ℕ × T)) → Represents c es → c.size ≡ length es
  Represents-size c es r =
      r.holds.count ∙ sym (length-view c.node_key c.node_value r.ids) ∙ ap length r.shows

  put_new-Represents :
      (k : List ℕ) (v : T) (c : Cache T) (es : List (List ℕ × T))
      → Represents c es
      → lookup k es ≡ none
      → Represents
          (put_new k v c)
          ((k, v) ∷ (if leb c.capacity (length es) then without_last es else es))
  unfolding put_new
  put_new-Represents k v c es r absent =
      subst
        (λ n.
          Represents (put_new k v c) ((k, v) ∷ (if leb c.capacity n then without_last es else es)))
        (Represents-size c es r)
        (elim (Bool-cases (leb c.capacity c.size)) [
          | inl full ↦ rw full (
              insert-Represents k v (evict c) (without_last es) (evict-Represents c es r)
                (lookup-without_last k es absent))
          | inr room ↦ rw room (insert-Represents k v c es r absent)
        ])

  -- The node of a key that is there gets the value.
  abbrev revalued : Cache T → ℕ → T → Cache T
  revalued c i v = record c { node_value = update c.node_value i v }

  revalued-Holds :
      (c : Cache T) (ids : List ℕ) (i : ℕ) (v : T) → Holds c ids → Holds (revalued c i v) ids
  revalued-Holds c ids i v h = record {
    linked = record {
      links = h.linked.links;
      distinct = h.linked.distinct;
      at_head = h.linked.at_head;
      at_tail = h.linked.at_tail;
    };
    count = h.count;
    known = h.known;
    unlike = h.unlike;
    found = h.found;
  }

  revalued-Represents :
      (c : Cache T) (es : List (List ℕ × T)) (k : List ℕ) (i : ℕ) (v : T) (h : Hit c es k i)
      → Represents (move_to_front (revalued c i v) i) ((k, v) ∷ without k es)
  revalued-Represents c es k i v h =
      let fresh = (Distinct-without h.before h.behind i h.holds.linked.distinct).1 in
      let holds = revalued-Holds c _ i v h.holds in
      let moved = move_to_front-Represents (revalued c i v) h.before h.behind i holds in
      let others = view-update_value c.node_key c.node_value i v (h.before ++ h.behind) fresh in
      let shown : (c.node_key i, update c.node_value i v i)
            ∷ view c.node_key (update c.node_value i v) (h.before ++ h.behind)
          ≡ (k, v) ∷ without k es =
        rw (h.named, itself i, others, h.others) refl in
      subst (λ ds. Represents (move_to_front (revalued c i v) i) ds) shown moved

  -- `put` puts the entry in front, in place of the one with the key, or else of the last one if the
  -- cache is full.
  pub put_lem :
      (k : List ℕ) (v : T) (c : Cache T) (es : List (List ℕ × T))
      → Represents c es
      → Represents (put k v c) (stored c.capacity k v es)
  unfolding put put_at
  put_lem k v c es r = by_node (c.nodes k) refl
    where
      by_node :
          (o : Option ℕ) → c.nodes k ≡ o → Represents (put_at k v c o) (stored c.capacity k v es)
      by_node none e =
          let absent = miss c es k r e in rw (absent, stored) (put_new-Represents k v c es r absent)
      by_node (some i) e =
          let h = hit c es k i r e in rw (h.value, stored) (revalued-Represents c es k i v h)
