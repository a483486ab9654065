-- ===== src/Lru/Laws.antt =====
-- What the methods make of the entries that a cache stands for, the most recent first.
use browsertorrent.Common.{
  ℕ, ◌≡◌, refl, sym, ap, ◌∙◌, Bool, true, false, Option, none, some, List, [], ◌∷◌, ◌++◌,
  if◌then◌else◌, length, leb, list_eq, Bool-cases, inl, inr,
}
use mathlib.Core.Path.{subst}
use browsertorrent.Lru.{Cache, move_to_front, get, get_node, remove, remove_at}
use browsertorrent.Lru.View.{
  find, Holds, Represents, view, lookup, lookup-find, without, without_last, find-Split,
  without-Split,
}
use browsertorrent.Lru.Names.{move_to_front-Kept, dropped, dropped-Holds, move_to_front-Holds}

abbrev pub is_some {ℓ} : {A : Type ℓ} → Option A → Bool
is_some none = false
is_some (some a) = true

module _ {ℓ} {T : Type ℓ} where
  -- The entries after a lookup: the one that was found in front.
  abbrev pub touched : List ℕ → List (List ℕ × T) → List (List ℕ × T)
  touched k es = elim (lookup k es) [ none ↦ es | some v ↦ (k, v) ∷ without k es ]

  -- The entries after `put`: the one that is put in front, without the last one if the cache was full
  -- and the key is new.
  abbrev pub stored : ℕ → List ℕ → T → List (List ℕ × T) → List (List ℕ × T)
  stored capacity k v es = elim (lookup k es) [
    | none ↦ (k, v) ∷ (if leb capacity (length es) then without_last es else es)
    | some w ↦ (k, v) ∷ without k es
  ]

  -- A key that is found, in terms of the entries.
  pub record Hit (c : Cache T) (es : List (List ℕ × T)) (k : List ℕ) (i : ℕ) : Type ℓ where
    pub before : List ℕ
    pub behind : List ℕ
    pub holds : Holds c (before ++ (i ∷ behind))
    pub named : c.node_key i ≡ k
    pub value : lookup k es ≡ some (c.node_value i)
    pub others : without k es ≡ view c.node_key c.node_value (before ++ behind)

  pub hit :
      (c : Cache T) (es : List (List ℕ × T)) (k : List ℕ) (i : ℕ)
      → Represents c es
      → c.nodes k ≡ some i
      → Hit c es k i
  hit c es k i r e =
      let found : find c.node_key k r.ids ≡ some i = sym (r.holds.found k) ∙ e in
      let s = find-Split c.node_key k r.ids i found in
      record {
        before = s.before;
        behind = s.behind;
        holds = subst (λ ids. Holds c ids) s.shape r.holds;
        named = s.named;
        value =
            ap (lookup k) (sym r.shows)
            ∙ lookup-find c.node_key c.node_value k r.ids
            ∙ ap (λ o. elim o [ none ↦ none | some j ↦ some (c.node_value j) ]) found;
        others =
            ap (without k) (sym r.shows ∙ ap (view c.node_key c.node_value) s.shape)
            ∙ without-Split c.node_key c.node_value k s.before s.behind i s.named s.earlier;
      }

  pub miss :
      (c : Cache T) (es : List (List ℕ × T)) (k : List ℕ)
      → Represents c es
      → c.nodes k ≡ none
      → lookup k es ≡ none
  miss c es k r e =
      ap (lookup k) (sym r.shows)
      ∙ lookup-find c.node_key c.node_value k r.ids
      ∙ ap (λ o. elim o [ none ↦ none | some j ↦ some (c.node_value j) ])
          (sym (r.holds.found k) ∙ e)

  pub move_to_front-Represents :
      (c : Cache T) (xs ys : List ℕ) (i : ℕ)
      → Holds c (xs ++ (i ∷ ys))
      → Represents
          (move_to_front c i)
          ((c.node_key i, c.node_value i) ∷ view c.node_key c.node_value (xs ++ ys))
  move_to_front-Represents c xs ys i h =
      let kept = move_to_front-Kept c i in
      let ids : List ℕ = i ∷ (xs ++ ys) in
      record {
        ids = ids;
        holds = move_to_front-Holds c xs ys i h;
        shows =
            ap (λ f. view f (move_to_front c i).node_value ids) kept.keys
            ∙ ap (λ f. view c.node_key f ids) kept.values;
      }

  -- `get` answers with the value of the key, and the entry comes to the front.
  pub get_lem :
      (k : List ℕ) (c : Cache T) (es : List (List ℕ × T))
      → Represents c es
      → ((get k c).0 ≡ lookup k es) × Represents (get k c).1 (touched k es)
  unfolding get get_node
  get_lem k c es r = by_node (c.nodes k) refl
    where
      by_node :
          (o : Option ℕ)
          → c.nodes k ≡ o
          → ((get_node c o).0 ≡ lookup k es) × Represents (get_node c o).1 (touched k es)
      by_node none e =
          let none_there = miss c es k r e in (sym none_there, rw (none_there, touched) r)
      by_node (some i) e =
          let h = hit c es k i r e in
          (
            sym h.value,
            rw (h.value, touched)
                (rw (h.named, sym h.others) at
                  (move_to_front-Represents c h.before h.behind i h.holds)),
          )

  without-none : (k : List ℕ) (es : List (List ℕ × T)) → lookup k es ≡ none → without k es ≡ es
  without-none k [] h = refl
  without-none k ((k', v) ∷ es) h = elim (Bool-cases (list_eq k' k)) [
    | inl same ↦ let e : some v ≡ none = rw same at h in cc
    | inr other ↦ rw other (ap (◌∷◌ (k', v)) (without-none k es (rw other at h)))
  ]

  -- `remove` answers whether the key was there, and takes its entry out.
  pub remove_lem :
      (k : List ℕ) (c : Cache T) (es : List (List ℕ × T))
      → Represents c es
      → ((remove k c).0 ≡ is_some (lookup k es)) × Represents (remove k c).1 (without k es)
  unfolding remove remove_at
  remove_lem k c es r = by_node (c.nodes k) refl
    where
      by_node :
          (o : Option ℕ)
          → c.nodes k ≡ o
          → ((remove_at k c o).0 ≡ is_some (lookup k es))
            × Represents (remove_at k c o).1 (without k es)
      by_node none e =
          let absent = miss c es k r e in
          (
            ap is_some (sym absent),
            subst (λ ds. Represents c ds) (sym (without-none k es absent)) r,
          )
      by_node (some i) e =
          let h = hit c es k i r e in
          (
            ap is_some (sym h.value),
            subst (λ key. Represents (dropped c i key) (without k es)) h.named
                (record {
                  ids = h.before ++ h.behind;
                  holds = dropped-Holds c h.before h.behind i h.holds;
                  shows = sym h.others;
                }),
          )
