-- ===== src/Lru/Inserts.antt =====
-- Adding a node keeps a cache well formed and puts its entry in front.
use browsertorrent.Common.{
  ℕ, ◌+◌, ◌≡◌, refl, sym, ap, ◌∙◌, true, none, List, [], ◌∷◌, ◌==◌, list_eq, arith, Bool-cases, inl,
  inr,
}
use browsertorrent.Lru.{Cache, update, add_to_front, insert}
use browsertorrent.Lru.Links.{Fresh, Segment-prev_Fresh, Segment-next_Fresh}
use browsertorrent.Lru.View.{find, Unlike, AllBelow, Linked, Holds, view}
use browsertorrent.Lru.Moves.{add_to_front-Linked}

AllBelow-Fresh : (n : ℕ) (ids : List ℕ) → AllBelow n ids → Fresh n ids
AllBelow-Fresh n [] h = tt
AllBelow-Fresh n (i ∷ is) (lt, h) = (ground arith, AllBelow-Fresh n is h)

AllBelow-next : (n : ℕ) (ids : List ℕ) → AllBelow n ids → AllBelow (n + 1) ids
AllBelow-next n [] h = tt
AllBelow-next n (i ∷ is) (lt, h) = (omega arith, AllBelow-next n is h)

find-update :
    (names : ℕ → List ℕ) (i : ℕ) (key k ids : List ℕ)
    → Fresh i ids
    → find (update names i key) k ids ≡ find names k ids
find-update names i key k [] fresh = refl
find-update names i key k (j ∷ js) (other, fresh) = rw (other, find-update names i key k js fresh)

Unlike-update :
    (names : ℕ → List ℕ) (i : ℕ) (key ids : List ℕ)
    → Fresh i ids
    → Unlike names ids
    → Unlike (update names i key) ids
Unlike-update names i key [] fresh u = tt
Unlike-update names i key (j ∷ js) (other, fresh) (h, u) = (
  rw other (find-update names i key (names j) js fresh ∙ h),
  Unlike-update names i key js fresh u,
)

itself : (i : ℕ) → (i == i) ≡ true
itself i = ground arith

module _ {ℓ} {T : Type ℓ} where
  view-update_key :
      (names : ℕ → List ℕ) (items : ℕ → T) (i : ℕ) (key ids : List ℕ)
      → Fresh i ids
      → view (update names i key) items ids ≡ view names items ids
  view-update_key names items i key [] fresh = refl
  view-update_key names items i key (j ∷ js) (other, fresh) =
      rw (other, view-update_key names items i key js fresh)

  pub view-update_value :
      (names : ℕ → List ℕ) (items : ℕ → T) (i : ℕ) (v : T) (ids : List ℕ)
      → Fresh i ids
      → view names (update items i v) ids ≡ view names items ids
  view-update_value names items i v [] fresh = refl
  view-update_value names items i v (j ∷ js) (other, fresh) =
      rw (other, view-update_value names items i v js fresh)

  pub insert-Holds :
      (key : List ℕ) (value : T) (c : Cache T) (ids : List ℕ)
      → Holds c ids
      → find c.node_key key ids ≡ none
      → Holds (insert key value c) (c.allocated ∷ ids)
  unfolding insert add_to_front
  insert-Holds key value c ids h absent =
      let i : ℕ = c.allocated in
      let fresh = AllBelow-Fresh i ids h.known in
      let made : Linked
          (record c {
            node_key = update c.node_key i key;
            node_value = update c.node_value i value;
            prev = update c.prev i none;
            next = update c.next i none;
            allocated = i + 1;
          })
          ids =
        record {
          links =
              Segment-next_Fresh (update c.prev i none) c.next none none ids i none fresh
                (Segment-prev_Fresh c.prev c.next none none ids i none fresh h.linked.links);
          distinct = h.linked.distinct;
          at_head = h.linked.at_head;
          at_tail = h.linked.at_tail;
        } in
      let l = add_to_front-Linked _ ids i fresh made in
      let named : update c.node_key i key i ≡ key = rw (itself i) refl in
      record {
        linked = record {
          links = l.links;
          distinct = l.distinct;
          at_head = l.at_head;
          at_tail = l.at_tail;
        };
        count = ap (λ n. n + 1) h.count ∙ omega arith;
        known = (omega arith, AllBelow-next i ids h.known);
        unlike = (
          rw named (find-update c.node_key i key key ids fresh ∙ absent),
          Unlike-update c.node_key i key ids fresh h.unlike,
        );
        found = λ k. elim (Bool-cases (list_eq key k)) [
          | inl same ↦ rw (named, same) refl
          | inr other ↦
              rw (named, other) (h.found k ∙ sym (find-update c.node_key i key k ids fresh))
        ];
      }

  pub view-insert :
      (key : List ℕ) (value : T) (c : Cache T) (ids : List ℕ)
      → AllBelow c.allocated ids
      → view (insert key value c).node_key (insert key value c).node_value (c.allocated ∷ ids)
        ≡ (key, value) ∷ view c.node_key c.node_value ids
  unfolding insert add_to_front
  view-insert key value c ids known =
      let i : ℕ = c.allocated in
      let fresh = AllBelow-Fresh i ids known in
      rw
        (
          itself i,
          view-update_key c.node_key (update c.node_value i value) i key ids fresh,
          view-update_value c.node_key c.node_value i value ids fresh,
        )
        refl
