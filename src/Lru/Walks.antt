-- ===== src/Lru/Walks.antt =====
-- The loop of `keys`, `values` and `entries`.
use browsertorrent.Common.{
  ℕ, zero, suc, ◌≡◌, refl, sym, ap, ◌∙◌, Option, none, some, List, [], ◌∷◌, length,
}
use browsertorrent.Common as Common
use browsertorrent.Lru.{Cache, walk, push, keys, values, entries}
use browsertorrent.Lru.Links.{first_or, Segment}
use browsertorrent.Lru.View.{Holds, Represents, view}

map-itself {ℓ} : {A : Type ℓ} (xs : List A) → Common.map (λ x. x) xs ≡ xs
map-itself [] = refl
map-itself (x ∷ xs) = ap (◌∷◌ x) (map-itself xs)

module _ {ℓ} {T : Type ℓ} where
  walk-Segment {κ} :
      {A : Type κ} (item : ℕ → A) (c : Cache T) (p : Option ℕ) (ids : List ℕ)
      → Segment c.prev c.next p ids none
      → walk (length ids) item c (first_or ids none) ≡ some (Common.map item ids)
  unfolding walk
  walk-Segment item c p [] h = refl
  walk-Segment item c p (i ∷ is) (before, behind, h) =
      ap (λ o. push (item i) (walk (length is) item c o)) behind
      ∙ ap (push (item i)) (walk-Segment item c (some i) is h)

  walk-Holds {κ} :
      {A : Type κ} (item : ℕ → A) (c : Cache T) (ids : List ℕ)
      → Holds c ids
      → walk c.size item c c.head ≡ some (Common.map item ids)
  walk-Holds item c ids h =
      ap (λ n. walk n item c c.head) h.count
      ∙ ap (λ o. walk (length ids) item c o) h.linked.at_head
      ∙ walk-Segment item c none ids h.linked.links

  map-view {κ} :
      {A : Type κ} (f : (List ℕ × T) → A) (names : ℕ → List ℕ) (items : ℕ → T) (ids : List ℕ)
      → Common.map (λ i. f (names i, items i)) ids ≡ Common.map f (view names items ids)
  map-view f names items [] = refl
  map-view f names items (i ∷ is) = ap (◌∷◌ (f (names i, items i))) (map-view f names items is)

  shown {κ} :
      {A : Type κ} (f : (List ℕ × T) → A) (c : Cache T) (es : List (List ℕ × T))
      → Represents c es
      → walk c.size (λ i. f (c.node_key i, c.node_value i)) c c.head ≡ some (Common.map f es)
  shown f c es r =
      walk-Holds (λ i. f (c.node_key i, c.node_value i)) c r.ids r.holds
      ∙ ap some (map-view f c.node_key c.node_value r.ids ∙ ap (Common.map f) r.shows)

  -- `entries`, `keys` and `values` come to their end with the entries, their keys and their values,
  -- the most recent first.
  pub entries_lem :
      (c : Cache T) (es : List (List ℕ × T))
      → Represents c es
      → (entries c ≡ some es)
        × (keys c ≡ some (Common.map (λ e. e.0) es))
        × (values c ≡ some (Common.map (λ e. e.1) es))
  unfolding entries keys values
  entries_lem c es r = (
    shown (λ e. e) c es r ∙ ap some (map-itself es),
    shown (λ e. e.0) c es r,
    shown (λ e. e.1) c es r,
  )
