-- ===== src/Lru/View.antt =====
-- What a cache stands for: its entries, the most recent first.
use browsertorrent.Common.{
  ℕ, ◌<◌, ◌≡◌, refl, sym, ap, ◌∙◌, true, false, Option, none, some, List, [], ◌∷◌, ◌++◌,
  if◌then◌else◌, length, list_eq, list_eq→eq, list_eq_refl, Bool-cases, inl, inr,
}
use browsertorrent.Lru.{Cache}
use browsertorrent.Lru.Links.{first_or, last_or, Segment, Distinct}

-- The first address whose node has the key.
abbrev pub find : (ℕ → List ℕ) → List ℕ → List ℕ → Option ℕ
find names k [] = none
find names k (i ∷ is) = if list_eq (names i) k then some i else find names k is

-- No two nodes have the same key.
abbrev pub Unlike : (ℕ → List ℕ) → List ℕ → Type 0
Unlike names [] = Unit {0}
Unlike names (i ∷ is) = (find names (names i) is ≡ none) × Unlike names is

abbrev pub AllBelow : ℕ → List ℕ → Type 0
AllBelow n [] = Unit {0}
AllBelow n (i ∷ is) = (i < n) × AllBelow n is

module _ {ℓ} {T : Type ℓ} where
  -- The links of a cache go through the addresses.
  pub record Linked (c : Cache T) (ids : List ℕ) : Type ℓ where
    pub links : Segment c.prev c.next none ids none
    pub distinct : Distinct ids
    pub at_head : c.head ≡ first_or ids none
    pub at_tail : c.tail ≡ last_or ids none

  -- A well-formed cache with its addresses in order.
  pub record Holds (c : Cache T) (ids : List ℕ) : Type ℓ where
    pub linked : Linked c ids
    pub count : c.size ≡ length ids
    pub known : AllBelow c.allocated ids
    pub unlike : Unlike c.node_key ids
    pub found : (k : List ℕ) → c.nodes k ≡ find c.node_key k ids

  abbrev pub view : (ℕ → List ℕ) → (ℕ → T) → List ℕ → List (List ℕ × T)
  view names items [] = []
  view names items (i ∷ is) = (names i, items i) ∷ view names items is

  -- The cache stands for the entries.
  pub record Represents (c : Cache T) (es : List (List ℕ × T)) : Type ℓ where
    pub ids : List ℕ
    pub holds : Holds c ids
    pub shows : view c.node_key c.node_value ids ≡ es

  -- The operations on entries.
  abbrev pub lookup : List ℕ → List (List ℕ × T) → Option T
  lookup k [] = none
  lookup k ((k', v) ∷ es) = if list_eq k' k then some v else lookup k es

  abbrev pub without : List ℕ → List (List ℕ × T) → List (List ℕ × T)
  without k [] = []
  without k ((k', v) ∷ es) = if list_eq k' k then es else (k', v) ∷ without k es

  abbrev pub without_last : List (List ℕ × T) → List (List ℕ × T)
  without_last [] = []
  without_last (e ∷ []) = []
  without_last (e ∷ e' ∷ es) = e ∷ without_last (e' ∷ es)

  pub view-append :
      (names : ℕ → List ℕ) (items : ℕ → T) (xs ys : List ℕ)
      → view names items (xs ++ ys) ≡ view names items xs ++ view names items ys
  view-append names items [] ys = refl
  view-append names items (x ∷ xs) ys = ap (◌∷◌ (names x, items x)) (view-append names items xs ys)

  pub lookup-find :
      (names : ℕ → List ℕ) (items : ℕ → T) (k : List ℕ) (ids : List ℕ)
      → lookup k (view names items ids)
        ≡ elim (find names k ids) [ none ↦ none | some i ↦ some (items i) ]
  lookup-find names items k [] = refl
  lookup-find names items k (i ∷ is) = elim (Bool-cases (list_eq (names i) k)) [
    | inl same ↦ rw same refl
    | inr other ↦ rw other (lookup-find names items k is)
  ]

-- Where a key is found.
pub record Split (names : ℕ → List ℕ) (k : List ℕ) (ids : List ℕ) (i : ℕ) : Type 0 where
  pub before : List ℕ
  pub behind : List ℕ
  pub shape : ids ≡ before ++ (i ∷ behind)
  pub named : names i ≡ k
  pub earlier : find names k before ≡ none

pub find-Split :
    (names : ℕ → List ℕ) (k ids : List ℕ) (i : ℕ) → find names k ids ≡ some i → Split names k ids i
find-Split names k [] i h = cc
find-Split names k (j ∷ js) i h = elim (Bool-cases (list_eq (names j) k)) [
  | inl same ↦
      let e : some j ≡ some i = rw same at h in
      let here : j ≡ i = ap (λ o. elim o [ none ↦ j | some m ↦ m ]) e in
      record {
        before = [];
        behind = js;
        shape = ap (λ m. m ∷ js) here;
        named = ap names (sym here) ∙ list_eq→eq (names j) k same;
        earlier = refl;
      }
  | inr other ↦
      let s = find-Split names k js i (rw other at h) in
      record {
        before = j ∷ s.before;
        behind = s.behind;
        shape = ap (◌∷◌ j) s.shape;
        named = s.named;
        earlier = rw other s.earlier;
      }
]

pub find-append_none :
    (names : ℕ → List ℕ) (k xs ys : List ℕ)
    → find names k xs ≡ none
    → find names k (xs ++ ys) ≡ find names k ys
find-append_none names k [] ys h = refl
find-append_none names k (x ∷ xs) ys h = elim (Bool-cases (list_eq (names x) k)) [
  | inl same ↦ let e : some x ≡ none = rw same at h in cc
  | inr other ↦ rw other (find-append_none names k xs ys (rw other at h))
]

-- Another key is found as before when an address is taken out.
pub find-skip :
    (names : ℕ → List ℕ) (k xs ys : List ℕ) (i : ℕ)
    → list_eq (names i) k ≡ false
    → find names k (xs ++ (i ∷ ys)) ≡ find names k (xs ++ ys)
find-skip names k [] ys i other = rw other
find-skip names k (x ∷ xs) ys i other = rw (find-skip names k xs ys i other)

Unlike-head :
    (names : ℕ → List ℕ) (k xs ys : List ℕ) (i : ℕ)
    → find names k (xs ++ (i ∷ ys)) ≡ none
    → find names k (xs ++ ys) ≡ none
Unlike-head names k [] ys i h = elim (Bool-cases (list_eq (names i) k)) [
  | inl same ↦ let e : some i ≡ none = rw same at h in cc
  | inr other ↦ rw other at h
]
Unlike-head names k (x ∷ xs) ys i h = elim (Bool-cases (list_eq (names x) k)) [
  | inl same ↦ let e : some x ≡ none = rw same at h in cc
  | inr other ↦ rw other (Unlike-head names k xs ys i (rw other at h))
]

pub Unlike-without :
    (names : ℕ → List ℕ) (xs ys : List ℕ) (i : ℕ)
    → Unlike names (xs ++ (i ∷ ys))
    → Unlike names (xs ++ ys)
Unlike-without names [] ys i (h, u) = u
Unlike-without names (x ∷ xs) ys i (h, u) =
    (Unlike-head names (names x) xs ys i h, Unlike-without names xs ys i u)

pub Unlike-behind :
    (names : ℕ → List ℕ) (xs ys : List ℕ) (i : ℕ)
    → Unlike names (xs ++ (i ∷ ys))
    → find names (names i) ys ≡ none
Unlike-behind names [] ys i (h, u) = h
Unlike-behind names (x ∷ xs) ys i (h, u) = Unlike-behind names xs ys i u

pub AllBelow-without :
    (n : ℕ) (xs ys : List ℕ) (i : ℕ) → AllBelow n (xs ++ (i ∷ ys)) → AllBelow n (xs ++ ys) × (i < n)
AllBelow-without n [] ys i (h, b) = (b, h)
AllBelow-without n (x ∷ xs) ys i (h, b) =
    let (rest, here) = AllBelow-without n xs ys i b in ((h, rest), here)

pub without-Split {ℓ} :
    {T : Type ℓ} (names : ℕ → List ℕ) (items : ℕ → T) (k xs ys : List ℕ) (i : ℕ)
    → names i ≡ k
    → find names k xs ≡ none
    → without k (view names items (xs ++ (i ∷ ys))) ≡ view names items (xs ++ ys)
without-Split names items k [] ys i same h =
    let e : list_eq (names i) k ≡ true = rw same (list_eq_refl k) in rw e
without-Split names items k (x ∷ xs) ys i same h = elim (Bool-cases (list_eq (names x) k)) [
  | inl here ↦ let e : some x ≡ none = rw here at h in cc
  | inr other ↦
      rw other
        (ap (◌∷◌ (names x, items x)) (without-Split names items k xs ys i same (rw other at h)))
]
