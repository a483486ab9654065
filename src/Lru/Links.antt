-- ===== src/Lru/Links.antt =====
-- Segments of the doubly linked list: the addresses in order, what stands before the first one and
-- what behind the last one.
use browsertorrent.Common.{
  ℕ, ◌≡◌, refl, true, false, Option, none, some, List, [], ◌∷◌, ◌++◌, ◌==◌, arith,
}
use browsertorrent.Lru.{update, update_at}

abbrev pub first_or : List ℕ → Option ℕ → Option ℕ
first_or [] n = n
first_or (i ∷ is) n = some i

abbrev pub last_or : List ℕ → Option ℕ → Option ℕ
last_or [] p = p
last_or (i ∷ is) p = last_or is (some i)

abbrev pub Segment : (ℕ → Option ℕ) → (ℕ → Option ℕ) → Option ℕ → List ℕ → Option ℕ → Type 0
Segment prev next p [] n = Unit {0}
Segment prev next p (i ∷ is) n =
    (prev i ≡ p) × (next i ≡ first_or is n) × Segment prev next (some i) is n

-- The address is not in the list; the addresses are different.
abbrev pub Fresh : ℕ → List ℕ → Type 0
Fresh i [] = Unit {0}
Fresh i (j ∷ js) = ((j == i) ≡ false) × Fresh i js

abbrev pub Distinct : List ℕ → Type 0
Distinct [] = Unit {0}
Distinct (i ∷ is) = Fresh i is × Distinct is

pub Segment-append :
    (prev next : ℕ → Option ℕ) (p n : Option ℕ) (xs ys : List ℕ)
    → Segment prev next p xs (first_or ys n)
    → Segment prev next (last_or xs p) ys n
    → Segment prev next p (xs ++ ys) n
Segment-append prev next p n [] ys h k = k
Segment-append prev next p n (i ∷ []) ys (before, behind, h) k = (before, behind, k)
Segment-append prev next p n (i ∷ j ∷ is) ys (before, behind, h) k =
    (before, behind, Segment-append prev next (some i) n (j ∷ is) ys h k)

pub Segment-append_left :
    (prev next : ℕ → Option ℕ) (p n : Option ℕ) (xs ys : List ℕ)
    → Segment prev next p (xs ++ ys) n
    → Segment prev next p xs (first_or ys n)
Segment-append_left prev next p n [] ys h = tt
Segment-append_left prev next p n (i ∷ []) ys (before, behind, h) = (before, behind, tt)
Segment-append_left prev next p n (i ∷ j ∷ is) ys (before, behind, h) =
    (before, behind, Segment-append_left prev next (some i) n (j ∷ is) ys h)

pub Segment-append_right :
    (prev next : ℕ → Option ℕ) (p n : Option ℕ) (xs ys : List ℕ)
    → Segment prev next p (xs ++ ys) n
    → Segment prev next (last_or xs p) ys n
Segment-append_right prev next p n [] ys h = h
Segment-append_right prev next p n (i ∷ is) ys (before, behind, h) =
    Segment-append_right prev next (some i) n is ys h

-- A write at an address that is not in the segment leaves it alone.
pub Segment-prev_Fresh :
    (prev next : ℕ → Option ℕ) (p n : Option ℕ) (is : List ℕ) (i : ℕ) (o : Option ℕ)
    → Fresh i is
    → Segment prev next p is n
    → Segment (update prev i o) next p is n
Segment-prev_Fresh prev next p n [] i o fresh h = tt
Segment-prev_Fresh prev next p n (j ∷ js) i o (other, fresh) (before, behind, h) =
    (rw other before, behind, Segment-prev_Fresh prev next (some j) n js i o fresh h)

pub Segment-next_Fresh :
    (prev next : ℕ → Option ℕ) (p n : Option ℕ) (is : List ℕ) (i : ℕ) (o : Option ℕ)
    → Fresh i is
    → Segment prev next p is n
    → Segment prev (update next i o) p is n
Segment-next_Fresh prev next p n [] i o fresh h = tt
Segment-next_Fresh prev next p n (j ∷ js) i o (other, fresh) (before, behind, h) =
    (before, rw other behind, Segment-next_Fresh prev next (some j) n js i o fresh h)

same : (i : ℕ) → (i == i) ≡ true
same i = ground arith

-- The first address of a segment gets another one before it.
pub Segment-relink_first :
    (prev next : ℕ → Option ℕ) (p p' n : Option ℕ) (is : List ℕ)
    → Distinct is
    → Segment prev next p is n
    → Segment (update_at prev (first_or is none) p') next p' is n
Segment-relink_first prev next p p' n [] d h = tt
Segment-relink_first prev next p p' n (i ∷ is) (fresh, d) (before, behind, h) =
    (rw (same i), behind, Segment-prev_Fresh prev next (some i) n is i p' fresh h)

Fresh-last :
    (i j : ℕ) (is : List ℕ)
    → Fresh i (j ∷ is)
    → (k : ℕ) × (last_or (j ∷ is) none ≡ some k) × ((i == k) ≡ false)
Fresh-last i j [] (other, fresh) = (j, refl, ground arith)
Fresh-last i j (j' ∷ is) (other, fresh) = Fresh-last i j' is fresh

-- The last address of a segment gets another one behind it.
pub Segment-relink_last :
    (prev next : ℕ → Option ℕ) (p n n' : Option ℕ) (is : List ℕ)
    → Distinct is
    → Segment prev next p is n
    → Segment prev (update_at next (last_or is none) n') p is n'
Segment-relink_last prev next p n n' [] d h = tt
Segment-relink_last prev next p n n' (i ∷ []) d (before, behind, h) = (before, rw (same i), tt)
Segment-relink_last prev next p n n' (i ∷ j ∷ is) (fresh, d) (before, behind, h) =
    let (k, last, other) = Fresh-last i j is fresh in
    (before, rw (last, other) behind, Segment-relink_last prev next (some i) n n' (j ∷ is) d h)

-- A reference that is no address of the list.
abbrev pub FreshAt : Option ℕ → List ℕ → Type 0
FreshAt none is = Unit {0}
FreshAt (some i) is = Fresh i is

pub Segment-prev_FreshAt :
    (prev next : ℕ → Option ℕ) (p n : Option ℕ) (is : List ℕ) (r o : Option ℕ)
    → FreshAt r is
    → Segment prev next p is n
    → Segment (update_at prev r o) next p is n
Segment-prev_FreshAt prev next p n is none o fresh h = h
Segment-prev_FreshAt prev next p n is (some i) o fresh h =
    Segment-prev_Fresh prev next p n is i o fresh h

pub Segment-next_FreshAt :
    (prev next : ℕ → Option ℕ) (p n : Option ℕ) (is : List ℕ) (r o : Option ℕ)
    → FreshAt r is
    → Segment prev next p is n
    → Segment prev (update_at next r o) p is n
Segment-next_FreshAt prev next p n is none o fresh h = h
Segment-next_FreshAt prev next p n is (some i) o fresh h =
    Segment-next_Fresh prev next p n is i o fresh h

pub Fresh-append_left : (i : ℕ) (xs ys : List ℕ) → Fresh i (xs ++ ys) → Fresh i xs
Fresh-append_left i [] ys h = tt
Fresh-append_left i (x ∷ xs) ys h = (h.0, Fresh-append_left i xs ys h.1)

pub Fresh-append_right : (i : ℕ) (xs ys : List ℕ) → Fresh i (xs ++ ys) → Fresh i ys
Fresh-append_right i [] ys h = h
Fresh-append_right i (x ∷ xs) ys h = Fresh-append_right i xs ys h.1

pub Fresh-append : (i : ℕ) (xs ys : List ℕ) → Fresh i xs → Fresh i ys → Fresh i (xs ++ ys)
Fresh-append i [] ys h k = k
Fresh-append i (x ∷ xs) ys h k = (h.0, Fresh-append i xs ys h.1 k)

pub Distinct-append_left : (xs ys : List ℕ) → Distinct (xs ++ ys) → Distinct xs
Distinct-append_left [] ys d = tt
Distinct-append_left (x ∷ xs) ys d = (Fresh-append_left x xs ys d.0, Distinct-append_left xs ys d.1)

pub Distinct-append_right : (xs ys : List ℕ) → Distinct (xs ++ ys) → Distinct ys
Distinct-append_right [] ys d = d
Distinct-append_right (x ∷ xs) ys d = Distinct-append_right xs ys d.1

-- Without one of its addresses, the list is as it was.
pub Distinct-without :
    (xs ys : List ℕ) (i : ℕ) → Distinct (xs ++ (i ∷ ys)) → Distinct (xs ++ ys) × Fresh i (xs ++ ys)
Distinct-without [] ys i d = (d.1, d.0)
Distinct-without (x ∷ xs) ys i (fresh, d) =
    let (rest, apart) = Distinct-without xs ys i d in
    let right = Fresh-append_right x xs (i ∷ ys) fresh in
    let other : (x == i) ≡ false = ground arith in
    ((Fresh-append x xs ys (Fresh-append_left x xs (i ∷ ys) fresh) right.1, rest), (other, apart))

pub first_or-FreshAt : (xs ys : List ℕ) → Distinct (xs ++ ys) → FreshAt (first_or ys none) xs
first_or-FreshAt xs [] d = tt
first_or-FreshAt [] (y ∷ ys) d = tt
first_or-FreshAt (x ∷ xs) (y ∷ ys) (fresh, d) =
    let right = Fresh-append_right x xs (y ∷ ys) fresh in
    let other : (x == y) ≡ false = ground arith in (other, first_or-FreshAt xs (y ∷ ys) d)

pub last_or-FreshAt : (xs ys : List ℕ) → Distinct (xs ++ ys) → FreshAt (last_or xs none) ys
last_or-FreshAt [] ys d = tt
last_or-FreshAt (x ∷ []) ys (fresh, d) = fresh
last_or-FreshAt (x ∷ y ∷ xs) ys (fresh, d) = last_or-FreshAt (y ∷ xs) ys d

pub last_or-append :
    (xs ys : List ℕ) (p : Option ℕ) → last_or (xs ++ ys) p ≡ last_or ys (last_or xs p)
last_or-append [] ys p = refl
last_or-append (x ∷ xs) ys p = last_or-append xs ys (some x)

-- The writes of `removeNode` take the address out of the list.
pub Segment-without :
    (prev next : ℕ → Option ℕ) (xs ys : List ℕ) (i : ℕ)
    → Distinct (xs ++ (i ∷ ys))
    → Segment prev next none (xs ++ (i ∷ ys)) none
    → Segment
        (update (update_at prev (first_or ys none) (last_or xs none)) i none)
        (update (update_at next (last_or xs none) (first_or ys none)) i none)
        none
        (xs ++ ys)
        none
Segment-without prev next xs ys i d h =
    let p : Option ℕ = last_or xs none in
    let n : Option ℕ = first_or ys none in
    let next' : ℕ → Option ℕ = update_at next p n in
    let prev' : ℕ → Option ℕ = update_at prev n p in
    let (rest, apart) = Distinct-without xs ys i d in
    let dx = Distinct-append_left xs ys rest in
    let dy = Distinct-append_right xs ys rest in
    let left = Segment-append_left prev next none none xs (i ∷ ys) h in
    let right = Segment-append_right prev next none none xs (i ∷ ys) h in
    let left' =
      Segment-prev_FreshAt prev next' none n xs n p (first_or-FreshAt xs ys rest)
        (Segment-relink_last prev next none (some i) n xs dx left) in
    let right' =
      Segment-next_FreshAt prev' next p none ys p n (last_or-FreshAt xs ys rest)
        (Segment-relink_first prev next (some i) p none ys dy right.2) in
    let joined = Segment-append prev' next' none none xs ys left' right' in
    Segment-next_Fresh (update prev' i none) next' none none (xs ++ ys) i none apart
      (Segment-prev_Fresh prev' next' none none (xs ++ ys) i none apart joined)

-- The writes of `addToFront` put the address in front.
pub Segment-in_front :
    (prev next : ℕ → Option ℕ) (is : List ℕ) (i : ℕ)
    → Fresh i is
    → Distinct is
    → Segment prev next none is none
    → Segment
        (update_at (update prev i none) (first_or is none) (some i))
        (update next i (first_or is none))
        none
        (i ∷ is)
        none
Segment-in_front prev next [] i fresh d h = (rw (same i), rw (same i), tt)
Segment-in_front prev next (j ∷ js) i fresh d h =
    let other : (i == j) ≡ false = ground arith in
    (
      rw (other, same i),
      rw (same i),
      Segment-next_Fresh (update_at (update prev i none) (some j) (some i)) next (some i) none
          (j ∷ js) i _ fresh
          (Segment-relink_first (update prev i none) next none (some i) none (j ∷ js) d
            (Segment-prev_Fresh prev next none none (j ∷ js) i none fresh h)),
    )
