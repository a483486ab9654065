-- ===== src/Tracker/Sets.antt =====
-- The sets of peers of the swarms, and the entries that hold them.
use browsertorrent.Common.{
  ℕ, suc, ◌≤◌, ◌≡◌, ◌≢◌, refl, Option, none, some, List, [], ◌∷◌, ◌++◌, length, leb, length-append,
  list_eq, arith, Bool-cases, inl, inr,
}
use Prim.Native.Nat.{max}
use browsertorrent.Lru.View.{lookup, without, without_last}
use browsertorrent.Lru.Laws.{touched, stored}
use browsertorrent.Tracker.Swarm.{is_member, delete_member, make_room, joined, peers_or_none}

-- No peer has the empty string for a name.
abbrev pub AllNamed : List (List ℕ) → Type 0
AllNamed [] = Unit {0}
AllNamed (p ∷ ps) = (p ≢ []) × AllNamed ps

-- A set of at most so many named peers, or of one if that is zero.
abbrev pub Bounded : ℕ → List (List ℕ) → Type 0
Bounded n ps = (length ps ≤ max 1 n) × AllNamed ps

add_member-AllNamed :
    (p : List ℕ) (ps : List (List ℕ)) → p ≢ [] → AllNamed ps → AllNamed (ps ++ (p ∷ []))
add_member-AllNamed p [] h all = (h, tt)
add_member-AllNamed p (q ∷ qs) h all = (all.0, add_member-AllNamed p qs h all.1)

make_room-Bounded :
    (n : ℕ) (ps : List (List ℕ))
    → Bounded n ps
    → (suc (length (make_room n ps)) ≤ max 1 n) × AllNamed (make_room n ps)
make_room-Bounded n [] h = elim (Bool-cases (leb n 0)) [
  | inl full ↦ rw full (ground arith, tt)
  | inr room ↦ rw room (ground arith, tt)
]
make_room-Bounded n ([] ∷ ps) h = absurd (h.1.0 refl)
make_room-Bounded n ((c ∷ cs) ∷ ps) h = elim (Bool-cases (leb n (suc (length ps)))) [
  | inl full ↦ rw full (h.0, h.1.1)
  | inr room ↦ rw room (ground arith, h.1)
]

-- A set stays within the bound when a peer joins it.
pub joined-Bounded :
    (n : ℕ) (p : List ℕ) (ps : List (List ℕ)) → p ≢ [] → Bounded n ps → Bounded n (joined n p ps)
joined-Bounded n p ps named h =
    let room : List (List ℕ) = make_room n ps in
    let (fits, all) = make_room-Bounded n ps h in
    elim (Bool-cases (is_member p room)) [
      | inl there ↦ rw there (omega (arith, fits), all)
      | inr absent ↦
          rw absent
            (omega (arith, length-append room (p ∷ []), fits), add_member-AllNamed p room named all)
    ]

pub delete_member-Bounded :
    (n : ℕ) (p : List ℕ) (ps : List (List ℕ)) → Bounded n ps → Bounded n (delete_member p ps)
delete_member-Bounded n p ps h = (le_trans (shorter p ps) h.0, named p ps h.1)
  where
    le_trans : {a b c : ℕ} → a ≤ b → b ≤ c → a ≤ c
    le_trans h k = omega arith

    shorter : (p : List ℕ) (ps : List (List ℕ)) → length (delete_member p ps) ≤ length ps
    shorter p [] = omega arith
    shorter p (q ∷ qs) = elim (Bool-cases (list_eq q p)) [
      | inl same ↦ rw same (omega arith)
      | inr other ↦ rw other (omega (arith, shorter p qs))
    ]

    named : (p : List ℕ) (ps : List (List ℕ)) → AllNamed ps → AllNamed (delete_member p ps)
    named p [] all = tt
    named p (q ∷ qs) (h, all) = elim (Bool-cases (list_eq q p)) [
      | inl same ↦ rw same all
      | inr other ↦ rw other (h, named p qs all)
    ]

abbrev pub Entries : Type 0
Entries = List (List ℕ × List (List ℕ))

-- All sets of the entries are within the bound.
abbrev pub AllBounded : ℕ → Entries → Type 0
AllBounded n [] = Unit {0}
AllBounded n ((k, ps) ∷ es) = Bounded n ps × AllBounded n es

pub AllBounded-lookup :
    (n : ℕ) (k : List ℕ) (es : Entries) → AllBounded n es → Bounded n (peers_or_none (lookup k es))
AllBounded-lookup n k [] h = (omega arith, tt)
AllBounded-lookup n k ((k', ps) ∷ es) (h, all) = elim (Bool-cases (list_eq k' k)) [
  | inl same ↦ rw same h
  | inr other ↦ rw other (AllBounded-lookup n k es all)
]

AllBounded-without :
    (n : ℕ) (k : List ℕ) (es : Entries) → AllBounded n es → AllBounded n (without k es)
AllBounded-without n k [] h = tt
AllBounded-without n k ((k', ps) ∷ es) (h, all) = elim (Bool-cases (list_eq k' k)) [
  | inl same ↦ rw same all
  | inr other ↦ rw other (h, AllBounded-without n k es all)
]

AllBounded-without_last : (n : ℕ) (es : Entries) → AllBounded n es → AllBounded n (without_last es)
AllBounded-without_last n [] h = tt
AllBounded-without_last n (e ∷ []) h = tt
AllBounded-without_last n (e ∷ e' ∷ es) (h, all) = (h, AllBounded-without_last n (e' ∷ es) all)

pub AllBounded-touched :
    (n : ℕ) (k : List ℕ) (es : Entries) → AllBounded n es → AllBounded n (touched k es)
AllBounded-touched n k es all = by_value (lookup k es) refl
  where
    by_value : (o : Option (List (List ℕ))) → lookup k es ≡ o → AllBounded n (touched k es)
    by_value none e = rw (e, touched) all
    by_value (some ps) e =
        rw (e, touched)
          ((rw (e, peers_or_none) at (AllBounded-lookup n k es all)), AllBounded-without n k es all)

pub AllBounded-stored :
    (n capacity : ℕ) (k : List ℕ) (ps : List (List ℕ)) (es : Entries)
    → Bounded n ps
    → AllBounded n es
    → AllBounded n (stored capacity k ps es)
AllBounded-stored n capacity k ps es h all = by_value (lookup k es) refl
  where
    by_value :
        (o : Option (List (List ℕ))) → lookup k es ≡ o → AllBounded n (stored capacity k ps es)
    by_value none e = elim (Bool-cases (leb capacity (length es))) [
      | inl full ↦ rw (e, full, stored) (h, AllBounded-without_last n es all)
      | inr room ↦ rw (e, room, stored) (h, all)
    ]
    by_value (some qs) e = rw (e, stored) (h, AllBounded-without n k es all)
