-- ===== src/Bencode/Order.antt =====
-- The order of keys by their bytes.
use browsertorrent.Common.{
  ℕ, ◌≡◌, ◌≢◌, refl, ap, ◌∙◌, true, false, Option, none, some, List, [], ◌∷◌, arith,
}
use Prim.Native.Nat.{Ordering}
use browsertorrent.Bencode.{compare_bytes, above, same_bytes}
use browsertorrent.Bencode.Encode.{Encoded, insert_entry, sort_entries}

-- Whether the one key stands before the other.
abbrev pub Before : List ℕ → List ℕ → Type 0
Before a b = compare_bytes a b ≡ Ordering.lt

Before-irrefl : (a : List ℕ) → ¬ Before a a
Before-irrefl [] h = cc
Before-irrefl (x ∷ xs) h = Before-irrefl xs (ground arith)

pub Before-trans : (a b c : List ℕ) → Before a b → Before b c → Before a c
Before-trans [] [] c h k = cc
Before-trans [] (y ∷ ys) [] h k = cc
Before-trans [] (y ∷ ys) (z ∷ zs) h k = refl
Before-trans (x ∷ xs) [] c h k = cc
Before-trans (x ∷ xs) (y ∷ ys) [] h k = cc
Before-trans (x ∷ xs) (y ∷ ys) (z ∷ zs) h k = ground (arith, Before-trans xs ys zs)

pub Before-not_above : (a b : List ℕ) → Before a b → above a b ≡ false
Before-not_above a b h = rw (h, above)

pub Before-not_same : (a b : List ℕ) → Before a b → same_bytes a b ≡ false
Before-not_same a b h = rw (h, same_bytes)

pub Before-not_after : (a b : List ℕ) → Before a b → above b a ≡ true
Before-not_after [] [] h = cc
Before-not_after [] (y ∷ ys) h = refl
Before-not_after (x ∷ xs) [] h = cc
Before-not_after (x ∷ xs) (y ∷ ys) h = ground (arith, Before-not_after xs ys)

pub Before-ne : (a b : List ℕ) → Before a b → a ≢ b
Before-ne a b h e = Before-irrefl b (rw e at h)

-- What an optional key stands before: none before all.
abbrev pub Follows : Option (List ℕ) → List ℕ → Type 0
Follows none k = Unit {0}
Follows (some p) k = Before p k

pub Follows-trans : (o : Option (List ℕ)) (a b : List ℕ) → Follows o a → Before a b → Follows o b
Follows-trans none a b h k = tt
Follows-trans (some p) a b h k = Before-trans p a b h k

-- The keys stand in ascending order behind the first one.
abbrev pub Ascending : Option (List ℕ) → List Encoded → Type 0
Ascending o [] = Unit {0}
Ascending o ((k, v) ∷ es) = Follows o k × Ascending (some k) es

insert_entry-first :
    (e : Encoded) (es : List Encoded) → Ascending (some e.0) es → insert_entry e es ≡ e ∷ es
unfolding insert_entry
insert_entry-first (k, v) [] h = refl
insert_entry-first (k, v) ((k', v') ∷ es) h = rw (Before-not_above k k' h.0)

-- Entries in ascending order stay as they are.
pub sort_entries-Ascending :
    (o : Option (List ℕ)) (es : List Encoded) → Ascending o es → sort_entries es ≡ es
unfolding sort_entries
sort_entries-Ascending o [] h = refl
sort_entries-Ascending o ((k, v) ∷ es) h =
    ap (insert_entry (k, v)) (sort_entries-Ascending (some k) es h.1)
    ∙ insert_entry-first (k, v) es h.1
