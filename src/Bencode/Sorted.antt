-- ===== src/Bencode/Sorted.antt =====
-- The keys of an encoded dictionary.
use browsertorrent.Common.{
  ℕ, ◌≡◌, refl, sym, ap, ◌∙◌, length, ◌++◌, ok-injective, true, false, not, Option, none, some,
  List, [], ◌∷◌, Result, ok, >>=-eq-ok, guard, guard-eq-ok, arith, Bool-cases, inl, inr,
}
use mathlib.Core.Path.{subst}
use mathlib.Core.List.{append_assoc, Perm}
use browsertorrent.Bencode.Decimal.{decimal}
use mathlib.Core.List.Perm
use browsertorrent.Bencode.{above, same_bytes}
use browsertorrent.Bencode.Encode.{
  EncodeError, Encoded, insert_entry, sort_entries, repeats, write_entries, encode_sorted,
  encode_bytes, duplicate_key,
}
use browsertorrent.Bencode.Order.{Before, Before-not_above, Follows, Ascending}

-- The keys do not descend.
abbrev Below : Option (List ℕ) → List ℕ → Type 0
Below none k = Unit {0}
Below (some p) k = above p k ≡ false

abbrev Level : Option (List ℕ) → List Encoded → Type 0
Level o [] = Unit {0}
Level o ((k, v) ∷ es) = Below o k × Level (some k) es

above-Before : (a b : List ℕ) → above a b ≡ true → Before b a
above-Before [] [] h = cc
above-Before [] (y ∷ ys) h = cc
above-Before (x ∷ xs) [] h = refl
above-Before (x ∷ xs) (y ∷ ys) h = ground (arith, above-Before xs ys)

differs-Before : (a b : List ℕ) → above a b ≡ false → same_bytes a b ≡ false → Before a b
differs-Before a b = ground arith

insert_entry-Level :
    (o : Option (List ℕ)) (k : List ℕ) (v : Result EncodeError (List ℕ)) (es : List Encoded)
    → Below o k
    → Level o es
    → Level o (insert_entry (k, v) es)
unfolding insert_entry
insert_entry-Level o k v [] h levels = (h, tt)
insert_entry-Level o k v ((k', v') ∷ es) h (h', levels) = elim (Bool-cases (above k k')) [
  | inl higher ↦ rw higher (
    h',
    insert_entry-Level (some k') k v es (Before-not_above k' k (above-Before k k' higher)) levels,
  )
  | inr lower ↦ rw lower (h, (lower, levels))
]

sort_entries-Level : (es : List Encoded) → Level none (sort_entries es)
unfolding sort_entries
sort_entries-Level [] = tt
sort_entries-Level ((k, v) ∷ es) =
    insert_entry-Level none k v (sort_entries es) tt (sort_entries-Level es)

insert_entry-Perm : (e : Encoded) (es : List Encoded) → Perm (e ∷ es) (insert_entry e es)
unfolding insert_entry
insert_entry-Perm (k, v) [] = Perm.rfl
insert_entry-Perm (k, v) ((k', v') ∷ es) = elim (Bool-cases (above k k')) [
  | inl higher ↦
      rw higher (
        Perm.trans (Perm.swap (k', v') (k, v) es)
          (Perm.cons (k', v') (insert_entry-Perm (k, v) es)))
  | inr lower ↦ rw lower Perm.rfl
]

sort_entries-Perm : (es : List Encoded) → Perm es (sort_entries es)
unfolding sort_entries
sort_entries-Perm [] = Perm.nil
sort_entries-Perm (e ∷ es) =
    Perm.trans (Perm.cons e (sort_entries-Perm es)) (insert_entry-Perm e (sort_entries es))

distinct : (o : Option (List ℕ)) (k : List ℕ) → Below o k → repeats o k ≡ false → Follows o k
distinct none k h e = tt
distinct (some p) k h e = differs-Before p k h e

written-Ascending :
    (o : Option (List ℕ)) (es : List Encoded) (out : List ℕ)
    → Level o es
    → write_entries o es ≡ ok out
    → Ascending o es
unfolding write_entries
written-Ascending o [] out h e = tt
written-Ascending o ((k, v) ∷ es) out (h, levels) e =
    let (u, g, r) = >>=-eq-ok (guard (not (repeats o k)) duplicate_key) _ e in
    let (item, e1, r') = >>=-eq-ok v _ r in
    let (rest, e2, r'') = >>=-eq-ok (write_entries (some k) es) _ r' in
    let fresh = guard-eq-ok (not (repeats o k)) duplicate_key g in
    (distinct o k h (ground arith), written-Ascending (some k) es rest levels e2)

-- An entry of a dictionary that is written: its key and the bytes of its value.
abbrev Item : Type 0
Item = List ℕ × List ℕ

abbrev pub with_values : List Item → List Encoded
with_values [] = []
with_values ((k, v) ∷ items) = (k, ok v) ∷ with_values items

-- The items one after the other, each key with its length and a colon before it.
abbrev pub concatenated : List Item → List ℕ
concatenated [] = []
concatenated ((k, v) ∷ items) = decimal (length k) ++ (58 ∷ (k ++ (v ++ concatenated items)))

written-items :
    (o : Option (List ℕ)) (es : List Encoded) (out : List ℕ)
    → write_entries o es ≡ ok out
    → (items : List Item) × (es ≡ with_values items) × (out ≡ concatenated items)
unfolding write_entries encode_bytes
written-items o [] out e = ([], refl, sym (ok-injective e))
written-items o ((k, v) ∷ es) out e =
    let (u, g, r) = >>=-eq-ok (guard (not (repeats o k)) duplicate_key) _ e in
    let (item, e1, r') = >>=-eq-ok v _ r in
    let (rest, e2, r'') = >>=-eq-ok (write_entries (some k) es) _ r' in
    let (items, same, text) = written-items (some k) es rest e2 in
    (
      (k, item) ∷ items,
      ap (λ x. (k, x) ∷ es) e1 ∙ ap (λ x. (k, ok item) ∷ x) same,
      sym (ok-injective r'')
          ∙ append_assoc (decimal (length k)) (58 ∷ k) (item ++ rest)
          ∙ ap (λ x. decimal (length k) ++ (58 ∷ (k ++ (item ++ x)))) text,
    )

-- What a dictionary is encoded to is "d", then every given entry, with its key and the bytes of its
-- value, once, in strictly ascending order of the bytes of the keys, then "e".
pub encode_sorted-Ascending :
    (es : List Encoded) (out : List ℕ)
    → encode_sorted es ≡ ok out
    → (items : List (List ℕ × List ℕ)) × Perm es (with_values items)
      × Ascending none (with_values items)
      × (out ≡ 100 ∷ (concatenated items ++ (101 ∷ [])))
unfolding encode_sorted
encode_sorted-Ascending es out h =
    let (body, e, r) = >>=-eq-ok (write_entries none (sort_entries es)) _ h in
    let (items, same, text) = written-items none (sort_entries es) body e in
    (
      items,
      subst (Perm es) same (sort_entries-Perm es),
      subst (Ascending none) same
          (written-Ascending none (sort_entries es) body (sort_entries-Level es) e),
      sym (ok-injective r) ∙ ap (λ x. 100 ∷ (x ++ (101 ∷ []))) text,
    )
