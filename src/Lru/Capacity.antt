-- ===== src/Lru/Capacity.antt =====
-- A cache after any calls: what it stands for, and how many entries it has.
use browsertorrent.Common.{
  ℕ, suc, ◌-◌, ◌≤◌, ◌≡◌, refl, ap, Option, none, some, List, [], ◌∷◌, length, leb, list_eq, arith,
  Bool-cases, inl, inr,
}
use Prim.Native.Nat.{max}
use browsertorrent.Lru.{new, cache_capacity}
use browsertorrent.Lru.View.{Represents, lookup, without, without_last}
use browsertorrent.Lru.Laws.{touched, stored}
use browsertorrent.Lru.Puts.{Represents-size}
use browsertorrent.Lru.History.{
  Call, get_call, put_call, remove_call, clear_call, call_entries, run, run_entries, new-Represents,
  run-from,
}

module _ {ℓ} {T : Type ℓ} where
  length-without : (k : List ℕ) (es : List (List ℕ × T)) → length (without k es) ≤ length es
  length-without k [] = omega arith
  length-without k ((k', v) ∷ es) = elim (Bool-cases (list_eq k' k)) [
    | inl same ↦ rw same (omega arith)
    | inr other ↦ rw other (omega (arith, length-without k es))
  ]

  length-without_found :
      (k : List ℕ) (es : List (List ℕ × T)) (v : T)
      → lookup k es ≡ some v
      → suc (length (without k es)) ≡ length es
  length-without_found k [] v h = cc
  length-without_found k ((k', w) ∷ es) v h = elim (Bool-cases (list_eq k' k)) [
    | inl same ↦ rw same refl
    | inr other ↦ rw other (ap suc (length-without_found k es v (rw other at h)))
  ]

  length-without_last : (es : List (List ℕ × T)) → length (without_last es) ≡ length es - 1
  length-without_last [] = omega arith
  length-without_last (e ∷ []) = omega arith
  length-without_last (e ∷ e' ∷ es) = omega (arith, length-without_last (e' ∷ es))

  pub length-stored :
      (n : ℕ) (k : List ℕ) (v : T) (es : List (List ℕ × T)) (o : Option T)
      → lookup k es ≡ o
      → length es ≤ max 1 n
      → length (stored n k v es) ≤ max 1 n
  length-stored n k v es none e h = elim (Bool-cases (leb n (length es))) [
    | inl full ↦ rw (e, full, stored) (ground (arith, length-without_last es))
    | inr room ↦ rw (e, room, stored) (ground arith)
  ]
  length-stored n k v es (some w) e h =
      rw (e, stored) (omega (arith, length-without_found k es w e, h))

  pub length-touched :
      (k : List ℕ) (es : List (List ℕ × T)) (o : Option T)
      → lookup k es ≡ o
      → length (touched k es) ≡ length es
  length-touched k es none e = rw (e, touched) refl
  length-touched k es (some w) e = rw (e, touched) (length-without_found k es w e)

  length-call_entries :
      (n : ℕ) (o : Call T) (es : List (List ℕ × T))
      → length es ≤ max 1 n
      → length (call_entries n o es) ≤ max 1 n
  length-call_entries n (get_call k) es h = omega (arith, length-touched k es (lookup k es) refl, h)
  length-call_entries n (put_call k v) es h = length-stored n k v es (lookup k es) refl h
  length-call_entries n (remove_call k) es h = omega (arith, length-without k es, h)
  length-call_entries n clear_call es h = omega arith

  length-run_entries :
      (n : ℕ) (os : List (Call T)) (es : List (List ℕ × T))
      → length es ≤ max 1 n
      → length (run_entries n os es) ≤ max 1 n
  length-run_entries n [] es h = h
  length-run_entries n (o ∷ os) es h =
      length-run_entries n os (call_entries n o es) (length-call_entries n o es h)

  -- After any calls of `get`, `put`, `remove` and `clear`, a cache that started empty stands for the
  -- entries that the calls make of an empty list.
  pub run_lem :
      (blank : T) (capacity : Option ℕ) (os : List (Call T))
      → Represents (run os (new blank capacity)) (run_entries (cache_capacity capacity) os [])
  run_lem blank capacity os =
      run-from os (new blank capacity) [] (cache_capacity capacity) (unfold new in refl)
        (new-Represents blank capacity)

  -- After any calls, the size of a cache that started empty is at most its capacity, or one if the
  -- capacity is zero.
  pub size_bounded :
      (blank : T) (capacity : Option ℕ) (os : List (Call T))
      → (run os (new blank capacity)).size ≤ max 1 (cache_capacity capacity)
  size_bounded blank capacity os =
      let n : ℕ = cache_capacity capacity in
      let sized =
        Represents-size (run os (new blank capacity)) (run_entries n os [])
          (run_lem blank capacity os) in
      rw sized (length-run_entries n os [] (omega arith))
