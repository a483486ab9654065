-- ===== src/Lru/Tests.antt =====
-- Calls of a cache for two numbers, written out.
use browsertorrent.Common.{ℕ, ◌≤◌, ◌≡◌, some, List, [], ◌∷◌}
use Prim.Native.Nat.{max}
use browsertorrent.Lru.{Cache, new, get, put, entries, keys, values, cache_capacity}
use browsertorrent.Lru.View.{Represents}
use browsertorrent.Lru.Laws.{stored, get_lem}
use browsertorrent.Lru.Puts.{put_lem}
use browsertorrent.Lru.Walks.{entries_lem}
use browsertorrent.Lru.History.{Call, get_call, put_call, run}
use browsertorrent.Lru.Capacity.{run_lem, size_bounded}

abbrev calls : List (Call ℕ)
calls = put_call (97 ∷ []) 1 ∷ put_call (98 ∷ []) 2 ∷ []

abbrev two : Cache ℕ
two = run calls (new 0 (some 2))

abbrev two_entries : List (List ℕ × ℕ)
two_entries = (98 ∷ [], 2) ∷ (97 ∷ [], 1) ∷ []

two-Represents : Represents two two_entries
two-Represents = run_lem 0 (some 2) calls

abbrev four_calls : List (Call ℕ)
four_calls =
    put_call (97 ∷ []) 1 ∷ put_call (98 ∷ []) 2 ∷ get_call (97 ∷ []) ∷ put_call (99 ∷ []) 3 ∷ []

run_lem_example :
    Represents {T = ℕ} (run four_calls (new 0 (some 2))) ((99 ∷ [], 3) ∷ (97 ∷ [], 1) ∷ [])
run_lem_example = run_lem 0 (some 2) four_calls

size_bounded_example : (run calls (new 0 (some 0))).size ≤ max 1 (cache_capacity (some 0))
size_bounded_example = size_bounded 0 (some 0) calls

get_lem_example :
    ((get (97 ∷ []) two).0 ≡ some 1)
    × Represents (get (97 ∷ []) two).1 ((97 ∷ [], 1) ∷ (98 ∷ [], 2) ∷ [])
get_lem_example = get_lem (97 ∷ []) two two_entries two-Represents

put_lem_example : Represents (put (99 ∷ []) 3 two) (stored two.capacity (99 ∷ []) 3 two_entries)
put_lem_example = put_lem (99 ∷ []) 3 two two_entries two-Represents

entries_lem_example :
    (entries two ≡ some two_entries)
    × (keys two ≡ some ((98 ∷ []) ∷ (97 ∷ []) ∷ []))
    × (values two ≡ some (2 ∷ 1 ∷ []))
entries_lem_example = entries_lem two two_entries two-Represents
