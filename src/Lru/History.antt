-- ===== src/Lru/History.antt =====
-- Sequences of calls of a cache.
use browsertorrent.Common.{
  ℕ, ◌≡◌, refl, ◌∙◌, Option, none, some, List, [], ◌∷◌, leb, Bool-cases, inl, inr,
}
use mathlib.Core.Path.{subst}
use browsertorrent.Lru.{
  Cache, new, get, get_node, put, put_at, put_new, evict, drop_node, insert, add_to_front,
  remove_node, remove, remove_at, clear,
}
use browsertorrent.Lru.View.{Represents, without}
use browsertorrent.Lru.Names.{move_to_front-Kept}
use browsertorrent.Lru.Laws.{touched, stored, get_lem, remove_lem}
use browsertorrent.Lru.Puts.{put_lem}

pub data Call {ℓ} (T : Type ℓ) : Type ℓ where
  get_call : List ℕ → Call T
  put_call : List ℕ → T → Call T
  remove_call : List ℕ → Call T
  clear_call : Call T

module _ {ℓ} {T : Type ℓ} where
  abbrev pub call : Call T → Cache T → Cache T
  call (get_call k) c = (get k c).1
  call (put_call k v) c = put k v c
  call (remove_call k) c = (remove k c).1
  call clear_call c = clear c

  abbrev pub run : List (Call T) → Cache T → Cache T
  run [] c = c
  run (o ∷ os) c = run os (call o c)

  -- The same on entries, the most recent first.
  abbrev pub call_entries : ℕ → Call T → List (List ℕ × T) → List (List ℕ × T)
  call_entries capacity (get_call k) es = touched k es
  call_entries capacity (put_call k v) es = stored capacity k v es
  call_entries capacity (remove_call k) es = without k es
  call_entries capacity clear_call es = []

  abbrev pub run_entries : ℕ → List (Call T) → List (List ℕ × T) → List (List ℕ × T)
  run_entries capacity [] es = es
  run_entries capacity (o ∷ os) es = run_entries capacity os (call_entries capacity o es)

  pub new-Represents : (blank : T) (capacity : Option ℕ) → Represents (new blank capacity) []
  unfolding new
  new-Represents blank capacity = record {
    ids = [];
    holds = record {
      linked = record { links = tt; distinct = tt; at_head = refl; at_tail = refl };
      count = refl;
      known = tt;
      unlike = tt;
      found = λ k. refl;
    };
    shows = refl;
  }

  pub clear-Represents : (c : Cache T) → Represents (clear c) []
  unfolding clear
  clear-Represents c = record {
    ids = [];
    holds = record {
      linked = record { links = tt; distinct = tt; at_head = refl; at_tail = refl };
      count = refl;
      known = tt;
      unlike = tt;
      found = λ k. refl;
    };
    shows = refl;
  }

  pub get_node-capacity : (c : Cache T) (o : Option ℕ) → (get_node c o).1.capacity ≡ c.capacity
  unfolding get_node
  get_node-capacity c none = refl
  get_node-capacity c (some i) = (move_to_front-Kept c i).capacity

  remove_at-capacity :
      (k : List ℕ) (c : Cache T) (o : Option ℕ) → (remove_at k c o).1.capacity ≡ c.capacity
  unfolding remove_at remove_node
  remove_at-capacity k c none = refl
  remove_at-capacity k c (some i) = refl

  drop_node-capacity : (c : Cache T) (o : Option ℕ) → (drop_node c o).capacity ≡ c.capacity
  unfolding drop_node remove_node
  drop_node-capacity c none = refl
  drop_node-capacity c (some i) = refl

  put_new-capacity : (k : List ℕ) (v : T) (c : Cache T) → (put_new k v c).capacity ≡ c.capacity
  unfolding put_new insert add_to_front evict
  put_new-capacity k v c = elim (Bool-cases (leb c.capacity c.size)) [
    | inl full ↦ rw full (drop_node-capacity c c.tail)
    | inr room ↦ rw room refl
  ]

  pub put_at-capacity :
      (k : List ℕ) (v : T) (c : Cache T) (o : Option ℕ) → (put_at k v c o).capacity ≡ c.capacity
  unfolding put_at
  put_at-capacity k v c none = put_new-capacity k v c
  put_at-capacity k v c (some i) = (move_to_front-Kept _ i).capacity

  call-capacity : (o : Call T) (c : Cache T) → (call o c).capacity ≡ c.capacity
  unfolding get put remove clear
  call-capacity (get_call k) c = get_node-capacity c (c.nodes k)
  call-capacity (put_call k v) c = put_at-capacity k v c (c.nodes k)
  call-capacity (remove_call k) c = remove_at-capacity k c (c.nodes k)
  call-capacity clear_call c = refl

  call-Represents :
      (o : Call T) (c : Cache T) (es : List (List ℕ × T))
      → Represents c es
      → Represents (call o c) (call_entries c.capacity o es)
  call-Represents (get_call k) c es r = (get_lem k c es r).1
  call-Represents (put_call k v) c es r = put_lem k v c es r
  call-Represents (remove_call k) c es r = (remove_lem k c es r).1
  call-Represents clear_call c es r = clear-Represents c

  pub run-from :
      (os : List (Call T)) (c : Cache T) (es : List (List ℕ × T)) (capacity : ℕ)
      → c.capacity ≡ capacity
      → Represents c es
      → Represents (run os c) (run_entries capacity os es)
  run-from [] c es capacity e r = r
  run-from (o ∷ os) c es capacity e r =
      run-from os (call o c) (call_entries capacity o es) capacity (call-capacity o c ∙ e)
        (subst (λ n. Represents (call o c) (call_entries n o es)) e (call-Represents o c es r))
