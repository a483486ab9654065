-- ===== src/Lru.antt =====
-- packages/websocket-tracker/src/lru.ts. A node is an address, and each field of the nodes is a
-- function of addresses; `allocated` is the next free one. A string is the list of its code units,
-- and the `Map` is a function of keys. The capacity is a natural number.
pub mod Links
pub mod View
pub mod Moves
pub mod Names
pub mod Inserts
pub mod Laws
pub mod Puts
pub mod Walks
pub mod History
pub mod Capacity
mod Tests
use browsertorrent.Common.{
  ℕ, zero, suc, ◌+◌, ◌-◌, ◌≤◌, Bool, true, false, Option, none, some, List, [], ◌∷◌, if◌then◌else◌,
  ◌==◌, list_eq, leb,
}

-- A field with the value at one address changed.
abbrev pub update {ℓ} : {A : Type ℓ} → (ℕ → A) → ℕ → A → ℕ → A
update f i x j = if j == i then x else f j

-- The same, where a reference may be `null`.
abbrev pub update_at {ℓ} : {A : Type ℓ} → (ℕ → A) → Option ℕ → A → ℕ → A
update_at f none x = f
update_at f (some i) x = update f i x

module _ {ℓ} (T : Type ℓ) where
  -- `LRUCache`, with the fields of its `LRUNode`s.
  pub record Cache : Type ℓ where
    pub node_key : ℕ → List ℕ
    pub node_value : ℕ → T
    pub prev : ℕ → Option ℕ
    pub next : ℕ → Option ℕ
    pub allocated : ℕ
    pub nodes : List ℕ → Option ℕ
    pub head : Option ℕ
    pub tail : Option ℕ
    pub capacity : ℕ
    pub size : ℕ

-- `map.set` and `map.delete`.
abbrev pub put_node : (List ℕ → Option ℕ) → List ℕ → Option ℕ → List ℕ → Option ℕ
put_node nodes k o k' = if list_eq k k' then o else nodes k'

abbrev pub is_same : Option ℕ → ℕ → Bool
is_same none i = false
is_same (some j) i = j == i

-- A reference, or another if it is `null`.
abbrev pub or_if_null : Option ℕ → Option ℕ → Option ℕ
or_if_null none p = p
or_if_null (some i) p = some i

abbrev pub unless_null : Option ℕ → Option ℕ → Option ℕ → Option ℕ
unless_null none p q = q
unless_null (some i) p q = p

abbrev pub push {ℓ} : {A : Type ℓ} → A → Option (List A) → Option (List A)
push x none = none
push x (some xs) = some (x ∷ xs)

-- `capacity: number = 100`
abbrev pub cache_capacity : Option ℕ → ℕ
cache_capacity none = 100
cache_capacity (some n) = n

module _ {ℓ} {T : Type ℓ} where
  -- The constructor; `blank` is what stands for the value at addresses without a node.
  unfoldable pub new : T → Option ℕ → Cache T
  new blank capacity = record {
    node_key = λ i. [];
    node_value = λ i. blank;
    prev = λ i. none;
    next = λ i. none;
    allocated = 0;
    nodes = λ k. none;
    head = none;
    tail = none;
    capacity = cache_capacity capacity;
    size = 0;
  }

  -- `addToFront`
  unfoldable pub add_to_front : Cache T → ℕ → Cache T
  add_to_front c i = record c {
    prev = update_at (update c.prev i none) c.head (some i);
    next = update c.next i c.head;
    head = some i;
    tail = or_if_null c.tail (some i);
  }

  -- `removeNode`
  unfoldable pub remove_node : Cache T → ℕ → Cache T
  remove_node c i =
      let before : Option ℕ = c.prev i in
      let behind : Option ℕ = c.next i in
      record c {
        prev = update (update_at c.prev behind before) i none;
        next = update (update_at c.next before behind) i none;
        head = unless_null before c.head behind;
        tail = unless_null behind c.tail before;
      }

  -- `moveToFront`
  unfoldable pub move_to_front : Cache T → ℕ → Cache T
  unfolding add_to_front remove_node
  move_to_front c i = if is_same c.head i then c else add_to_front (remove_node c i) i

  -- `evict`
  unfoldable pub drop_node : Cache T → Option ℕ → Cache T
  unfolding remove_node
  drop_node c none = c
  drop_node c (some i) =
      let d : Cache T = remove_node c i in
      record d { nodes = put_node d.nodes (c.node_key i) none; size = d.size - 1 }

  unfoldable pub evict : Cache T → Cache T
  unfolding drop_node
  evict c = drop_node c c.tail

  unfoldable pub get_node : Cache T → Option ℕ → Option T × Cache T
  unfolding move_to_front
  get_node c none = (none, c)
  get_node c (some i) = (some (c.node_value i), move_to_front c i)

  unfoldable pub get : List ℕ → Cache T → Option T × Cache T
  unfolding get_node
  get key c = get_node c (c.nodes key)

  -- A new node with the key and the value.
  unfoldable pub insert : List ℕ → T → Cache T → Cache T
  unfolding add_to_front
  insert key value c =
      let i : ℕ = c.allocated in
      let made : Cache T = record c {
        node_key = update c.node_key i key;
        node_value = update c.node_value i value;
        prev = update c.prev i none;
        next = update c.next i none;
        allocated = i + 1;
      } in
      let d : Cache T = add_to_front made i in
      record d { nodes = put_node d.nodes key (some i); size = d.size + 1 }

  unfoldable pub put_new : List ℕ → T → Cache T → Cache T
  unfolding insert evict
  put_new key value c = insert key value (if leb c.capacity c.size then evict c else c)

  unfoldable pub put_at : List ℕ → T → Cache T → Option ℕ → Cache T
  unfolding put_new move_to_front
  put_at key value c none = put_new key value c
  put_at key value c (some i) =
      move_to_front (record c { node_value = update c.node_value i value }) i

  unfoldable pub put : List ℕ → T → Cache T → Cache T
  unfolding put_at
  put key value c = put_at key value c (c.nodes key)

  unfoldable pub remove_at : List ℕ → Cache T → Option ℕ → Bool × Cache T
  unfolding remove_node
  remove_at key c none = (false, c)
  remove_at key c (some i) =
      let d : Cache T = remove_node c i in
      (true, record d { nodes = put_node d.nodes key none; size = d.size - 1 })

  unfoldable pub remove : List ℕ → Cache T → Bool × Cache T
  unfolding remove_at
  remove key c = remove_at key c (c.nodes key)

  abbrev pub has : List ℕ → Cache T → Bool
  has key c = elim (c.nodes key) [ none ↦ false | some i ↦ true ]

  abbrev pub get_size : Cache T → ℕ
  get_size c = c.size

  unfoldable pub clear : Cache T → Cache T
  clear c = record c { nodes = λ k. none; head = none; tail = none; size = 0 }

  -- The loop of `keys`, `values` and `entries`, on fuel, with what is pushed for a node.
  unfoldable pub walk {κ} : {A : Type κ} → ℕ → (ℕ → A) → Cache T → Option ℕ → Option (List A)
  walk fuel item c none = some []
  walk zero item c (some i) = none
  walk (suc fuel) item c (some i) = push (item i) (walk fuel item c (c.next i))

  unfoldable pub keys : Cache T → Option (List (List ℕ))
  unfolding walk
  keys c = walk c.size c.node_key c c.head

  unfoldable pub values : Cache T → Option (List T)
  unfolding walk
  values c = walk c.size c.node_value c c.head

  unfoldable pub entries : Cache T → Option (List (List ℕ × T))
  unfolding walk
  entries c = walk c.size (λ i. (c.node_key i, c.node_value i)) c c.head
