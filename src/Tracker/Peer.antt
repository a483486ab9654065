-- ===== src/Tracker/Peer.antt =====
-- packages/websocket-tracker/src/peer.ts. A method takes the time and a new identifier where it asks
-- for them, and returns what it returns or throws, and the manager after it. A `Map` is the list of
-- its entries in the order in which their keys were set first. Strings are lists of code units,
-- counters and times natural numbers.
use browsertorrent.Common.{
  ℕ, Bool, true, false, Option, none, some, List, [], ◌∷◌, if◌then◌else◌, Result, ok, err, length,
  leb, ltb, list_eq,
}

-- A socket of the browser, or the empty object that stands for one.
pub data Socket : Type 0 where
  web_socket : ℕ → Socket
  placeholder : Socket

-- What is thrown when a method is called that an object does not have.
pub data Thrown : Type 0 where
  type_error : Thrown

pub record PeerInfo : Type 0 where
  pub id : List ℕ
  pub peer_id : List ℕ
  pub info_hash : List ℕ
  pub port : ℕ
  pub uploaded : ℕ
  pub downloaded : ℕ
  pub left : ℕ
  pub event : Option (List ℕ)
  pub connected_at : ℕ
  pub last_seen : ℕ

pub record PeerConnection : Type 0 where
  pub ws : Socket
  pub info : PeerInfo

-- `PeerConnectionManager`, with the sockets that it closed.
pub record PeerManager : Type 0 where
  pub connections : List (List ℕ × PeerConnection)
  pub max_connections : ℕ
  pub closed : List ℕ

-- `get`, `set` and `delete` of a `Map`.
abbrev pub find_connection : List ℕ → List (List ℕ × PeerConnection) → Option PeerConnection
find_connection k [] = none
find_connection k ((k', c) ∷ cs) = if list_eq k' k then some c else find_connection k cs

abbrev pub set_connection :
    List ℕ → PeerConnection → List (List ℕ × PeerConnection) → List (List ℕ × PeerConnection)
set_connection k c [] = (k, c) ∷ []
set_connection k c ((k', c') ∷ cs) =
    let rest = set_connection k c cs in if list_eq k' k then (k', c) ∷ cs else (k', c') ∷ rest

abbrev pub delete_connection :
    List ℕ → List (List ℕ × PeerConnection) → List (List ℕ × PeerConnection)
delete_connection k [] = []
delete_connection k ((k', c) ∷ cs) =
    let rest = delete_connection k cs in if list_eq k' k then cs else (k', c) ∷ rest

unfoldable pub new_peer_manager : Option ℕ → PeerManager
new_peer_manager max_connections = record {
  connections = [];
  max_connections = elim max_connections [ none ↦ 1000 | some n ↦ n ];
  closed = [];
}

-- `ws.close()`
unfoldable pub close : Socket → PeerManager → Result Thrown (Unit {0}) × PeerManager
close (web_socket n) m = (ok tt, record m { closed = n ∷ m.closed })
close placeholder m = (err type_error, m)

-- `removeConnection`
unfoldable pub delete_closed :
    List ℕ → Result Thrown (Unit {0}) × PeerManager → Result Thrown Bool × PeerManager
delete_closed peer_id (err e, m) = (err e, m)
delete_closed peer_id (ok u, m) =
    (ok true, record m { connections = delete_connection peer_id m.connections })

unfoldable pub remove_found :
    List ℕ → PeerManager → Option PeerConnection → Result Thrown Bool × PeerManager
unfolding close delete_closed
remove_found peer_id m none = (ok false, m)
remove_found peer_id m (some c) = delete_closed peer_id (close c.ws m)

unfoldable pub remove_connection : List ℕ → PeerManager → Result Thrown Bool × PeerManager
unfolding remove_found
remove_connection peer_id m = remove_found peer_id m (find_connection peer_id m.connections)

-- The loop of `evictOldestConnection`, with the oldest so far; `Infinity` is `none`.
abbrev pub earlier : ℕ → Option ℕ → Bool
earlier t none = true
earlier t (some u) = ltb t u

unfoldable pub oldest :
    Option (List ℕ) → Option ℕ → List (List ℕ × PeerConnection) → Option (List ℕ)
oldest found time [] = found
oldest found time ((peer_id, c) ∷ cs) =
    if earlier c.info.connected_at time
    then oldest (some peer_id) (some c.info.connected_at) cs
    else oldest found time cs

-- The empty string is false.
unfoldable pub evict_found : PeerManager → Option (List ℕ) → Result Thrown Bool × PeerManager
unfolding remove_connection
evict_found m none = (ok false, m)
evict_found m (some []) = (ok false, m)
evict_found m (some (c ∷ cs)) = remove_connection (c ∷ cs) m

unfoldable pub evict_oldest_connection : PeerManager → Result Thrown Bool × PeerManager
unfolding evict_found oldest
evict_oldest_connection m = evict_found m (oldest none none m.connections)

-- `addConnection`
unfoldable pub register :
    Socket → PeerInfo → Result Thrown Bool × PeerManager → Result Thrown PeerInfo × PeerManager
register ws info (err e, m) = (err e, m)
register ws info (ok b, m) = (
  ok info,
  record m {
    connections = set_connection info.peer_id (record { ws = ws; info = info }) m.connections;
  },
)

unfoldable pub add_connection :
    ℕ → List ℕ → Socket → List ℕ → List ℕ → ℕ → PeerManager → Result Thrown PeerInfo × PeerManager
unfolding register evict_oldest_connection
add_connection now uuid ws peer_id info_hash port m =
    register ws
      (record {
        id = uuid;
        peer_id = peer_id;
        info_hash = info_hash;
        port = port;
        uploaded = 0;
        downloaded = 0;
        left = 0;
        event = none;
        connected_at = now;
        last_seen = now;
      })
      (if leb m.max_connections (length m.connections)
        then evict_oldest_connection m
        else (ok false, m))

-- The info of a connection that is there is changed in place.
abbrev pub change_info :
    (PeerInfo → PeerInfo) → List ℕ → List (List ℕ × PeerConnection) → List (List ℕ × PeerConnection)
change_info f k [] = []
change_info f k ((k', c) ∷ cs) =
    let rest = change_info f k cs in
    if list_eq k' k then (k', record c { info = f c.info }) ∷ cs else (k', c) ∷ rest

abbrev pub get_connection : ℕ → List ℕ → PeerManager → Option PeerConnection × PeerManager
get_connection now peer_id m =
    let m' : PeerManager = record m {
      connections = change_info (λ i. record i { last_seen = now }) peer_id m.connections;
    } in
    (find_connection peer_id m'.connections, m')

abbrev pub update_stats : ℕ → List ℕ → ℕ → ℕ → ℕ → PeerManager → PeerManager
update_stats now peer_id uploaded downloaded left m = record m {
  connections =
      change_info
        (λ i. record i {
          uploaded = uploaded;
          downloaded = downloaded;
          left = left;
          last_seen = now;
        })
        peer_id m.connections;
}

abbrev pub update_event : ℕ → List ℕ → List ℕ → PeerManager → PeerManager
update_event now peer_id event m = record m {
  connections =
      change_info (λ i. record i { event = some event; last_seen = now }) peer_id m.connections;
}

abbrev pub get_peers_by_info_hash : List ℕ → List (List ℕ × PeerConnection) → List PeerInfo
get_peers_by_info_hash info_hash [] = []
get_peers_by_info_hash info_hash ((k, c) ∷ cs) =
    let rest = get_peers_by_info_hash info_hash cs in
    if list_eq c.info.info_hash info_hash then c.info ∷ rest else rest

-- `clear`: the sockets are closed one by one, then the map is emptied.
unfoldable pub close_all :
    List (List ℕ × PeerConnection) → PeerManager → Result Thrown (Unit {0}) × PeerManager
close_all [] m = (ok tt, record m { connections = [] })
close_all ((k, c) ∷ cs) m = elim c.ws [
  | web_socket n ↦ close_all cs (record m { closed = n ∷ m.closed })
  | placeholder ↦ (err type_error, m)
]

unfoldable pub clear_connections : PeerManager → Result Thrown (Unit {0}) × PeerManager
unfolding close_all
clear_connections m = close_all m.connections m
