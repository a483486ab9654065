-- ===== src/Tracker/Swarm.antt =====
-- packages/websocket-tracker/src/swarm.ts, over the cache of Lru and the manager of Peer. A `Set` is
-- the list of its elements in the order in which they were added; the set of a swarm is changed in
-- place and put back, so that the cache has the changed one.
use browsertorrent.Common.{
  ℕ, ◌+◌, Bool, true, false, Option, none, some, List, [], ◌∷◌, ◌++◌, if◌then◌else◌, Result, ok,
  err, length, leb, list_eq, take,
}
use browsertorrent.Lru.{Cache, new, get, put, values, clear}
use browsertorrent.Tracker.Peer.{
  PeerManager, Thrown, placeholder, new_peer_manager, add_connection, remove_connection,
  clear_connections,
}

-- `add` and `delete` of a `Set`.
abbrev pub is_member : List ℕ → List (List ℕ) → Bool
is_member p [] = false
is_member p (q ∷ qs) = if list_eq q p then true else is_member p qs

abbrev pub add_member : List ℕ → List (List ℕ) → List (List ℕ)
add_member p ps = if is_member p ps then ps else ps ++ (p ∷ [])

abbrev pub delete_member : List ℕ → List (List ℕ) → List (List ℕ)
delete_member p [] = []
delete_member p (q ∷ qs) = let rest = delete_member p qs in if list_eq q p then qs else q ∷ rest

-- `PeerAnnounce`, without the counters, which are not read.
pub record PeerAnnounce : Type 0 where
  pub peer_id : List ℕ
  pub info_hash : List ℕ
  pub port : ℕ

-- `SwarmManager`
pub record SwarmManager : Type 0 where
  pub swarms : Cache (List (List ℕ))
  pub peer_manager : PeerManager
  pub max_peers_per_torrent : ℕ

unfoldable pub new_swarm_manager : Option ℕ → Option ℕ → SwarmManager
unfolding new
new_swarm_manager max_peers max_torrents = record {
  swarms = new [] max_torrents;
  peer_manager = new_peer_manager none;
  max_peers_per_torrent = elim max_peers [ none ↦ 50 | some n ↦ n ];
}

abbrev pub peers_or_none : Option (List (List ℕ)) → List (List ℕ)
peers_or_none none = []
peers_or_none (some ps) = ps

-- The first peer leaves a full swarm, unless its name is the empty string, which is false.
abbrev pub drop_oldest : List (List ℕ) → List (List ℕ)
drop_oldest [] = []
drop_oldest ([] ∷ ps) = [] ∷ ps
drop_oldest ((c ∷ cs) ∷ ps) = ps

abbrev pub make_room : ℕ → List (List ℕ) → List (List ℕ)
make_room max_peers ps = if leb max_peers (length ps) then drop_oldest ps else ps

abbrev pub joined : ℕ → List ℕ → List (List ℕ) → List (List ℕ)
joined max_peers p ps = add_member p (make_room max_peers ps)

abbrev pub without_value : {A : Type 0} → Result Thrown A → Result Thrown (Unit {0})
without_value (err e) = err e
without_value (ok a) = ok tt

-- `addPeer`, at a time and with a new identifier.
unfoldable pub add_peer :
    ℕ → List ℕ → PeerAnnounce → SwarmManager → Result Thrown (Unit {0}) × SwarmManager
unfolding get put
add_peer now uuid announce s =
    let (found, swarms) = get announce.info_hash s.swarms in
    let peers : List (List ℕ) =
      joined s.max_peers_per_torrent announce.peer_id (peers_or_none found) in
    let (registered, manager) =
      add_connection now uuid placeholder announce.peer_id announce.info_hash announce.port
        s.peer_manager in
    (
      without_value registered,
      record s { swarms = put announce.info_hash peers swarms; peer_manager = manager },
    )

-- `removePeer`
unfoldable pub remove_from :
    List ℕ
    → List ℕ
    → Option (List (List ℕ)) × Cache (List (List ℕ))
    → SwarmManager
    → Result Thrown (Unit {0}) × SwarmManager
remove_from info_hash peer_id (none, swarms) s = (ok tt, record s { swarms = swarms })
remove_from info_hash peer_id (some ps, swarms) s =
    let (removed, manager) = remove_connection peer_id s.peer_manager in
    (
      without_value removed,
      record s { swarms = put info_hash (delete_member peer_id ps) swarms; peer_manager = manager },
    )

unfoldable pub remove_peer :
    List ℕ → List ℕ → SwarmManager → Result Thrown (Unit {0}) × SwarmManager
unfolding remove_from
remove_peer info_hash peer_id s = remove_from info_hash peer_id (get info_hash s.swarms) s

-- `getPeers`, with the first peers of a swarm.
unfoldable pub get_peers : List ℕ → Option ℕ → SwarmManager → List (List ℕ) × SwarmManager
get_peers info_hash numwant s =
    let (found, swarms) = get info_hash s.swarms in
    (
      take (elim numwant [ none ↦ 50 | some n ↦ n ]) (peers_or_none found),
      record s { swarms = swarms },
    )

-- The counts of `getSwarmInfo`, which calls all peers complete.
unfoldable pub get_swarm_info : List ℕ → SwarmManager → ℕ × SwarmManager
get_swarm_info info_hash s =
    let (found, swarms) = get info_hash s.swarms in
    (length (peers_or_none found), record s { swarms = swarms })

abbrev pub total : List (List (List ℕ)) → ℕ
total [] = 0
total (ps ∷ pss) = length ps + total pss

-- `getTotalPeerCount`
unfoldable pub get_total_peer_count : SwarmManager → Option ℕ
get_total_peer_count s = elim (values s.swarms) [ none ↦ none | some pss ↦ some (total pss) ]

-- `clear`: an error in the connections comes after the swarms are cleared.
unfoldable pub clear_swarms : SwarmManager → Result Thrown (Unit {0}) × SwarmManager
clear_swarms s =
    let (cleared, manager) = clear_connections s.peer_manager in
    (cleared, record s { swarms = clear s.swarms; peer_manager = manager })
