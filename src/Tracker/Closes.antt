-- ===== src/Tracker/Closes.antt =====
-- Connections that are closed.
use browsertorrent.Common.{
  ℕ, ◌≡◌, refl, ap, ◌∙◌, Bool, false, Option, none, some, List, [], ◌∷◌, Result, ok, err, length,
  leb, list_eq, list_eq_refl, Bool-cases, inl, inr, if◌then◌else◌,
}
use browsertorrent.Lru.{Cache, get}
use browsertorrent.Lru.View.{Represents, lookup}
use browsertorrent.Lru.Laws.{touched, stored, get_lem}
use browsertorrent.Tracker.Peer.{
  placeholder, Thrown, type_error, PeerInfo, PeerConnection, PeerManager, find_connection,
  set_connection, register, add_connection, remove_connection, remove_found, delete_closed, close,
  evict_oldest_connection,
}
use browsertorrent.Tracker.Swarm.{
  SwarmManager, PeerAnnounce, add_peer, remove_peer, remove_from, without_value, joined,
  peers_or_none,
}
use browsertorrent.Tracker.Laws.{with_peer, add_peer-Represents}

find-set_connection :
    (k : List ℕ) (c : PeerConnection) (cs : List (List ℕ × PeerConnection))
    → find_connection k (set_connection k c cs) ≡ some c
find-set_connection k c [] = rw (list_eq_refl k) refl
find-set_connection k c ((k', c') ∷ cs) = elim (Bool-cases (list_eq k' k)) [
  | inl same ↦ rw (same, same) refl
  | inr other ↦ rw (other, other) (find-set_connection k c cs)
]

registered-placeholder :
    (info : PeerInfo) (e : Result Thrown Bool) (m : PeerManager)
    → without_value (register placeholder info (e, m)).0 ≡ ok tt
    → find_connection info.peer_id (register placeholder info (e, m)).1.connections
      ≡ some (record { ws = placeholder; info = info })
unfolding register
registered-placeholder info (err e) m h = cc
registered-placeholder info (ok b) m h =
    find-set_connection info.peer_id (record { ws = placeholder; info = info }) m.connections

remove_placeholder :
    (p : List ℕ) (m : PeerManager) (info : PeerInfo)
    → find_connection p m.connections ≡ some (record { ws = placeholder; info = info })
    → (remove_connection p m).0 ≡ err type_error
unfolding remove_connection remove_found delete_closed close
remove_placeholder p m info h = ap (λ o. (remove_found p m o).0) h

remove_from-some :
    (k p : List ℕ) (s : SwarmManager) (ps : List (List ℕ))
    (g : Option (List (List ℕ)) × Cache (List (List ℕ)))
    → g.0 ≡ some ps
    → (remove_connection p s.peer_manager).0 ≡ err type_error
    → (remove_from k p g s).0 ≡ err type_error
unfolding remove_from
remove_from-some k p s ps g found h =
    ap (λ o. (remove_from k p (o, g.1) s).0) found ∙ ap without_value h

lookup-with_peer :
    (capacity n : ℕ) (a : PeerAnnounce) (es : List (List ℕ × List (List ℕ)))
    → (ps : List (List ℕ)) × (lookup a.info_hash (with_peer capacity n a es) ≡ some ps)
lookup-with_peer capacity n a es = by_value (lookup a.info_hash (touched a.info_hash es)) refl
  where
    by_value :
        (o : Option (List (List ℕ)))
        → lookup a.info_hash (touched a.info_hash es) ≡ o
        → (ps : List (List ℕ)) × (lookup a.info_hash (with_peer capacity n a es) ≡ some ps)
    by_value none e = (
      joined n a.peer_id (peers_or_none (lookup a.info_hash es)),
      rw (e, with_peer, stored, list_eq_refl a.info_hash) refl,
    )
    by_value (some qs) e = (
      joined n a.peer_id (peers_or_none (lookup a.info_hash es)),
      rw (e, with_peer, stored, list_eq_refl a.info_hash) refl,
    )

added :
    (now : ℕ) (uuid : List ℕ) (a : PeerAnnounce) (s : SwarmManager)
    → (add_peer now uuid a s).0 ≡ ok tt
    → (info : PeerInfo) × (find_connection a.peer_id
          (add_peer now uuid a s).1.peer_manager.connections
        ≡ some (record { ws = placeholder; info = info }))
unfolding add_peer add_connection
added now uuid a s h =
    let m : PeerManager = s.peer_manager in
    let evicted : Result Thrown Bool × PeerManager =
      if leb m.max_connections (length m.connections)
      then evict_oldest_connection m
      else (ok false, m) in
    (_, registered-placeholder _ evicted.0 evicted.1 h)

-- A peer that `addPeer` registered cannot be removed: `removePeer` throws, since the socket that
-- `addPeer` registered for it is an empty object, without the method that closes a socket.
pub remove_peer-add_peer :
    (now : ℕ) (uuid : List ℕ) (a : PeerAnnounce) (s : SwarmManager)
    (es : List (List ℕ × List (List ℕ)))
    → Represents s.swarms es
    → (add_peer now uuid a s).0 ≡ ok tt
    → (remove_peer a.info_hash a.peer_id (add_peer now uuid a s).1).0 ≡ err type_error
unfolding remove_peer
remove_peer-add_peer now uuid a s es r h =
    let s' : SwarmManager = (add_peer now uuid a s).1 in
    let k : List ℕ = a.info_hash in
    let es' : List (List ℕ × List (List ℕ)) =
      with_peer s.swarms.capacity s.max_peers_per_torrent a es in
    let (ps, there) = lookup-with_peer s.swarms.capacity s.max_peers_per_torrent a es in
    let found : (get k s'.swarms).0 ≡ some ps =
      (get_lem k s'.swarms es' (add_peer-Represents now uuid a s es r)).0 ∙ there in
    remove_from-some k a.peer_id s' ps (get k s'.swarms) found (
      remove_placeholder a.peer_id s'.peer_manager (added now uuid a s h).0
        (added now uuid a s h).1)
