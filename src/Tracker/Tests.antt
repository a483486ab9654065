-- ===== src/Tracker/Tests.antt =====
-- A manager of two peers per swarm and one swarm, written out.
use Prim.Native.Nat.{max}
use browsertorrent.Tracker.Connections.{AllLive, add_connection_bounded}
use browsertorrent.Common.{
  none, List, ℕ, ◌≤◌, length, arith, ◌≡◌, ◌≢◌, refl, some, [], ◌∷◌, ok, err,
}
use browsertorrent.Lru.View.{Represents}
use browsertorrent.Lru.History.{new-Represents}
use browsertorrent.Tracker.Peer.{
  PeerInfo, PeerConnection, PeerManager, web_socket, type_error, new_peer_manager, add_connection,
  register,
}
use browsertorrent.Tracker.Swarm.{
  SwarmManager, PeerAnnounce, new_swarm_manager, add_peer, remove_peer,
}
use browsertorrent.Tracker.Laws.{IsKept, IsAdded, add_peer_lem}
use browsertorrent.Lru.Laws.{touched, stored}
use browsertorrent.Tracker.Bounds.{adds, Reachable, start, after, Sound, Reachable-Sound}
use browsertorrent.Tracker.Closes.{remove_peer-add_peer}

abbrev announce : ℕ → PeerAnnounce
announce p = record { peer_id = p ∷ []; info_hash = 104 ∷ []; port = 6881 }

abbrev empty_manager : SwarmManager
empty_manager = new_swarm_manager (some 2) (some 1)

named : (p : ℕ) → (p ∷ []) ≢ []
named p e = cc

one_peer-Reachable : Reachable 2 1 (add_peer 10 (1 ∷ []) (announce 97) empty_manager).1
one_peer-Reachable =
    after empty_manager _ start (adds 10 (1 ∷ []) (announce 97) empty_manager (named 97))

Reachable-Sound_example : Sound 2 1 (add_peer 10 (1 ∷ []) (announce 97) empty_manager).1
Reachable-Sound_example = Reachable-Sound 2 1 _ one_peer-Reachable

empty-Represents : Represents empty_manager.swarms []
unfolding new_swarm_manager
empty-Represents = new-Represents [] (some 1)

add_peer_lem_example :
    (kept after : List (List ℕ)) × IsKept 2 [] kept
    × IsAdded (announce 97).peer_id kept after
    × Represents
        (add_peer 10 (1 ∷ []) (announce 97) empty_manager).1.swarms
        (stored 1 (announce 97).info_hash after (touched (announce 97).info_hash []))
unfolding new_swarm_manager
add_peer_lem_example = add_peer_lem 10 (1 ∷ []) (announce 97) empty_manager [] empty-Represents

first_added : (add_peer 10 (1 ∷ []) (announce 97) empty_manager).0 ≡ ok tt
unfolding new_swarm_manager new_peer_manager add_peer add_connection register
first_added = refl

remove_peer-add_peer_example :
    (remove_peer (104 ∷ []) (97 ∷ []) (add_peer 10 (1 ∷ []) (announce 97) empty_manager).1).0
    ≡ err type_error
remove_peer-add_peer_example =
    remove_peer-add_peer 10 (1 ∷ []) (announce 97) empty_manager [] empty-Represents first_added

-- The only connection of a manager of one.
abbrev only_connection : PeerConnection
only_connection = record {
  ws = web_socket 5;
  info = record {
    id = 1 ∷ [];
    peer_id = 97 ∷ [];
    info_hash = 104 ∷ [];
    port = 6881;
    uploaded = 0;
    downloaded = 0;
    left = 0;
    event = none;
    connected_at = 10;
    last_seen = 10;
  };
}

abbrev full_manager : PeerManager
full_manager = record {
  connections = (97 ∷ [], only_connection) ∷ [];
  max_connections = 1;
  closed = [];
}

add_connection_bounded_example :
    (info : PeerInfo) × ((add_connection 20
        (2 ∷ [])
        (web_socket 6)
        (98 ∷ [])
        (104 ∷ [])
        6881
        full_manager).0
      ≡ ok info)
    × AllLive
        (add_connection 20
          (2 ∷ [])
          (web_socket 6)
          (98 ∷ [])
          (104 ∷ [])
          6881
          full_manager).1.connections
    × (length
          (add_connection 20
            (2 ∷ [])
            (web_socket 6)
            (98 ∷ [])
            (104 ∷ [])
            6881
            full_manager).1.connections
        ≤ max 1 1)
add_connection_bounded_example =
    add_connection_bounded 20 6 (2 ∷ []) (98 ∷ []) (104 ∷ []) 6881 full_manager (named 98)
      ((named 97, 5, refl), tt) (omega arith)
