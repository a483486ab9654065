-- ===== src/Tracker/Bounds.antt =====
-- The swarm managers that calls lead to.
use browsertorrent.Common.{ℕ, ◌≤◌, ◌≡◌, ◌≢◌, refl, ◌∙◌, Option, none, some, List, [], length, arith}
use mathlib.Core.Path.{subst}
use Prim.Native.Nat.{max}
use browsertorrent.Lru.{Cache, new, get, clear}
use browsertorrent.Lru.View.{Represents, lookup}
use browsertorrent.Lru.Laws.{touched, stored, get_lem}
use browsertorrent.Lru.History.{new-Represents, clear-Represents}
use browsertorrent.Lru.Capacity.{length-stored, length-touched}
use browsertorrent.Tracker.Swarm.{
  SwarmManager, PeerAnnounce, new_swarm_manager, add_peer, remove_peer, remove_from, get_peers,
  clear_swarms, joined, delete_member, peers_or_none,
}
use browsertorrent.Tracker.Sets.{
  AllBounded, Entries, AllBounded-lookup, AllBounded-touched, AllBounded-stored, joined-Bounded,
  delete_member-Bounded,
}
use browsertorrent.Tracker.Laws.{
  get-capacity, put-capacity, add_peer-Represents, remove_peer_lem, with_peer, without_peer,
}

-- A call, with what it leads to; the peers that announce themselves have names.
pub data Step : SwarmManager → SwarmManager → Type 0 where
  adds :
      (now : ℕ) (uuid : List ℕ) (a : PeerAnnounce) (s : SwarmManager)
      → a.peer_id ≢ []
      → Step s (add_peer now uuid a s).1
  removes :
      (info_hash peer_id : List ℕ) (s : SwarmManager) → Step s (remove_peer info_hash peer_id s).1
  asks :
      (info_hash : List ℕ) (numwant : Option ℕ) (s : SwarmManager)
      → Step s (get_peers info_hash numwant s).1
  clears : (s : SwarmManager) → Step s (clear_swarms s).1

pub data Reachable (max_peers max_torrents : ℕ) : SwarmManager → Type 0 where
  start : Reachable max_peers max_torrents (new_swarm_manager (some max_peers) (some max_torrents))
  after :
      (s s' : SwarmManager)
      → Reachable max_peers max_torrents s
      → Step s s'
      → Reachable max_peers max_torrents s'

-- The swarms of a manager are within its limits.
pub record Sound (max_peers max_torrents : ℕ) (s : SwarmManager) : Type 0 where
  pub swarms : Entries
  pub represents : Represents s.swarms swarms
  pub peers_fit : AllBounded max_peers swarms
  pub swarms_fit : length swarms ≤ max 1 max_torrents
  pub peer_limit : s.max_peers_per_torrent ≡ max_peers
  pub torrent_limit : s.swarms.capacity ≡ max_torrents

length-restored :
    (m : ℕ) (k : List ℕ) (ps : List (List ℕ)) (es : Entries)
    → length es ≤ max 1 m
    → length (stored m k ps (touched k es)) ≤ max 1 m
length-restored m k ps es h =
    length-stored m k ps (touched k es) (lookup k (touched k es)) refl
      (omega (arith, length-touched k es (lookup k es) refl, h))

add_peer-Sound :
    (n m now : ℕ) (uuid : List ℕ) (a : PeerAnnounce) (s : SwarmManager)
    → a.peer_id ≢ []
    → Sound n m s
    → Sound n m (add_peer now uuid a s).1
unfolding add_peer
add_peer-Sound n m now uuid a s named h =
    let k : List ℕ = a.info_hash in
    let ps : List (List ℕ) = joined n a.peer_id (peers_or_none (lookup k h.swarms)) in
    let fits =
      joined-Bounded n a.peer_id (peers_or_none (lookup k h.swarms)) named
        (AllBounded-lookup n k h.swarms h.peers_fit) in
    record {
      swarms = with_peer m n a h.swarms;
      represents =
          subst (λ c. Represents (add_peer now uuid a s).1.swarms (with_peer c n a h.swarms))
            h.torrent_limit
            (subst
              (λ c.
                Represents (add_peer now uuid a s).1.swarms
                  (with_peer s.swarms.capacity c a h.swarms))
              h.peer_limit (add_peer-Represents now uuid a s h.swarms h.represents));
      peers_fit =
          AllBounded-stored n m k ps (touched k h.swarms) fits
            (AllBounded-touched n k h.swarms h.peers_fit);
      swarms_fit = length-restored m k ps h.swarms h.swarms_fit;
      peer_limit = h.peer_limit;
      torrent_limit =
          put-capacity k _ (get k s.swarms).1 ∙ get-capacity k s.swarms ∙ h.torrent_limit;
    }

remove_from-capacity :
    (k p : List ℕ) (s : SwarmManager) (o : Option (List (List ℕ))) (c : Cache (List (List ℕ)))
    → ((remove_from k p (o, c) s).1.swarms.capacity ≡ c.capacity)
      × ((remove_from k p (o, c) s).1.max_peers_per_torrent ≡ s.max_peers_per_torrent)
unfolding remove_from
remove_from-capacity k p s none c = (refl, refl)
remove_from-capacity k p s (some ps) c = (put-capacity k (delete_member p ps) c, refl)

remove_peer-Sound :
    (n m : ℕ) (k p : List ℕ) (s : SwarmManager) → Sound n m s → Sound n m (remove_peer k p s).1
unfolding remove_peer
remove_peer-Sound n m k p s h =
    let kept = remove_from-capacity k p s (get k s.swarms).0 (get k s.swarms).1 in
    let (sets, few) = entries_fit (lookup k h.swarms) refl in
    record {
      swarms = without_peer m k p h.swarms;
      represents =
          subst (λ c. Represents (remove_peer k p s).1.swarms (without_peer c k p h.swarms))
            h.torrent_limit (remove_peer_lem k p s h.swarms h.represents);
      peers_fit = sets;
      swarms_fit = few;
      peer_limit = kept.1 ∙ h.peer_limit;
      torrent_limit = kept.0 ∙ get-capacity k s.swarms ∙ h.torrent_limit;
    }
  where
    entries_fit :
        (o : Option (List (List ℕ)))
        → lookup k h.swarms ≡ o
        → AllBounded n (without_peer m k p h.swarms)
          × (length (without_peer m k p h.swarms) ≤ max 1 m)
    entries_fit none e = (rw (e, without_peer) h.peers_fit, rw (e, without_peer) h.swarms_fit)
    entries_fit (some ps) e =
        let fits =
          delete_member-Bounded n p ps
            (rw (e, peers_or_none) at (AllBounded-lookup n k h.swarms h.peers_fit)) in
        (
          rw (e, without_peer)
              (AllBounded-stored n m k (delete_member p ps) (touched k h.swarms) fits
                (AllBounded-touched n k h.swarms h.peers_fit)),
          rw (e, without_peer) (length-restored m k (delete_member p ps) h.swarms h.swarms_fit),
        )

get_peers-Sound :
    (n m : ℕ) (k : List ℕ) (w : Option ℕ) (s : SwarmManager)
    → Sound n m s
    → Sound n m (get_peers k w s).1
unfolding get_peers
get_peers-Sound n m k w s h = record {
  swarms = touched k h.swarms;
  represents = (get_lem k s.swarms h.swarms h.represents).1;
  peers_fit = AllBounded-touched n k h.swarms h.peers_fit;
  swarms_fit = omega (arith, length-touched k h.swarms (lookup k h.swarms) refl, h.swarms_fit);
  peer_limit = h.peer_limit;
  torrent_limit = get-capacity k s.swarms ∙ h.torrent_limit;
}

clear_swarms-Sound : (n m : ℕ) (s : SwarmManager) → Sound n m s → Sound n m (clear_swarms s).1
unfolding clear_swarms
clear_swarms-Sound n m s h = record {
  swarms = [];
  represents = clear-Represents s.swarms;
  peers_fit = tt;
  swarms_fit = omega arith;
  peer_limit = h.peer_limit;
  torrent_limit = unfold clear in h.torrent_limit;
}

new_swarm_manager-Sound : (n m : ℕ) → Sound n m (new_swarm_manager (some n) (some m))
unfolding new_swarm_manager
new_swarm_manager-Sound n m = record {
  swarms = [];
  represents = new-Represents [] (some m);
  peers_fit = tt;
  swarms_fit = omega arith;
  peer_limit = refl;
  torrent_limit = unfold new in refl;
}

Step-Sound : (n m : ℕ) (s s' : SwarmManager) → Step s s' → Sound n m s → Sound n m s'
Step-Sound n m s s' (adds now uuid a s0 named) h = add_peer-Sound n m now uuid a s0 named h
Step-Sound n m s s' (removes k p s0) h = remove_peer-Sound n m k p s0 h
Step-Sound n m s s' (asks k w s0) h = get_peers-Sound n m k w s0 h
Step-Sound n m s s' (clears s0) h = clear_swarms-Sound n m s0 h

-- After any calls, in which the peers that announce themselves have names, the swarms of a manager
-- are at most as many as its limit, or one if that is zero, and each of them has at most as many
-- peers as the other limit, or one if that is zero.
pub Reachable-Sound :
    (max_peers max_torrents : ℕ) (s : SwarmManager)
    → Reachable max_peers max_torrents s
    → Sound max_peers max_torrents s
Reachable-Sound n m s start = new_swarm_manager-Sound n m
Reachable-Sound n m s (after s0 s' r step) = Step-Sound n m s0 s step (Reachable-Sound n m s0 r)
