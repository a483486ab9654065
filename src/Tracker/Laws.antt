-- ===== src/Tracker/Laws.antt =====
-- What the methods of the swarm manager make of the swarms, the most recent first, and the bounds
-- that hold after any of them.
use browsertorrent.Common.{
  ℕ, ◌≡◌, ◌≢◌, ◌<◌, ◌≤◌, refl, sym, ◌∙◌, Option, none, some, List, [], ◌∷◌, ◌++◌, length, leb,
  list_eq, list_eq→eq, list_eq_refl, ◌⊎◌, arith, true, Bool-cases, inl, inr,
}
use mathlib.Core.Path.{subst}
use browsertorrent.Lru.{Cache, get, put}
use browsertorrent.Lru.View.{Represents, lookup}
use browsertorrent.Lru.Laws.{touched, stored, get_lem}
use browsertorrent.Lru.Puts.{put_lem}
use browsertorrent.Lru.History.{get_node-capacity, put_at-capacity}
use browsertorrent.Tracker.Swarm.{
  SwarmManager, PeerAnnounce, add_peer, remove_peer, remove_from, is_member, add_member, make_room,
  joined, delete_member, peers_or_none,
}
use browsertorrent.Tracker.Sets.{Entries}

pub get-capacity : (k : List ℕ) (c : Cache (List (List ℕ))) → (get k c).1.capacity ≡ c.capacity
unfolding get
get-capacity k c = get_node-capacity c (c.nodes k)

pub put-capacity :
    (k : List ℕ) (ps : List (List ℕ)) (c : Cache (List (List ℕ)))
    → (put k ps c).capacity ≡ c.capacity
unfolding put
put-capacity k ps c = put_at-capacity k ps c (c.nodes k)

-- The swarm of a hash is looked up and stored again.
restored :
    (k : List ℕ) (ps : List (List ℕ)) (c : Cache (List (List ℕ))) (es : Entries)
    → Represents c es
    → Represents (put k ps (get k c).1) (stored c.capacity k ps (touched k es))
restored k ps c es r =
    subst (λ n. Represents (put k ps (get k c).1) (stored n k ps (touched k es))) (get-capacity k c)
      (put_lem k ps (get k c).1 (touched k es) (get_lem k c es r).1)

-- The swarms after `addPeer`.
abbrev pub with_peer : ℕ → ℕ → PeerAnnounce → Entries → Entries
with_peer capacity max_peers a es =
    stored capacity a.info_hash (joined max_peers a.peer_id (peers_or_none (lookup a.info_hash es)))
      (touched a.info_hash es)

pub add_peer-Represents :
    (now : ℕ) (uuid : List ℕ) (a : PeerAnnounce) (s : SwarmManager) (es : Entries)
    → Represents s.swarms es
    → Represents
        (add_peer now uuid a s).1.swarms
        (with_peer s.swarms.capacity s.max_peers_per_torrent a es)
unfolding add_peer
add_peer-Represents now uuid a s es r =
    let k : List ℕ = a.info_hash in
    subst
      (λ o.
        Represents
          (put k (joined s.max_peers_per_torrent a.peer_id (peers_or_none o)) (get k s.swarms).1)
          (with_peer s.swarms.capacity s.max_peers_per_torrent a es))
      (sym (get_lem k s.swarms es r).0)
      (restored k (joined s.max_peers_per_torrent a.peer_id (peers_or_none (lookup k es))) s.swarms
        es r)

-- Which peers of a swarm stay when one more announces itself: all where there is room, all but the
-- first where there is none; but a first peer without a name stays.
pub data IsKept (max_peers : ℕ) (before kept : List (List ℕ)) : Type 0 where
  with_room : length before < max_peers → kept ≡ before → IsKept max_peers before kept
  nobody : before ≡ [] → kept ≡ [] → IsKept max_peers before kept
  unnamed :
      (rest : List (List ℕ)) → before ≡ [] ∷ rest → kept ≡ before → IsKept max_peers before kept
  full :
      (oldest : List ℕ)
      → max_peers ≤ length before
      → oldest ≢ []
      → before ≡ oldest ∷ kept
      → IsKept max_peers before kept

abbrev pub IsAmong : List ℕ → List (List ℕ) → Type 0
IsAmong p [] = ⊥
IsAmong p (q ∷ qs) = (q ≡ p) ⊎ IsAmong p qs

-- A peer that is among the others keeps its place, a new one comes last.
pub data IsAdded (p : List ℕ) (kept after : List (List ℕ)) : Type 0 where
  known : IsAmong p kept → after ≡ kept → IsAdded p kept after
  new : ¬ IsAmong p kept → after ≡ kept ++ (p ∷ []) → IsAdded p kept after

make_room-IsKept : (n : ℕ) (ps : List (List ℕ)) → IsKept n ps (make_room n ps)
make_room-IsKept n [] = elim (Bool-cases (leb n 0)) [
  | inl e ↦ nobody refl (rw e refl)
  | inr e ↦ nobody refl (rw e refl)
]
make_room-IsKept n ([] ∷ ps) = elim (Bool-cases (leb n (length ([] ∷ ps)))) [
  | inl e ↦ unnamed ps refl (rw e refl)
  | inr e ↦ unnamed ps refl (rw e refl)
]
make_room-IsKept n ((c ∷ cs) ∷ ps) = elim (Bool-cases (leb n (length ((c ∷ cs) ∷ ps)))) [
  | inl e ↦ full (c ∷ cs) (ground arith) (λ q. cc) (rw e refl)
  | inr e ↦ with_room (ground arith) (rw e refl)
]

is_member-IsAmong : (p : List ℕ) (ps : List (List ℕ)) → is_member p ps ≡ true → IsAmong p ps
is_member-IsAmong p [] h = absurd cc
is_member-IsAmong p (q ∷ qs) h = elim (Bool-cases (list_eq q p)) [
  | inl same ↦ inl (list_eq→eq q p same)
  | inr other ↦ inr (is_member-IsAmong p qs (rw other at h))
]

IsAmong-is_member : (p : List ℕ) (ps : List (List ℕ)) → IsAmong p ps → is_member p ps ≡ true
IsAmong-is_member p [] m = absurd m
IsAmong-is_member p (q ∷ qs) (inl e) = rw (e, list_eq_refl p) refl
IsAmong-is_member p (q ∷ qs) (inr m) = elim (Bool-cases (list_eq q p)) [
  | inl same ↦ rw same refl
  | inr other ↦ rw other (IsAmong-is_member p qs m)
]

add_member-IsAdded : (p : List ℕ) (ps : List (List ℕ)) → IsAdded p ps (add_member p ps)
add_member-IsAdded p ps = elim (Bool-cases (is_member p ps)) [
  | inl e ↦ known (is_member-IsAmong p ps e) (rw e refl)
  | inr e ↦ new (λ m. let there = IsAmong-is_member p ps m in cc) (rw e refl)
]

-- `addPeer` puts the swarm of the announce in front: it is the one that was there, or an empty one,
-- without its oldest peer where it was full and that peer's name is not empty, and with the peer at
-- its end, unless the peer is among those that stay; whether the connection can be registered makes
-- no difference.
pub add_peer_lem :
    (now : ℕ) (uuid : List ℕ) (a : PeerAnnounce) (s : SwarmManager) (es : Entries)
    → Represents s.swarms es
    → (kept after : List (List ℕ)) × IsKept s.max_peers_per_torrent
        (peers_or_none (lookup a.info_hash es))
        kept
      × IsAdded a.peer_id kept after
      × Represents
          (add_peer now uuid a s).1.swarms
          (stored s.swarms.capacity a.info_hash after (touched a.info_hash es))
add_peer_lem now uuid a s es r =
    let peers : List (List ℕ) = peers_or_none (lookup a.info_hash es) in
    let kept : List (List ℕ) = make_room s.max_peers_per_torrent peers in
    (
      kept,
      add_member a.peer_id kept,
      make_room-IsKept s.max_peers_per_torrent peers,
      add_member-IsAdded a.peer_id kept,
      add_peer-Represents now uuid a s es r,
    )

-- The swarms after `removePeer`.
abbrev pub without_peer : ℕ → List ℕ → List ℕ → Entries → Entries
without_peer capacity k p es = elim (lookup k es) [
  | none ↦ es
  | some ps ↦ stored capacity k (delete_member p ps) (touched k es)
]

pub remove_peer_lem :
    (k p : List ℕ) (s : SwarmManager) (es : Entries)
    → Represents s.swarms es
    → Represents (remove_peer k p s).1.swarms (without_peer s.swarms.capacity k p es)
unfolding remove_peer remove_from
remove_peer_lem k p s es r = by_value (lookup k es) refl
  where
    by_value :
        (o : Option (List (List ℕ)))
        → lookup k es ≡ o
        → Represents
            (remove_from k p (get k s.swarms) s).1.swarms
            (without_peer s.swarms.capacity k p es)
    by_value none e =
        let found : (get k s.swarms).0 ≡ none = (get_lem k s.swarms es r).0 ∙ e in
        subst
          (λ o.
            Represents (remove_from k p (o, (get k s.swarms).1) s).1.swarms
              (without_peer s.swarms.capacity k p es))
          (sym found) (rw (e, without_peer) (rw (e, touched) at (get_lem k s.swarms es r).1))
    by_value (some ps) e =
        let found : (get k s.swarms).0 ≡ some ps = (get_lem k s.swarms es r).0 ∙ e in
        subst
          (λ o.
            Represents (remove_from k p (o, (get k s.swarms).1) s).1.swarms
              (without_peer s.swarms.capacity k p es))
          (sym found) (rw (e, without_peer) (restored k (delete_member p ps) s.swarms es r))
