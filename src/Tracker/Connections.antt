-- ===== src/Tracker/Connections.antt =====
-- The bound on the connections of a peer manager.
use browsertorrent.Common.{
  ℕ, suc, ◌≤◌, ◌≡◌, ◌≢◌, refl, sym, ap, ◌∙◌, Bool, true, false, Option, none, some, List, [], ◌∷◌,
  if◌then◌else◌, Result, ok, err, length, leb, list_eq, list_eq→eq, list_eq_refl, arith, Bool-cases,
  inl, inr, ◌⊎◌,
}
use mathlib.Core.Path.{subst}
use Prim.Native.Nat.{max}
use browsertorrent.Tracker.Peer.{
  web_socket, Thrown, PeerInfo, PeerConnection, PeerManager, find_connection, set_connection,
  delete_connection, register, add_connection, remove_connection, remove_found, delete_closed,
  close, earlier, oldest, evict_found, evict_oldest_connection,
}

-- A socket that can be closed, of a peer with a name.
abbrev pub Live : List ℕ → PeerConnection → Type 0
Live k c = (k ≢ []) × (n : ℕ) × (c.ws ≡ web_socket n)

abbrev pub AllLive : List (List ℕ × PeerConnection) → Type 0
AllLive [] = Unit {0}
AllLive ((k, c) ∷ cs) = Live k c × AllLive cs

AllLive-find :
    (k : List ℕ) (c : PeerConnection) (cs : List (List ℕ × PeerConnection))
    → AllLive cs
    → find_connection k cs ≡ some c
    → Live k c
AllLive-find k c [] h e = cc
AllLive-find k c ((k', c') ∷ cs) (live, h) e = elim (Bool-cases (list_eq k' k)) [
  | inl same ↦
      let found : some c' ≡ some c = rw same at e in
      let here : c' ≡ c = ap (λ o. elim o [ none ↦ c' | some x ↦ x ]) found in
      subst (λ x. Live k x) here (subst (λ x. Live x c') (list_eq→eq k' k same) live)
  | inr other ↦ AllLive-find k c cs h (rw other at e)
]

AllLive-delete :
    (k : List ℕ) (cs : List (List ℕ × PeerConnection))
    → AllLive cs
    → AllLive (delete_connection k cs)
AllLive-delete k [] h = tt
AllLive-delete k ((k', c') ∷ cs) (live, h) = elim (Bool-cases (list_eq k' k)) [
  | inl same ↦ rw same h
  | inr other ↦ rw other (live, AllLive-delete k cs h)
]

AllLive-set :
    (k : List ℕ) (c : PeerConnection) (cs : List (List ℕ × PeerConnection))
    → Live k c
    → AllLive cs
    → AllLive (set_connection k c cs)
AllLive-set k c [] new h = (new, tt)
AllLive-set k c ((k', c') ∷ cs) new (live, h) = elim (Bool-cases (list_eq k' k)) [
  | inl same ↦ rw same (subst (λ x. Live x c) (sym (list_eq→eq k' k same)) new, h)
  | inr other ↦ rw other (live, AllLive-set k c cs new h)
]

length-delete :
    (k : List ℕ) (c : PeerConnection) (cs : List (List ℕ × PeerConnection))
    → find_connection k cs ≡ some c
    → suc (length (delete_connection k cs)) ≡ length cs
length-delete k c [] e = cc
length-delete k c ((k', c') ∷ cs) e = elim (Bool-cases (list_eq k' k)) [
  | inl same ↦ rw same refl
  | inr other ↦ rw other (ap suc (length-delete k c cs (rw other at e)))
]

length-set :
    (k : List ℕ) (c : PeerConnection) (cs : List (List ℕ × PeerConnection))
    → length (set_connection k c cs) ≤ suc (length cs)
length-set k c [] = omega arith
length-set k c ((k', c') ∷ cs) = elim (Bool-cases (list_eq k' k)) [
  | inl same ↦ rw same (omega arith)
  | inr other ↦ rw other (omega (arith, length-set k c cs))
]

Keyed : List ℕ → List (List ℕ × PeerConnection) → Type 0
Keyed k cs = (c : PeerConnection) × (find_connection k cs ≡ some c)

Keyed-cons :
    (k k' : List ℕ) (c : PeerConnection) (cs : List (List ℕ × PeerConnection))
    → Keyed k cs
    → Keyed k ((k', c) ∷ cs)
unfolding Keyed
Keyed-cons k k' c cs (d, e) = elim (Bool-cases (list_eq k' k)) [
  | inl same ↦ (c, rw same refl)
  | inr other ↦ (d, rw other e)
]

Keyed-here :
    (k p : List ℕ) (c : PeerConnection) (cs : List (List ℕ × PeerConnection))
    → k ≡ p
    → Keyed k ((p, c) ∷ cs)
unfolding Keyed
Keyed-here k p c cs same =
    let e : list_eq p k ≡ true = subst (λ x. list_eq p x ≡ true) (sym same) (list_eq_refl p) in
    (c, rw e refl)

oldest-Keyed :
    (k : List ℕ) (t : Option ℕ) (cs : List (List ℕ × PeerConnection))
    → (k' : List ℕ) × (oldest (some k) t cs ≡ some k') × ((k' ≡ k) ⊎ Keyed k' cs)
unfolding oldest Keyed
oldest-Keyed k t [] = (k, refl, inl refl)
oldest-Keyed k t ((p, c) ∷ cs) = elim (Bool-cases (earlier c.info.connected_at t)) [
  | inl before ↦
      let (k', e, from) = oldest-Keyed p (some c.info.connected_at) cs in
      (
        k',
        rw before e,
        inr (elim from [
          | inl same ↦ Keyed-here k' p c cs same
          | inr later ↦ Keyed-cons k' p c cs later
        ]),
      )
  | inr behind ↦
      let (k', e, from) = oldest-Keyed k t cs in
      (
        k',
        rw behind e,
        elim from [ inl same ↦ inl same | inr later ↦ inr (Keyed-cons k' p c cs later) ],
      )
]

-- A manager with one connection less, after a call that did not throw.
record Shrunk (m : PeerManager) (r : Result Thrown Bool × PeerManager) : Type 0 where
  done : r.0 ≡ ok true
  live : AllLive r.1.connections
  less : suc (length r.1.connections) ≡ length m.connections

remove_connection-Shrunk :
    (k : List ℕ) (m : PeerManager)
    → AllLive m.connections
    → Keyed k m.connections
    → Shrunk m (remove_connection k m)
unfolding remove_connection remove_found delete_closed close Keyed
remove_connection-Shrunk k m h (c, e) =
    let (named, n, socket) = AllLive-find k c m.connections h e in
    let same : remove_found k m (find_connection k m.connections) ≡ (
      ok true,
      record m { connections = delete_connection k m.connections; closed = n ∷ m.closed },
    ) =
      ap (remove_found k m) e ∙ ap (λ w. delete_closed k (close w m)) socket in
    subst (λ r. Shrunk m r) (sym same)
      (record {
        done = refl;
        live = AllLive-delete k m.connections h;
        less = length-delete k c m.connections e;
      })

evict_found-Shrunk :
    (k : List ℕ) (m : PeerManager)
    → AllLive m.connections
    → Keyed k m.connections
    → Shrunk m (evict_found m (some k))
unfolding evict_found Keyed
evict_found-Shrunk [] m h (c, e) = absurd ((AllLive-find [] c m.connections h e).0 refl)
evict_found-Shrunk (b ∷ bs) m h keyed = remove_connection-Shrunk (b ∷ bs) m h keyed

-- What room is made for: a call that did not throw, with one connection at most less than the bound.
record Room (bound : ℕ) (r : Result Thrown Bool × PeerManager) : Type 0 where
  answer : Bool
  done : r.0 ≡ ok answer
  live : AllLive r.1.connections
  fits : suc (length r.1.connections) ≤ bound

evict_oldest_connection-Room :
    (m : PeerManager)
    → AllLive m.connections
    → length m.connections ≤ max 1 m.max_connections
    → Room (max 1 m.max_connections) (evict_oldest_connection m)
unfolding evict_oldest_connection
evict_oldest_connection-Room m h fits = by_connections m.connections refl
  where
    by_connections :
        (cs : List (List ℕ × PeerConnection))
        → m.connections ≡ cs
        → Room (max 1 m.max_connections) (evict_found m (oldest none none m.connections))
    by_connections [] e =
        subst (λ ds. Room (max 1 m.max_connections) (evict_found m (oldest none none ds))) (sym e)
          (unfold oldest evict_found in
            record { answer = false; done = refl; live = h; fits = rw e (omega arith) })
    by_connections ((p, c) ∷ cs) e =
        let (k, old, from) = oldest-Keyed p (some c.info.connected_at) cs in
        let first : oldest none none m.connections ≡ some k =
          ap (oldest none none) e ∙ (unfold oldest in old) in
        let keyed : Keyed k m.connections =
          subst (λ ds. Keyed k ds) (sym e)
            (elim from [
              | inl same ↦ Keyed-here k p c cs same
              | inr later ↦ Keyed-cons k p c cs later
            ]) in
        let shrunk = evict_found-Shrunk k m h keyed in
        subst (λ o. Room (max 1 m.max_connections) (evict_found m o)) (sym first)
          (record {
            answer = true;
            done = shrunk.done;
            live = shrunk.live;
            fits = omega (arith, shrunk.less, fits);
          })

register-Room :
    (n bound : ℕ) (info : PeerInfo) (r : Result Thrown Bool × PeerManager)
    → info.peer_id ≢ []
    → Room bound r
    → ((register (web_socket n) info r).0 ≡ ok info)
      × AllLive (register (web_socket n) info r).1.connections
      × (length (register (web_socket n) info r).1.connections ≤ bound)
unfolding register
register-Room n bound info (err e, m) named room =
    let clash : err e ≡ ok room.answer = room.done in cc
register-Room n bound info (ok b, m) named room =
    let c : PeerConnection = record { ws = web_socket n; info = info } in
    (
      refl,
      AllLive-set info.peer_id c m.connections (named, n, refl) room.live,
      omega (arith, length-set info.peer_id c m.connections, room.fits),
    )

-- Where the connections of a manager have sockets of the browser and peers with names, and are at
-- most as many as its limit, or one if that is zero, this is so after `addConnection` for a named peer
-- with a socket of the browser, which does not throw.
pub add_connection_bounded :
    (now n : ℕ) (uuid peer_id info_hash : List ℕ) (port : ℕ) (m : PeerManager)
    → peer_id ≢ []
    → AllLive m.connections
    → length m.connections ≤ max 1 m.max_connections
    → (info : PeerInfo) × ((add_connection now uuid (web_socket n) peer_id info_hash port m).0
        ≡ ok info)
      × AllLive (add_connection now uuid (web_socket n) peer_id info_hash port m).1.connections
      × (length (add_connection now uuid (web_socket n) peer_id info_hash port m).1.connections
          ≤ max 1 m.max_connections)
unfolding add_connection
add_connection_bounded now n uuid peer_id info_hash port m named h fits =
    let (answer, live, within) = register-Room n (max 1 m.max_connections) _ _ named room in
    (_, answer, live, within)
  where
    room : Room (max 1 m.max_connections) (
        if leb m.max_connections (length m.connections)
        then evict_oldest_connection m
        else (ok false, m))
    room = elim (Bool-cases (leb m.max_connections (length m.connections))) [
      | inl full ↦ rw full (evict_oldest_connection-Room m h fits)
      | inr free ↦ rw free (record { answer = false; done = refl; live = h; fits = ground arith })
    ]
