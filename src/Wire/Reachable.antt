-- ===== src/Wire/Reachable.antt =====
-- The calls of a wire as steps, and what holds of every wire that they reach.
use browsertorrent.Common.{
  ℕ, ◌*◌, ◌≡◌, refl, sym, inl, inr, Option, some, none, List, Result, ok, err, >>=-eq-ok,
  ok-injective, Bool-cases, if-true, if-false, ltb, &&-eq-true, arith,
}
use mathlib.Core.Path.{subst}
use browsertorrent.Message.{BlockRequest, PeerMessage, payload, request, keep_alive}
use browsertorrent.Wire.{
  WireError, timeout_error, WireConfig, Wire, Outcome, returned, thrown, is_connected, Environment,
}
use browsertorrent.Wire.Options.{WireOptions, positive_option, non_negative_option, initial, new}
use browsertorrent.Wire.Lifecycle.{
  destroy, on_handshake_timeout, on_idle_timeout, is_handshaking, Interval, interval_value,
  set_interval, set_keep_alive,
}
use browsertorrent.Wire.Send.{send_message}
use browsertorrent.Wire.Connect.{
  run_tasks, send_extended_handshake, send_handshake, send_request, keep_alive_fired,
  on_keep_alive_timer,
}
use browsertorrent.Wire.Receive.{on_data}
use browsertorrent.Wire.Stability.{wire_of}
use browsertorrent.Wire.Invariant.{Inv}
use browsertorrent.Wire.Sending.{InvOutcome, send_message-Inv}
use browsertorrent.Wire.Connecting.{
  terminate-Inv, ignored-Inv, run_tasks-Inv, send_extended_handshake-Inv, send_handshake-Inv,
}
use browsertorrent.Wire.Reading.{on_data-Inv}

-- A call or a callback, with what the transport and the extension host do meanwhile; a call that
-- throws leaves the wire that it has changed by then.
pub data Step (w u : Wire) : Type 0 where
  data_received : (env : Environment) (chunk : List ℕ) → u ≡ on_data env chunk w → Step w u
  handshake_sent :
      (env : Environment) (info_hash peer_id : List ℕ) (reserved : Option (List ℕ))
      → u ≡ wire_of (send_handshake env info_hash peer_id reserved w)
      → Step w u
  extended_handshake_sent :
      (env : Environment) → u ≡ wire_of (send_extended_handshake env w) → Step w u
  tasks_run : u ≡ run_tasks w → Step w u
  message_sent :
      (env : Environment) (m : PeerMessage) → u ≡ wire_of (send_message env m w) → Step w u
  request_sent :
      (env : Environment) (r : BlockRequest) → u ≡ wire_of (send_request env r w) → Step w u
  keep_alive_due : (env : Environment) → u ≡ on_keep_alive_timer env w → Step w u
  keep_alive_set : (i : Interval) → u ≡ wire_of (set_keep_alive i w) → Step w u
  handshake_timed_out : u ≡ on_handshake_timeout w → Step w u
  idle_timed_out : u ≡ on_idle_timeout w → Step w u
  destroyed : u ≡ destroy w → Step w u

pub data Reach (w : Wire) : Wire → Type 0 where
  here : Reach w w
  then_step : {u v : Wire} → Reach w u → Step u v → Reach w v

wire_of-Inv : (o : Outcome) → InvOutcome o → Inv (wire_of o)
wire_of-Inv (returned w) h = h
wire_of-Inv (thrown e w) h = h

-- A wire that is constructed has the fields as they are declared.
new-initial :
    (options : WireOptions) (w : Wire)
    → new options ≡ ok w
    → (config : WireConfig) × (interval : ℕ) × (w ≡ initial config interval)
unfolding new
new-initial options w e =
    let (a, t1, e1) =
      >>=-eq-ok (positive_option options.max_message_length (2 * 1024 * 1024)) _ e in
    let (b, t2, e2) = >>=-eq-ok (positive_option options.max_block_length (16 * 1024)) _ e1 in
    let (c, t3, e3) = >>=-eq-ok (positive_option options.max_pending_requests 250) _ e2 in
    let (d, t4, e4) =
      >>=-eq-ok (positive_option options.max_queued_write_bytes (4 * 1024 * 1024)) _ e3 in
    let (f, t5, e5) = >>=-eq-ok (non_negative_option options.handshake_timeout_ms 30000) _ e4 in
    let (g, t6, e6) = >>=-eq-ok (non_negative_option options.idle_timeout_ms 0) _ e5 in
    let (h, t7, e7) = >>=-eq-ok (non_negative_option options.keep_alive_interval_ms 0) _ e6 in
    (_, h, sym (ok-injective e7))

initial-Inv : (config : WireConfig) (interval : ℕ) → Inv (initial config interval)
initial-Inv config interval = record {
  requests_bounded = omega arith;
  requests_valid = tt;
  pending_valid = tt;
  no_queue = refl;
  remote_order = λ c. absurd cc;
  local_order = λ c. absurd cc;
  connected_greeted = λ c. absurd cc;
  received_known = refl;
  closed_clear = λ c. absurd cc;
  keep_alive_live = λ c. absurd cc;
  idle_live = λ c. absurd cc;
  handshake_live = λ c. refl;
  effects_agreed = tt;
}

keep_alive_fired-Inv : (env : Environment) (w : Wire) → Inv w → Inv (keep_alive_fired env w)
keep_alive_fired-Inv env w h = record {
  requests_bounded = h.requests_bounded;
  requests_valid = h.requests_valid;
  pending_valid = h.pending_valid;
  no_queue = h.no_queue;
  remote_order = h.remote_order;
  local_order = h.local_order;
  connected_greeted = h.connected_greeted;
  received_known = h.received_known;
  closed_clear = h.closed_clear;
  keep_alive_live = λ c. absurd cc;
  idle_live = h.idle_live;
  handshake_live = h.handshake_live;
  effects_agreed = h.effects_agreed;
}

on_keep_alive_timer-Inv : (env : Environment) (w : Wire) → Inv w → Inv (on_keep_alive_timer env w)
unfolding on_keep_alive_timer
on_keep_alive_timer-Inv env w h = elim (Bool-cases (is_connected w.state)) [
  | inl e ↦ rw e (
      ignored-Inv (send_message env keep_alive (keep_alive_fired env w))
        (send_message-Inv env (keep_alive_fired env w) keep_alive (keep_alive_fired-Inv env w h)))
  | inr e ↦ rw e (keep_alive_fired-Inv env w h)
]

set_interval-Inv : (w : Wire) (o : Result WireError ℕ) → Inv w → InvOutcome (set_interval w o)
set_interval-Inv w (err e) h = h
set_interval-Inv w (ok n) h = record {
  requests_bounded = h.requests_bounded;
  requests_valid = h.requests_valid;
  pending_valid = h.pending_valid;
  no_queue = h.no_queue;
  remote_order = h.remote_order;
  local_order = h.local_order;
  connected_greeted = h.connected_greeted;
  received_known = h.received_known;
  closed_clear = h.closed_clear;
  keep_alive_live = λ c. (&&-eq-true (ltb 0 n) (is_connected w.state) c).1;
  idle_live = h.idle_live;
  handshake_live = h.handshake_live;
  effects_agreed = h.effects_agreed;
}

send_request-Inv :
    (env : Environment) (r : BlockRequest) (w : Wire) → Inv w → InvOutcome (send_request env r w)
unfolding send_request
send_request-Inv env r w h = elim (Bool-cases w.peer_choking) [
  | inl e ↦ subst InvOutcome (sym (if-true w.peer_choking _ _ e)) h
  | inr e ↦
      subst InvOutcome (sym (if-false w.peer_choking _ _ e))
        (send_message-Inv env w (payload (request r)) h)
]

on_handshake_timeout-Inv : (w : Wire) → Inv w → Inv (on_handshake_timeout w)
unfolding on_handshake_timeout
on_handshake_timeout-Inv w h = elim (Bool-cases (is_handshaking w.state)) [
  | inl e ↦ rw e (terminate-Inv (some timeout_error) w h)
  | inr e ↦ rw e h
]

Step-Inv : (w u : Wire) → Inv w → Step w u → Inv u
unfolding destroy on_idle_timeout set_keep_alive
Step-Inv w u h (data_received env chunk e) = subst Inv (sym e) (on_data-Inv env chunk w h)
Step-Inv w u h (handshake_sent env info_hash peer_id reserved e) =
    subst Inv (sym e) (wire_of-Inv _ (send_handshake-Inv env info_hash peer_id reserved w h))
Step-Inv w u h (extended_handshake_sent env e) =
    subst Inv (sym e) (wire_of-Inv _ (send_extended_handshake-Inv env w h))
Step-Inv w u h (tasks_run e) = subst Inv (sym e) (run_tasks-Inv w h)
Step-Inv w u h (message_sent env m e) =
    subst Inv (sym e) (wire_of-Inv _ (send_message-Inv env w m h))
Step-Inv w u h (request_sent env r e) =
    subst Inv (sym e) (wire_of-Inv _ (send_request-Inv env r w h))
Step-Inv w u h (keep_alive_due env e) = subst Inv (sym e) (on_keep_alive_timer-Inv env w h)
Step-Inv w u h (keep_alive_set i e) =
    subst Inv (sym e) (wire_of-Inv _ (set_interval-Inv w (interval_value i) h))
Step-Inv w u h (handshake_timed_out e) = subst Inv (sym e) (on_handshake_timeout-Inv w h)
Step-Inv w u h (idle_timed_out e) = subst Inv (sym e) (terminate-Inv (some timeout_error) w h)
Step-Inv w u h (destroyed e) = subst Inv (sym e) (terminate-Inv none w h)

Reach-Inv : {w u : Wire} → Inv w → Reach w u → Inv u
Reach-Inv h here = h
Reach-Inv h (then_step {u} {v} r s) = Step-Inv u v (Reach-Inv h r) s

-- Whatever calls and callbacks follow its construction, in any order, a wire holds no more
-- requests of the peer than it may, each of them within its piece, and of its own only requests
-- within their pieces; no bytes stay counted as queued; an end that declared its pieces can not
-- declare them again; a connected wire has sent and received a handshake; a closed one has no
-- outstanding requests; the keepalive and idle timers run only on a connected wire, the handshake
-- timer only on one that is handshaking; and every message of an extension that was passed on to
-- the listeners or the extension host belongs to an extension that both ends had announced.
pub reachable-Inv : (options : WireOptions) (w u : Wire) → new options ≡ ok w → Reach w u → Inv u
reachable-Inv options w u e r =
    let (config, interval, q) = new-initial options w e in
    Reach-Inv (subst Inv (sym q) (initial-Inv config interval)) r
