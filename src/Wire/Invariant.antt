-- ===== src/Wire/Invariant.antt =====
-- What holds of a wire between two calls.
use browsertorrent.Common.{
  ◌≤◌, ◌≡◌, refl, inl, inr, Bool, true, false, ◌&&◌, Option, none, some, List, [], ok, length,
  Bool-cases, &&-eq-true, ltb,
}
use browsertorrent.Message.{PeerMessage}
use browsertorrent.Handshake.{HandshakeExtension, fast, extension_protocol, dht, v2, PeerHandshake}
use browsertorrent.Wire.{
  Event, Effect, emit, handle_extended, Availability, Wire, is_closed, is_connected,
}
use browsertorrent.Wire.Checks.{
  has, remote_has, negotiated, validate_block, is_exempt, commit_availability_order,
}
use browsertorrent.Wire.Lifecycle.{touch_activity, is_handshaking}
use browsertorrent.Wire.Blocks.{All}

-- The extension whose message an event announces.
abbrev pub required_event : Event → Option HandshakeExtension
required_event (Event.suggest_piece i) = some fast
required_event Event.have_all = some fast
required_event Event.have_none = some fast
required_event (Event.reject_request r) = some fast
required_event (Event.allowed_fast i) = some fast
required_event (Event.extended_handshake v) = some extension_protocol
required_event (Event.extended id bs) = some extension_protocol
required_event (Event.port p) = some dht
required_event (Event.hash_request r) = some v2
required_event (Event.hashes r hs) = some v2
required_event (Event.hash_reject r) = some v2
required_event _ = none

abbrev pub required_effect : Effect → Option HandshakeExtension
required_effect (emit e) = required_event e
required_effect (handle_extended id bs) = some extension_protocol
required_effect _ = none

-- Both ends named the extension in their handshakes.
abbrev pub agreed :
    List HandshakeExtension → Option PeerHandshake → Option HandshakeExtension → Bool
agreed local remote none = true
agreed local remote (some e) = has local e && remote_has remote e

abbrev pub IsAgreed : List HandshakeExtension → Option PeerHandshake → Effect → Type 0
IsAgreed local remote e = agreed local remote (required_effect e) ≡ true

abbrev pub is_known : Option PeerHandshake → Bool
is_known none = false
is_known (some h) = true

pub record Inv (w : Wire) : Type 0 where
  pub requests_bounded : length w.peer_requests ≤ w.config.max_pending_requests
  pub requests_valid : All (λ r. validate_block w.config true r ≡ ok tt) w.peer_requests
  pub pending_valid : All (λ r. validate_block w.config false r ≡ ok tt) w.pending_requests
  pub no_queue : w.queued_write_bytes ≡ 0
  pub remote_order : w.remote_availability.declared ≡ true → w.remote_availability.is_open ≡ false
  pub local_order : w.local_availability.declared ≡ true → w.local_availability.is_open ≡ false
  pub connected_greeted :
      is_connected w.state ≡ true → (w.handshake_sent ≡ true) × (w.handshake_received ≡ true)
  pub received_known : w.handshake_received ≡ is_known w.remote_handshake
  pub closed_clear : is_closed w.state ≡ true → (w.pending_requests ≡ []) × (w.peer_requests ≡ [])
  pub keep_alive_live : w.timers.keep_alive_timer ≡ true → is_connected w.state ≡ true
  pub idle_live : w.timers.idle_timer ≡ true → is_connected w.state ≡ true
  pub handshake_live : w.timers.handshake_timer ≡ true → is_handshaking w.state ≡ true
  pub effects_agreed : All (IsAgreed w.config.local_extensions w.remote_handshake) w.effects

pub touch_activity-Inv : (w : Wire) → Inv w → Inv (touch_activity w)
unfolding touch_activity
touch_activity-Inv w h = record {
  requests_bounded = h.requests_bounded;
  requests_valid = h.requests_valid;
  pending_valid = h.pending_valid;
  no_queue = h.no_queue;
  remote_order = h.remote_order;
  local_order = h.local_order;
  connected_greeted = h.connected_greeted;
  received_known = h.received_known;
  closed_clear = h.closed_clear;
  keep_alive_live = λ e. (&&-eq-true (ltb 0 w.keep_alive_interval_ms) (is_connected w.state) e).1;
  idle_live = λ e. (&&-eq-true (ltb 0 w.config.idle_timeout_ms) (is_connected w.state) e).1;
  handshake_live = h.handshake_live;
  effects_agreed = h.effects_agreed;
}

abbrev pub IsOrdered : Availability → Type 0
IsOrdered a = a.declared ≡ true → a.is_open ≡ false

pub commit-IsOrdered :
    (a : Availability) (m : PeerMessage) → IsOrdered a → IsOrdered (commit_availability_order a m)
unfolding commit_availability_order
commit-IsOrdered a m h = elim (Bool-cases (is_exempt m)) [
  | inl e ↦ rw e h
  | inr e ↦ rw e (λ d. refl)
]

pub negotiated-agreed :
    (w : Wire) (o : Option HandshakeExtension)
    → negotiated w o ≡ agreed w.config.local_extensions w.remote_handshake o
negotiated-agreed w none = refl
negotiated-agreed w (some e) = refl
