-- ===== src/Wire/Sending.antt =====
-- What a wire sends keeps the invariant.
use browsertorrent.Common.{
  ℕ, ◌+◌, ◌≡◌, refl, sym, ap, inl, inr, false, not, ◌||◌, none, List, [], ◌∷◌, Result, ok, err,
  guard, guard-eq-ok, >>=-eq-ok, length, Bool-cases, leb, arith,
}
use mathlib.Core.Path.{subst}
use browsertorrent.Message
use browsertorrent.Message.{
  BlockRequest, Payload, choke, unchoke, interested, not_interested, have_all, have_none, have,
  suggest_piece, allowed_fast, port, bitfield, request, cancel, reject_request, piece, extended,
  unknown, hash_request, hash_reject, hashes, PeerMessage, keep_alive, payload, encode_message,
}
use browsertorrent.Wire.{
  WireError, peer_wire_error, error, Effect, emit, send, Wire, Outcome, returned, thrown, log,
  is_closed, is_connected, Environment,
}
use browsertorrent.Wire.Checks.{
  validate_message_bounds, assert_extension_negotiated, fast_negotiated,
  validate_availability_order, commit_availability_order,
}
use browsertorrent.Wire.Transitions.{apply_local_state}
use browsertorrent.Wire.Writing.{write_frame_lem}
use browsertorrent.Wire.Send.{
  is_keep_alive, check_outgoing, after_write, of_message_error, within_message_limit, send_frame,
  send_checked, send_message,
}
use browsertorrent.Wire.Blocks.{All-append}
use browsertorrent.Wire.Outstanding.{
  peer_requests_shrink, peer_requests_kept-Valid, pending_requests_sent-Valid,
}
use browsertorrent.Wire.Shape.{with_local, apply_local_state_shape}
use browsertorrent.Wire.Invariant.{
  IsAgreed, required_effect, Inv, commit-IsOrdered, touch_activity-Inv,
}

-- What `_sendMessage` has checked by the time it encodes.
check_outgoing_open :
    (w : Wire) (m : PeerMessage)
    → check_outgoing w m ≡ ok tt
    → (is_closed w.state ≡ false) × (validate_message_bounds w.config false m ≡ ok tt)
unfolding check_outgoing assert_extension_negotiated validate_availability_order
check_outgoing_open w m e =
    let (u1, t1, e1) = >>=-eq-ok (guard (not (is_closed w.state)) peer_wire_error) _ e in
    let (u2, t2, e2) =
      >>=-eq-ok (guard (is_connected w.state || is_keep_alive m) peer_wire_error) _ e1 in
    let (u3, t3, e3) = >>=-eq-ok (assert_extension_negotiated w m) _ e2 in
    let (u4, t4, e4) =
      >>=-eq-ok (validate_availability_order (fast_negotiated w) w.local_availability m) _ e3 in
    let live = guard-eq-ok (not (is_closed w.state)) peer_wire_error t1 in (ground arith, e4)

after_write-Inv :
    (w : Wire) (m : PeerMessage) (frame : List ℕ)
    → Inv w
    → is_closed w.state ≡ false
    → validate_message_bounds w.config false m ≡ ok tt
    → Inv (after_write w m frame)
unfolding after_write
after_write-Inv w m frame h o e =
    let w0 : Wire = record w {
      local_availability = commit_availability_order w.local_availability m;
    } in
    let w1 : Wire = apply_local_state w0 m in
    let sent : Wire = record w1 { uploaded_bytes = w1.uploaded_bytes + length frame } in
    let shape : sent
        ≡ record (with_local w0 w1) { uploaded_bytes = w1.uploaded_bytes + length frame } =
      ap {A = Wire} {B = Wire} (λ u. record u { uploaded_bytes = w1.uploaded_bytes + length frame })
        (apply_local_state_shape w0 m) in
    touch_activity-Inv sent (
      subst Inv (sym shape) (record {
        requests_bounded = omega (arith, h.requests_bounded, peer_requests_shrink w0 m);
        requests_valid = peer_requests_kept-Valid w0 m h.requests_valid;
        pending_valid = pending_requests_sent-Valid w0 m e h.pending_valid;
        no_queue = h.no_queue;
        remote_order = h.remote_order;
        local_order = commit-IsOrdered w.local_availability m h.local_order;
        connected_greeted = h.connected_greeted;
        received_known = h.received_known;
        closed_clear = λ c. absurd cc;
        keep_alive_live = h.keep_alive_live;
        idle_live = h.idle_live;
        handshake_live = h.handshake_live;
        effects_agreed = h.effects_agreed;
      }))

-- An effect that needs no extension.
pub log-Inv : (w : Wire) (e : Effect) → required_effect e ≡ none → Inv w → Inv (log e w)
log-Inv w e free h = record {
  requests_bounded = h.requests_bounded;
  requests_valid = h.requests_valid;
  pending_valid = h.pending_valid;
  no_queue = h.no_queue;
  remote_order = h.remote_order;
  local_order = h.local_order;
  connected_greeted = h.connected_greeted;
  received_known = h.received_known;
  closed_clear = h.closed_clear;
  keep_alive_live = h.keep_alive_live;
  idle_live = h.idle_live;
  handshake_live = h.handshake_live;
  effects_agreed =
      All-append (IsAgreed w.config.local_extensions w.remote_handshake) w.effects (e ∷ [])
        h.effects_agreed (rw free refl, tt);
}

abbrev pub InvOutcome : Outcome → Type 0
InvOutcome (returned w) = Inv w
InvOutcome (thrown e w) = Inv w

module _ (env : Environment) where
  send_frame-Inv :
      (w : Wire) (m : PeerMessage) (o : Result Message.Error (List ℕ))
      → Inv w
      → is_closed w.state ≡ false
      → validate_message_bounds w.config false m ≡ ok tt
      → InvOutcome (send_frame env w m o)
  unfolding send_frame
  send_frame-Inv w m (err e) h o b = log-Inv w (emit (error (of_message_error e))) refl h
  send_frame-Inv w m (ok frame) h o b = elim (Bool-cases (within_message_limit w frame)) [
    | inr e ↦ rw e h
    | inl e ↦
        elim (Bool-cases
          (leb (w.queued_write_bytes + length frame) w.config.max_queued_write_bytes)) [
            | inr e' ↦ rw (e, write_frame_lem env frame w, e') h
            | inl e' ↦ elim (Bool-cases (env.transport_accepts frame)) [
              | inr e'' ↦ rw (e, write_frame_lem env frame w, e', e'') h
              | inl e'' ↦
                  rw (e, write_frame_lem env frame w, e', e'')
                    (after_write-Inv (log (send frame) w) m frame (log-Inv w (send frame) refl h) o
                      b)
            ]
          ]
  ]

  pub send_message-Inv : (w : Wire) (m : PeerMessage) → Inv w → InvOutcome (send_message env m w)
  unfolding send_message
  send_message-Inv w m h = by_check (check_outgoing w m) refl
    where
      by_check :
          (o : Result WireError (Unit {0}))
          → check_outgoing w m ≡ o
          → InvOutcome (send_checked env w m o)
      by_check (err e) q = h
      by_check (ok u) q =
          let (live, bounds) = check_outgoing_open w m q in
          send_frame-Inv w m (encode_message m) h live bounds
