-- ===== src/Wire/Accepting.antt =====
-- A message that passed the checks keeps the invariant.
use browsertorrent.Common.{
  ℕ, ◌+◌, ◌≡◌, sym, ap, ◌∙◌, inl, inr, true, false, Option, List, [], ◌∷◌, Result, ok, err,
  guard-eq-ok, >>=-eq-ok, Bool-cases,
}
use mathlib.Core.Path.{subst}
use browsertorrent.Common.Words.{Number}
use browsertorrent.Message.{
  Payload, choke, unchoke, interested, not_interested, have_all, have_none, have, suggest_piece,
  allowed_fast, port, bitfield, request, cancel, reject_request, piece, extended, unknown,
  hash_request, hash_reject, hashes, PeerMessage, payload,
}
use browsertorrent.Handshake.{HandshakeExtension, PeerHandshake}
use browsertorrent.Bencode.{Value}
use browsertorrent.Bencode.Decode.{DecodeError}
use browsertorrent.Bencode.Loop.{decode}
use browsertorrent.Wire.{
  protocol_error, Event, Effect, emit, handle_extended, Wire, log, is_closed, Environment,
}
use browsertorrent.Wire.Checks.{
  required, negotiated, validate_incoming, assert_extension_negotiated, fast_negotiated,
  validate_availability_order, commit_availability_order,
}
use browsertorrent.Wire.Transitions.{apply_remote_state}
use browsertorrent.Wire.Dispatch.{
  dispatch, dispatch_extended, is_zero, extended_options, emit_handshake,
}
use browsertorrent.Wire.Receive.{accept, check_received}
use browsertorrent.Wire.Blocks.{All, All-append}
use browsertorrent.Wire.Shape.{with_remote, dispatch_shape, apply_remote_state_shape}
use browsertorrent.Wire.Requests.{
  peer_requests_bounded, peer_requests-Valid, pending_requests-Valid,
}
use browsertorrent.Wire.Invariant.{
  IsAgreed, agreed, Inv, commit-IsOrdered, touch_activity-Inv, negotiated-agreed,
}

log-All :
    (P : Effect → Type 0) (w : Wire) (e : Effect) → All P w.effects → P e → All P (log e w).effects
log-All P w e h p = All-append P w.effects (e ∷ []) h (p, tt)

module _ (env : Environment) (P : Effect → Type 0) where
  -- Only the messages that need an extension make effects that need it.
  dispatch_extended-All :
      (w : Wire) (id : Number) (bytes : List ℕ)
      → ((v : Value) → P (emit (Event.extended_handshake v)))
      → P (emit (Event.extended id bytes))
      → All P w.effects
      → All P (dispatch_extended env id bytes w).effects
  unfolding dispatch_extended
  dispatch_extended-All w id bytes pv pe h = elim (Bool-cases (is_zero id)) [
    | inl e ↦ rw e (by_value (decode env.encode_text env.decode_text extended_options bytes))
    | inr e ↦ rw e (log-All P w (emit (Event.extended id bytes)) h pe)
  ]
    where
      by_value : (o : Result DecodeError Value) → All P (emit_handshake w o).effects
      by_value (err e) = h
      by_value (ok v) = log-All P w (emit (Event.extended_handshake v)) h (pv v)

module _ (env : Environment) (local : List HandshakeExtension) (remote : Option PeerHandshake) where
  dispatch-IsAgreed :
      (w : Wire) (p : Payload)
      → agreed local remote (required (payload p)) ≡ true
      → All (IsAgreed local remote) w.effects
      → All (IsAgreed local remote) (dispatch env p w).effects
  unfolding dispatch
  dispatch-IsAgreed w (extended id bytes) a h =
      log-All (IsAgreed local remote) (dispatch_extended env id bytes w) (handle_extended id bytes)
        (dispatch_extended-All env (IsAgreed local remote) w id bytes (λ v. a) a h) a
  dispatch-IsAgreed w choke a h = log-All (IsAgreed local remote) w (emit Event.choke) h a
  dispatch-IsAgreed w unchoke a h = log-All (IsAgreed local remote) w (emit Event.unchoke) h a
  dispatch-IsAgreed w interested a h = log-All (IsAgreed local remote) w (emit Event.interested) h a
  dispatch-IsAgreed w not_interested a h =
      log-All (IsAgreed local remote) w (emit Event.not_interested) h a
  dispatch-IsAgreed w have_all a h = log-All (IsAgreed local remote) w (emit Event.have_all) h a
  dispatch-IsAgreed w have_none a h = log-All (IsAgreed local remote) w (emit Event.have_none) h a
  dispatch-IsAgreed w (have i) a h = log-All (IsAgreed local remote) w (emit (Event.have i)) h a
  dispatch-IsAgreed w (suggest_piece i) a h =
      log-All (IsAgreed local remote) w (emit (Event.suggest_piece i)) h a
  dispatch-IsAgreed w (allowed_fast i) a h =
      log-All (IsAgreed local remote) w (emit (Event.allowed_fast i)) h a
  dispatch-IsAgreed w (port p) a h = log-All (IsAgreed local remote) w (emit (Event.port p)) h a
  dispatch-IsAgreed w (bitfield bits) a h =
      log-All (IsAgreed local remote) w (emit (Event.bitfield bits)) h a
  dispatch-IsAgreed w (request r) a h =
      log-All (IsAgreed local remote) w (emit (Event.request r)) h a
  dispatch-IsAgreed w (cancel r) a h = log-All (IsAgreed local remote) w (emit (Event.cancel r)) h a
  dispatch-IsAgreed w (reject_request r) a h =
      log-All (IsAgreed local remote) w (emit (Event.reject_request r)) h a
  dispatch-IsAgreed w (piece i b bs) a h =
      log-All (IsAgreed local remote) w (emit (Event.piece i b bs)) h a
  dispatch-IsAgreed w (unknown id bytes) a h =
      log-All (IsAgreed local remote) w (emit (Event.unknown id bytes)) h a
  dispatch-IsAgreed w (hash_request r) a h =
      log-All (IsAgreed local remote) w (emit (Event.hash_request r)) h a
  dispatch-IsAgreed w (hash_reject r) a h =
      log-All (IsAgreed local remote) w (emit (Event.hash_reject r)) h a
  dispatch-IsAgreed w (hashes r hs) a h =
      log-All (IsAgreed local remote) w (emit (Event.hashes r hs)) h a

module _ (env : Environment) where
  accept_effects-IsAgreed :
      (w u : Wire) (p : Payload)
      → u.effects ≡ w.effects
      → negotiated w (required (payload p)) ≡ true
      → All (IsAgreed w.config.local_extensions w.remote_handshake) w.effects
      → All (IsAgreed w.config.local_extensions w.remote_handshake) (dispatch env p u).effects
  accept_effects-IsAgreed w u p e a h =
      dispatch-IsAgreed env w.config.local_extensions w.remote_handshake u p
        (sym (negotiated-agreed w (required (payload p))) ∙ a)
        (subst (All (IsAgreed w.config.local_extensions w.remote_handshake)) (sym e) h)

  -- What passed the checks was negotiated.
  pub check_received-negotiated :
      (w : Wire) (m : PeerMessage)
      → check_received w m ≡ ok tt
      → (negotiated w (required m) ≡ true) × (validate_incoming w m ≡ ok tt)
  unfolding check_received assert_extension_negotiated validate_availability_order
  check_received-negotiated w m e =
      let (u, t1, e1) = >>=-eq-ok (assert_extension_negotiated w m) _ e in
      let (v, t2, e2) =
        >>=-eq-ok (validate_availability_order (fast_negotiated w) w.remote_availability m) _ e1 in
      (guard-eq-ok (negotiated w (required m)) protocol_error t1, e2)

  pub accept-Inv :
      (w : Wire) (p : Payload) (n : ℕ) (rest : List ℕ)
      → Inv w
      → is_closed w.state ≡ false
      → check_received w (payload p) ≡ ok tt
      → Inv (accept env w p n rest)
  unfolding accept validate_incoming
  accept-Inv w p n rest h o e =
      let (a, checked) = check_received-negotiated w (payload p) e in
      let w0 : Wire = record w {
        remote_availability = commit_availability_order w.remote_availability (payload p);
      } in
      let w1 : Wire = apply_remote_state w0 (payload p) in
      let w1' : Wire = record w1 { downloaded_bytes = w1.downloaded_bytes + (4 + n) } in
      let w2 : Wire = dispatch env p w1' in
      let taken : Wire = record w2 { buffer = rest } in
      let shape : taken ≡ record (with_remote w0 w1) {
        downloaded_bytes = w1'.downloaded_bytes;
        effects = w2.effects;
        buffer = rest;
      } =
        ap {A = Wire} {B = Wire} (λ u. record u { buffer = rest }) (dispatch_shape env w1' p)
        ∙ ap {A = Wire} {B = Wire}
            (λ u. record u {
              downloaded_bytes = w1'.downloaded_bytes;
              effects = w2.effects;
              buffer = rest;
            })
            (apply_remote_state_shape w0 p) in
      touch_activity-Inv taken (
        subst Inv (sym shape) (record {
          requests_bounded = peer_requests_bounded w0 p checked h.requests_bounded;
          requests_valid = peer_requests-Valid w0 p checked h.requests_valid;
          pending_valid = pending_requests-Valid w0 p h.pending_valid;
          no_queue = h.no_queue;
          remote_order = commit-IsOrdered w.remote_availability (payload p) h.remote_order;
          local_order = h.local_order;
          connected_greeted = h.connected_greeted;
          received_known = h.received_known;
          closed_clear = λ c. absurd cc;
          keep_alive_live = h.keep_alive_live;
          idle_live = h.idle_live;
          handshake_live = h.handshake_live;
          effects_agreed =
              accept_effects-IsAgreed w w1' p (ap (λ u. u.effects) (apply_remote_state_shape w0 p))
                a h.effects_agreed;
        }))
