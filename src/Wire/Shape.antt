-- ===== src/Wire/Shape.antt =====
-- Which fields of a wire a message changes: those that are not named here stay as they are.
use browsertorrent.Common.{◌≡◌, refl, inl, inr, Result, ok, err, Bool-cases}
use browsertorrent.Message.{
  Payload, choke, unchoke, interested, not_interested, have_all, have_none, have, suggest_piece,
  allowed_fast, port, bitfield, request, cancel, reject_request, piece, extended, unknown,
  hash_request, hash_reject, hashes, PeerMessage, keep_alive, payload,
}
use browsertorrent.Bencode.{Value}
use browsertorrent.Bencode.Decode.{DecodeError}
use browsertorrent.Bencode.Loop.{decode}
use browsertorrent.Wire.{handle_extended, log, Wire, Environment}
use browsertorrent.Wire.Transitions.{apply_local_state, apply_remote_state}
use browsertorrent.Wire.Dispatch.{
  dispatch, dispatch_extended, is_zero, extended_options, emit_handshake,
}

-- The fields that `_applyRemoteState` and `_applyLocalState` may change, taken from `u`.
abbrev pub with_remote : Wire → Wire → Wire
with_remote w u = record w {
  peer_choking = u.peer_choking;
  peer_interested = u.peer_interested;
  remote_allowed_fast = u.remote_allowed_fast;
  pending_requests = u.pending_requests;
  peer_requests = u.peer_requests;
}

abbrev pub with_local : Wire → Wire → Wire
with_local w u = record w {
  am_choking = u.am_choking;
  am_interested = u.am_interested;
  local_allowed_fast = u.local_allowed_fast;
  pending_requests = u.pending_requests;
  peer_requests = u.peer_requests;
}

pub apply_remote_state_shape :
    (w : Wire) (p : Payload)
    → apply_remote_state w (payload p) ≡ with_remote w (apply_remote_state w (payload p))
unfolding apply_remote_state
apply_remote_state_shape w choke = refl
apply_remote_state_shape w unchoke = refl
apply_remote_state_shape w interested = refl
apply_remote_state_shape w not_interested = refl
apply_remote_state_shape w have_all = refl
apply_remote_state_shape w have_none = refl
apply_remote_state_shape w (have i) = refl
apply_remote_state_shape w (suggest_piece i) = refl
apply_remote_state_shape w (allowed_fast i) = refl
apply_remote_state_shape w (port p) = refl
apply_remote_state_shape w (bitfield bits) = refl
apply_remote_state_shape w (request r) = refl
apply_remote_state_shape w (cancel r) = refl
apply_remote_state_shape w (reject_request r) = refl
apply_remote_state_shape w (piece i b bs) = refl
apply_remote_state_shape w (extended id bytes) = refl
apply_remote_state_shape w (unknown id bytes) = refl
apply_remote_state_shape w (hash_request r) = refl
apply_remote_state_shape w (hash_reject r) = refl
apply_remote_state_shape w (hashes r hs) = refl

pub apply_local_state_shape :
    (w : Wire) (m : PeerMessage) → apply_local_state w m ≡ with_local w (apply_local_state w m)
unfolding apply_local_state
apply_local_state_shape w keep_alive = refl
apply_local_state_shape w (payload choke) = refl
apply_local_state_shape w (payload unchoke) = refl
apply_local_state_shape w (payload interested) = refl
apply_local_state_shape w (payload not_interested) = refl
apply_local_state_shape w (payload have_all) = refl
apply_local_state_shape w (payload have_none) = refl
apply_local_state_shape w (payload (have i)) = refl
apply_local_state_shape w (payload (suggest_piece i)) = refl
apply_local_state_shape w (payload (allowed_fast i)) = refl
apply_local_state_shape w (payload (port p)) = refl
apply_local_state_shape w (payload (bitfield bits)) = refl
apply_local_state_shape w (payload (request r)) = refl
apply_local_state_shape w (payload (cancel r)) = refl
apply_local_state_shape w (payload (reject_request r)) = refl
apply_local_state_shape w (payload (piece i b bs)) = refl
apply_local_state_shape w (payload (extended id bytes)) = refl
apply_local_state_shape w (payload (unknown id bytes)) = refl
apply_local_state_shape w (payload (hash_request r)) = refl
apply_local_state_shape w (payload (hash_reject r)) = refl
apply_local_state_shape w (payload (hashes r hs)) = refl

module _ (env : Environment) where
  -- The dispatch of a message adds effects and changes nothing else.
  pub dispatch_shape :
      (w : Wire) (p : Payload)
      → dispatch env p w ≡ record w { effects = (dispatch env p w).effects }
  unfolding dispatch dispatch_extended
  dispatch_shape w choke = refl
  dispatch_shape w unchoke = refl
  dispatch_shape w interested = refl
  dispatch_shape w not_interested = refl
  dispatch_shape w have_all = refl
  dispatch_shape w have_none = refl
  dispatch_shape w (have i) = refl
  dispatch_shape w (suggest_piece i) = refl
  dispatch_shape w (allowed_fast i) = refl
  dispatch_shape w (port p) = refl
  dispatch_shape w (bitfield bits) = refl
  dispatch_shape w (request r) = refl
  dispatch_shape w (cancel r) = refl
  dispatch_shape w (reject_request r) = refl
  dispatch_shape w (piece i b bs) = refl
  dispatch_shape w (unknown id bytes) = refl
  dispatch_shape w (hash_request r) = refl
  dispatch_shape w (hash_reject r) = refl
  dispatch_shape w (hashes r hs) = refl
  dispatch_shape w (extended id bytes) = elim (Bool-cases (is_zero id)) [
    | inl e ↦ rw e (by_value (decode env.encode_text env.decode_text extended_options bytes))
    | inr e ↦ rw e refl
  ]
    where
      by_value :
          (o : Result DecodeError Value)
          → log (handle_extended id bytes) (emit_handshake w o)
            ≡ record w { effects = (log (handle_extended id bytes) (emit_handshake w o)).effects }
      by_value (err e) = refl
      by_value (ok v) = refl
