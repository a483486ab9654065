-- ===== src/Wire/Requests.antt =====
-- A message that is received keeps the invariant.
use browsertorrent.Common.{
  ◌≤◌, ◌<◌, ◌≡◌, inl, inr, Bool, true, false, not, ok, guard-eq-ok, >>=-eq-ok, length, Bool-cases,
  leb, arith,
}
use browsertorrent.Message.{
  BlockRequest, Payload, choke, unchoke, interested, not_interested, have_all, have_none, have,
  suggest_piece, allowed_fast, port, bitfield, request, cancel, reject_request, piece, extended,
  unknown, hash_request, hash_reject, hashes, payload,
}
use browsertorrent.Wire.{protocol_error, Wire}
use browsertorrent.Wire.Checks.{
  reject_semantics_negotiated, block_of, validate_block, validate_message_bounds, validate_incoming,
}
use browsertorrent.Wire.Transitions.{apply_remote_state}
use browsertorrent.Wire.Blocks.{
  All, length-set_block, length-delete_block, set_block-All, delete_block-All,
}

abbrev Valid : Wire → Bool → BlockRequest → Type 0
Valid w incoming r = validate_block w.config incoming r ≡ ok tt

-- A request that is received stands within its piece and finds room.
received_request :
    (w : Wire) (r : BlockRequest)
    → validate_incoming w (payload (request r)) ≡ ok tt
    → Valid w true r × (length w.peer_requests < w.config.max_pending_requests)
unfolding validate_incoming validate_message_bounds
received_request w r e =
    let (u, bounds, e1) = >>=-eq-ok (validate_block w.config true r) _ e in
    let room =
      guard-eq-ok (not (leb w.config.max_pending_requests (length w.peer_requests))) protocol_error
        e1 in
    (bounds, ground arith)

-- The requests of the peer after a message.
pub peer_requests_bounded :
    (w : Wire) (p : Payload)
    → validate_incoming w (payload p) ≡ ok tt
    → length w.peer_requests ≤ w.config.max_pending_requests
    → length (apply_remote_state w (payload p)).peer_requests ≤ w.config.max_pending_requests
unfolding apply_remote_state
peer_requests_bounded w (request r) e h =
    let (valid, room) = received_request w r e in omega (arith, length-set_block r w.peer_requests)
peer_requests_bounded w (cancel r) e h = omega (arith, length-delete_block r w.peer_requests)
peer_requests_bounded w choke e h = h
peer_requests_bounded w unchoke e h = h
peer_requests_bounded w interested e h = h
peer_requests_bounded w not_interested e h = h
peer_requests_bounded w have_all e h = h
peer_requests_bounded w have_none e h = h
peer_requests_bounded w (have i) e h = h
peer_requests_bounded w (suggest_piece i) e h = h
peer_requests_bounded w (allowed_fast i) e h = h
peer_requests_bounded w (port p) e h = h
peer_requests_bounded w (bitfield bits) e h = h
peer_requests_bounded w (reject_request r) e h = h
peer_requests_bounded w (piece i b bs) e h = h
peer_requests_bounded w (extended id bytes) e h = h
peer_requests_bounded w (unknown id bytes) e h = h
peer_requests_bounded w (hash_request r) e h = h
peer_requests_bounded w (hash_reject r) e h = h
peer_requests_bounded w (hashes r hs) e h = h

pub peer_requests-Valid :
    (w : Wire) (p : Payload)
    → validate_incoming w (payload p) ≡ ok tt
    → All (Valid w true) w.peer_requests
    → All (Valid w true) (apply_remote_state w (payload p)).peer_requests
unfolding apply_remote_state
peer_requests-Valid w (request r) e h =
    set_block-All (Valid w true) r w.peer_requests (received_request w r e).0 h
peer_requests-Valid w (cancel r) e h = delete_block-All (Valid w true) r w.peer_requests h
peer_requests-Valid w choke e h = h
peer_requests-Valid w unchoke e h = h
peer_requests-Valid w interested e h = h
peer_requests-Valid w not_interested e h = h
peer_requests-Valid w have_all e h = h
peer_requests-Valid w have_none e h = h
peer_requests-Valid w (have i) e h = h
peer_requests-Valid w (suggest_piece i) e h = h
peer_requests-Valid w (allowed_fast i) e h = h
peer_requests-Valid w (port p) e h = h
peer_requests-Valid w (bitfield bits) e h = h
peer_requests-Valid w (reject_request r) e h = h
peer_requests-Valid w (piece i b bs) e h = h
peer_requests-Valid w (extended id bytes) e h = h
peer_requests-Valid w (unknown id bytes) e h = h
peer_requests-Valid w (hash_request r) e h = h
peer_requests-Valid w (hash_reject r) e h = h
peer_requests-Valid w (hashes r hs) e h = h

pub pending_requests-Valid :
    (w : Wire) (p : Payload)
    → All (Valid w false) w.pending_requests
    → All (Valid w false) (apply_remote_state w (payload p)).pending_requests
unfolding apply_remote_state
pending_requests-Valid w choke h = elim (Bool-cases (reject_semantics_negotiated w)) [
  | inl e ↦ rw e h
  | inr e ↦ rw e tt
]
pending_requests-Valid w (piece i b bs) h =
    delete_block-All (Valid w false) (block_of i b bs) w.pending_requests h
pending_requests-Valid w (reject_request r) h =
    delete_block-All (Valid w false) r w.pending_requests h
pending_requests-Valid w unchoke h = h
pending_requests-Valid w interested h = h
pending_requests-Valid w not_interested h = h
pending_requests-Valid w have_all h = h
pending_requests-Valid w have_none h = h
pending_requests-Valid w (have i) h = h
pending_requests-Valid w (suggest_piece i) h = h
pending_requests-Valid w (allowed_fast i) h = h
pending_requests-Valid w (port p) h = h
pending_requests-Valid w (bitfield bits) h = h
pending_requests-Valid w (request r) h = h
pending_requests-Valid w (cancel r) h = h
pending_requests-Valid w (extended id bytes) h = h
pending_requests-Valid w (unknown id bytes) h = h
pending_requests-Valid w (hash_request r) h = h
pending_requests-Valid w (hash_reject r) h = h
pending_requests-Valid w (hashes r hs) h = h
