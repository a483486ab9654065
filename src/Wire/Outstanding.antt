-- ===== src/Wire/Outstanding.antt =====
-- A message that is sent keeps the invariant.
use browsertorrent.Common.{◌≤◌, ◌≡◌, Bool, true, false, ok, length, arith}
use browsertorrent.Message.{
  BlockRequest, choke, unchoke, interested, not_interested, have_all, have_none, have,
  suggest_piece, allowed_fast, port, bitfield, request, cancel, reject_request, piece, extended,
  unknown, hash_request, hash_reject, hashes, PeerMessage, keep_alive, payload,
}
use browsertorrent.Wire.{Wire}
use browsertorrent.Wire.Checks.{block_of, validate_block, validate_message_bounds}
use browsertorrent.Wire.Transitions.{apply_local_state}
use browsertorrent.Wire.Blocks.{All, length-delete_block, set_block-All, delete_block-All}

abbrev Valid : Wire → Bool → BlockRequest → Type 0
Valid w incoming r = validate_block w.config incoming r ≡ ok tt

pub peer_requests_shrink :
    (w : Wire) (m : PeerMessage)
    → length (apply_local_state w m).peer_requests ≤ length w.peer_requests
unfolding apply_local_state
peer_requests_shrink w (payload (piece i b bs)) =
    length-delete_block (block_of i b bs) w.peer_requests
peer_requests_shrink w (payload (reject_request r)) = length-delete_block r w.peer_requests
peer_requests_shrink w (payload (cancel r)) = length-delete_block r w.peer_requests
peer_requests_shrink w keep_alive = omega arith
peer_requests_shrink w (payload choke) = omega arith
peer_requests_shrink w (payload unchoke) = omega arith
peer_requests_shrink w (payload interested) = omega arith
peer_requests_shrink w (payload not_interested) = omega arith
peer_requests_shrink w (payload have_all) = omega arith
peer_requests_shrink w (payload have_none) = omega arith
peer_requests_shrink w (payload (have i)) = omega arith
peer_requests_shrink w (payload (suggest_piece i)) = omega arith
peer_requests_shrink w (payload (allowed_fast i)) = omega arith
peer_requests_shrink w (payload (port p)) = omega arith
peer_requests_shrink w (payload (bitfield bits)) = omega arith
peer_requests_shrink w (payload (request r)) = omega arith
peer_requests_shrink w (payload (extended id bytes)) = omega arith
peer_requests_shrink w (payload (unknown id bytes)) = omega arith
peer_requests_shrink w (payload (hash_request r)) = omega arith
peer_requests_shrink w (payload (hash_reject r)) = omega arith
peer_requests_shrink w (payload (hashes r hs)) = omega arith

pub peer_requests_kept-Valid :
    (w : Wire) (m : PeerMessage)
    → All (Valid w true) w.peer_requests
    → All (Valid w true) (apply_local_state w m).peer_requests
unfolding apply_local_state
peer_requests_kept-Valid w (payload (piece i b bs)) h =
    delete_block-All (Valid w true) (block_of i b bs) w.peer_requests h
peer_requests_kept-Valid w (payload (reject_request r)) h =
    delete_block-All (Valid w true) r w.peer_requests h
peer_requests_kept-Valid w (payload (cancel r)) h =
    delete_block-All (Valid w true) r w.peer_requests h
peer_requests_kept-Valid w keep_alive h = h
peer_requests_kept-Valid w (payload choke) h = h
peer_requests_kept-Valid w (payload unchoke) h = h
peer_requests_kept-Valid w (payload interested) h = h
peer_requests_kept-Valid w (payload not_interested) h = h
peer_requests_kept-Valid w (payload have_all) h = h
peer_requests_kept-Valid w (payload have_none) h = h
peer_requests_kept-Valid w (payload (have i)) h = h
peer_requests_kept-Valid w (payload (suggest_piece i)) h = h
peer_requests_kept-Valid w (payload (allowed_fast i)) h = h
peer_requests_kept-Valid w (payload (port p)) h = h
peer_requests_kept-Valid w (payload (bitfield bits)) h = h
peer_requests_kept-Valid w (payload (request r)) h = h
peer_requests_kept-Valid w (payload (extended id bytes)) h = h
peer_requests_kept-Valid w (payload (unknown id bytes)) h = h
peer_requests_kept-Valid w (payload (hash_request r)) h = h
peer_requests_kept-Valid w (payload (hash_reject r)) h = h
peer_requests_kept-Valid w (payload (hashes r hs)) h = h

pub pending_requests_sent-Valid :
    (w : Wire) (m : PeerMessage)
    → validate_message_bounds w.config false m ≡ ok tt
    → All (Valid w false) w.pending_requests
    → All (Valid w false) (apply_local_state w m).pending_requests
unfolding apply_local_state validate_message_bounds
pending_requests_sent-Valid w (payload (request r)) e h =
    set_block-All (Valid w false) r w.pending_requests e h
pending_requests_sent-Valid w keep_alive e h = h
pending_requests_sent-Valid w (payload choke) e h = h
pending_requests_sent-Valid w (payload unchoke) e h = h
pending_requests_sent-Valid w (payload interested) e h = h
pending_requests_sent-Valid w (payload not_interested) e h = h
pending_requests_sent-Valid w (payload have_all) e h = h
pending_requests_sent-Valid w (payload have_none) e h = h
pending_requests_sent-Valid w (payload (have i)) e h = h
pending_requests_sent-Valid w (payload (suggest_piece i)) e h = h
pending_requests_sent-Valid w (payload (allowed_fast i)) e h = h
pending_requests_sent-Valid w (payload (port p)) e h = h
pending_requests_sent-Valid w (payload (bitfield bits)) e h = h
pending_requests_sent-Valid w (payload (cancel r)) e h = h
pending_requests_sent-Valid w (payload (reject_request r)) e h = h
pending_requests_sent-Valid w (payload (piece i b bs)) e h = h
pending_requests_sent-Valid w (payload (extended id bytes)) e h = h
pending_requests_sent-Valid w (payload (unknown id bytes)) e h = h
pending_requests_sent-Valid w (payload (hash_request r)) e h = h
pending_requests_sent-Valid w (payload (hash_reject r)) e h = h
pending_requests_sent-Valid w (payload (hashes r hs)) e h = h
