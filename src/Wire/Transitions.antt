-- ===== src/Wire/Transitions.antt =====
-- `_applyLocalState` and `_applyRemoteState`. A `Map` keyed by `blockKey` is the list of its
-- values: the key is made of all three coordinates.
use browsertorrent.Common.{Bool, true, false, ◌&&◌, ◌||◌, List, [], ◌∷◌, ◌++◌, if◌then◌else◌, ◌==◌}
use browsertorrent.Common.Words.{Number, nat, negative, fraction, not_a_number}
use browsertorrent.Message.{
  BlockRequest, choke, unchoke, interested, not_interested, allowed_fast, request, cancel,
  reject_request, piece, PeerMessage, payload,
}
use browsertorrent.Wire.{Wire}
use browsertorrent.Wire.Checks.{block_of, reject_semantics_negotiated}

abbrev pub same_number : Number → Number → Bool
same_number (nat a) (nat b) = a == b
same_number (negative a) (negative b) = a == b
same_number (fraction n mark) (fraction m mark') = (n == m) && (mark == mark')
same_number not_a_number not_a_number = true
same_number _ _ = false

-- `blockKey(a) === blockKey(b)`
abbrev pub same_block : BlockRequest → BlockRequest → Bool
same_block a b =
    same_number a.piece_index b.piece_index
    && (same_number a.begin b.begin && same_number a.length b.length)

-- `set` and `delete` of the maps of blocks, and `add` of a set of numbers.
unfoldable pub set_block : BlockRequest → List BlockRequest → List BlockRequest
set_block r [] = r ∷ []
set_block r (b ∷ bs) = let rest = set_block r bs in if same_block b r then r ∷ bs else b ∷ rest

unfoldable pub delete_block : BlockRequest → List BlockRequest → List BlockRequest
delete_block r [] = []
delete_block r (b ∷ bs) = let rest = delete_block r bs in if same_block b r then bs else b ∷ rest

abbrev pub member : Number → List Number → Bool
member n [] = false
member n (k ∷ ks) = same_number k n || member n ks

unfoldable pub add_number : Number → List Number → List Number
add_number n ks = if member n ks then ks else ks ++ (n ∷ [])

unfoldable pub apply_local_state : Wire → PeerMessage → Wire
unfolding set_block delete_block add_number
apply_local_state w (payload choke) = record w { am_choking = true }
apply_local_state w (payload unchoke) = record w { am_choking = false }
apply_local_state w (payload interested) = record w { am_interested = true }
apply_local_state w (payload not_interested) = record w { am_interested = false }
apply_local_state w (payload (allowed_fast i)) = record w {
  local_allowed_fast = add_number i w.local_allowed_fast;
}
apply_local_state w (payload (piece i b block)) = record w {
  peer_requests = delete_block (block_of i b block) w.peer_requests;
}
apply_local_state w (payload (reject_request r)) = record w {
  peer_requests = delete_block r w.peer_requests;
}
apply_local_state w (payload (request r)) = record w {
  pending_requests = set_block r w.pending_requests;
}
apply_local_state w (payload (cancel r)) = record w {
  peer_requests = delete_block r w.peer_requests;
}
apply_local_state w _ = w

unfoldable pub apply_remote_state : Wire → PeerMessage → Wire
unfolding set_block delete_block add_number
apply_remote_state w (payload choke) = record w {
  peer_choking = true;
  pending_requests = if reject_semantics_negotiated w then w.pending_requests else [];
}
apply_remote_state w (payload unchoke) = record w { peer_choking = false }
apply_remote_state w (payload interested) = record w { peer_interested = true }
apply_remote_state w (payload not_interested) = record w { peer_interested = false }
apply_remote_state w (payload (allowed_fast i)) = record w {
  remote_allowed_fast = add_number i w.remote_allowed_fast;
}
apply_remote_state w (payload (request r)) = record w {
  peer_requests = set_block r w.peer_requests;
}
apply_remote_state w (payload (cancel r)) = record w {
  peer_requests = delete_block r w.peer_requests;
}
apply_remote_state w (payload (piece i b block)) = record w {
  pending_requests = delete_block (block_of i b block) w.pending_requests;
}
apply_remote_state w (payload (reject_request r)) = record w {
  pending_requests = delete_block r w.pending_requests;
}
apply_remote_state w _ = w
