-- ===== src/Wire/Pair.antt =====
-- The two ends of a connection: what the one says of itself is what the other has of its peer.
use browsertorrent.Common.{
  ℕ, ◌≤◌, ◌<◌, ◌≡◌, refl, sym, ap, ◌∙◌, Bool, true, false, not, ◌&&◌, Option, none, some, ok, guard,
  guard-eq-ok, >>=-eq-ok, length, leb, arith,
}
use browsertorrent.Common.Words.{Number, is_uint, to_nat}
use browsertorrent.Message.{
  BlockRequest, Payload, choke, unchoke, interested, not_interested, have_all, have_none, have,
  suggest_piece, allowed_fast, port, bitfield, request, cancel, reject_request, piece, extended,
  unknown, hash_request, hash_reject, hashes, payload, max_uint32,
}
use browsertorrent.Handshake.{HandshakeExtension, PeerHandshake, fast}
use browsertorrent.Wire.{WireError, range_error, protocol_error, WireConfig, Wire}
use browsertorrent.Wire.Checks.{
  has, remote_has, negotiated, required, fast_negotiated, in_order, piece_index_valid, below_count,
  validate_piece_index, length_within, block_within, block_of, validate_block,
  validate_message_bounds, validate_incoming, is_request, assert_extension_negotiated,
  validate_availability_order,
}
use browsertorrent.Wire.Transitions.{add_number, apply_local_state, apply_remote_state}
use browsertorrent.Wire.Receive.{check_received}

-- The read-only fields: one torrent, the same limit of a block, room for the other's messages, and
-- the same extensions announced by both.
pub record Matching (c : WireConfig) (h : Option PeerHandshake) (c' : WireConfig)
    (h' : Option PeerHandshake) : Type 0 where
  pub same_count : c.piece_count ≡ c'.piece_count
  pub same_length : c.piece_length ≡ c'.piece_length
  pub same_total : c.total_length ≡ c'.total_length
  pub same_block : c.max_block_length ≡ c'.max_block_length
  pub accepts : c.max_message_length ≤ c'.max_message_length
  pub same_extensions :
      (e : HandshakeExtension)
      → (has c.local_extensions e && remote_has h e)
        ≡ (has c'.local_extensions e && remote_has h' e)

-- The sender's flags and the receiver's picture of them.
abbrev pub Mirrored : Wire → Wire → Type 0
Mirrored a b =
    (a.am_choking ≡ b.peer_choking)
    × (a.am_interested ≡ b.peer_interested)
    × (a.local_allowed_fast ≡ b.remote_allowed_fast)

pub record Paired (a b : Wire) : Type 0 where
  pub matching : Matching a.config a.remote_handshake b.config b.remote_handshake
  pub same_order : a.local_availability ≡ b.remote_availability
  pub mirrored : Mirrored a b

-- A message changes both pictures alike.
pub applied-Mirrored :
    (a b : Wire) (p : Payload)
    → Mirrored a b
    → Mirrored (apply_local_state a (payload p)) (apply_remote_state b (payload p))
unfolding apply_local_state apply_remote_state add_number
applied-Mirrored a b choke h = (refl, h.1, h.2)
applied-Mirrored a b unchoke h = (refl, h.1, h.2)
applied-Mirrored a b interested h = (h.0, refl, h.2)
applied-Mirrored a b not_interested h = (h.0, refl, h.2)
applied-Mirrored a b (allowed_fast i) h = (h.0, h.1, ap (add_number i) h.2)
applied-Mirrored a b have_all h = h
applied-Mirrored a b have_none h = h
applied-Mirrored a b (have i) h = h
applied-Mirrored a b (suggest_piece i) h = h
applied-Mirrored a b (port p) h = h
applied-Mirrored a b (bitfield bits) h = h
applied-Mirrored a b (request r) h = h
applied-Mirrored a b (cancel r) h = h
applied-Mirrored a b (reject_request r) h = h
applied-Mirrored a b (piece i o bs) h = h
applied-Mirrored a b (extended id bytes) h = h
applied-Mirrored a b (unknown id bytes) h = h
applied-Mirrored a b (hash_request r) h = h
applied-Mirrored a b (hash_reject r) h = h
applied-Mirrored a b (hashes r hs) h = h

-- The bounds of a block are the same on both sides; only the class of the error differs.
piece_index_matching :
    (c c' : WireConfig) (i : Number)
    → c.piece_count ≡ c'.piece_count
    → validate_piece_index c false i ≡ ok tt
    → validate_piece_index c' true i ≡ ok tt
unfolding validate_piece_index
piece_index_matching c c' i e h =
    let valid = guard-eq-ok (piece_index_valid c i) range_error h in
    let valid' : piece_index_valid c' i ≡ true =
      sym (ap (λ n. is_uint max_uint32 i && below_count n (to_nat i)) e) ∙ valid in
    rw valid' refl

validate_block-Matching :
    (c c' : WireConfig) (r : BlockRequest) (h h' : Option PeerHandshake)
    → Matching c h c' h'
    → validate_block c false r ≡ ok tt
    → validate_block c' true r ≡ ok tt
unfolding validate_block
validate_block-Matching c c' r h h' m e =
    let (u1, t1, e1) = >>=-eq-ok (validate_piece_index c false r.piece_index) _ e in
    let (u2, t2, e2) =
      >>=-eq-ok (guard (length_within c.max_block_length r.length) range_error) _ e1 in
    let (u3, t3, e3) = >>=-eq-ok (guard (is_uint max_uint32 r.begin) range_error) _ e2 in
    let long =
      guard-eq-ok (block_within c.piece_length c.total_length c.piece_count r) range_error e3 in
    rw
      (
        piece_index_matching c c' r.piece_index m.same_count t1,
        sym (ap (λ n. length_within n r.length) m.same_block)
            ∙ guard-eq-ok (length_within c.max_block_length r.length) range_error t2,
        guard-eq-ok (is_uint max_uint32 r.begin) range_error t3,
        sym (
              ap (λ x. block_within x c.total_length c.piece_count r) m.same_length
              ∙ ap (λ x. block_within c'.piece_length x c.piece_count r) m.same_total
              ∙ ap (λ x. block_within c'.piece_length c'.total_length x r) m.same_count)
            ∙ long,
      )
      refl

bounds-Matching :
    (c c' : WireConfig) (h h' : Option PeerHandshake) (p : Payload)
    → Matching c h c' h'
    → validate_message_bounds c false (payload p) ≡ ok tt
    → validate_message_bounds c' true (payload p) ≡ ok tt
unfolding validate_message_bounds
bounds-Matching c c' h h' (have i) m e = piece_index_matching c c' i m.same_count e
bounds-Matching c c' h h' (suggest_piece i) m e = piece_index_matching c c' i m.same_count e
bounds-Matching c c' h h' (allowed_fast i) m e = piece_index_matching c c' i m.same_count e
bounds-Matching c c' h h' (request r) m e = validate_block-Matching c c' r h h' m e
bounds-Matching c c' h h' (cancel r) m e = validate_block-Matching c c' r h h' m e
bounds-Matching c c' h h' (reject_request r) m e = validate_block-Matching c c' r h h' m e
bounds-Matching c c' h h' (piece i o bs) m e =
    validate_block-Matching c c' (block_of i o bs) h h' m e
bounds-Matching c c' h h' choke m e = refl
bounds-Matching c c' h h' unchoke m e = refl
bounds-Matching c c' h h' interested m e = refl
bounds-Matching c c' h h' not_interested m e = refl
bounds-Matching c c' h h' have_all m e = refl
bounds-Matching c c' h h' have_none m e = refl
bounds-Matching c c' h h' (port p) m e = refl
bounds-Matching c c' h h' (bitfield bits) m e = refl
bounds-Matching c c' h h' (extended id bytes) m e = refl
bounds-Matching c c' h h' (unknown id bytes) m e = refl
bounds-Matching c c' h h' (hash_request r) m e = refl
bounds-Matching c c' h h' (hash_reject r) m e = refl
bounds-Matching c c' h h' (hashes r hs) m e = refl

negotiated-Matching :
    (a b : Wire) (o : Option HandshakeExtension)
    → Matching a.config a.remote_handshake b.config b.remote_handshake
    → negotiated a o ≡ negotiated b o
negotiated-Matching a b none m = refl
negotiated-Matching a b (some e) m = m.same_extensions e

has_room :
    (q : Bool) (n limit : ℕ)
    → (q ≡ true → n < limit)
    → guard {E = WireError} (not (q && leb limit n)) protocol_error ≡ ok tt
has_room true n limit h =
    let below : n < limit = h refl in let free : leb limit n ≡ false = ground arith in rw free refl
has_room false n limit h = refl

-- What the sender's checks pass, the receiver's checks pass, if it has room for a request.
pub checks_matching :
    (a b : Wire) (p : Payload)
    → Paired a b
    → (is_request (payload p) ≡ true → length b.peer_requests < b.config.max_pending_requests)
    → assert_extension_negotiated a (payload p) ≡ ok tt
    → validate_availability_order (fast_negotiated a) a.local_availability (payload p) ≡ ok tt
    → validate_message_bounds a.config false (payload p) ≡ ok tt
    → check_received b (payload p) ≡ ok tt
unfolding check_received assert_extension_negotiated validate_availability_order validate_incoming
checks_matching a b p pair room e1 e2 e3 =
    let m = pair.matching in
    let known = guard-eq-ok (negotiated a (required (payload p))) protocol_error e1 in
    let ordered =
      guard-eq-ok (in_order (fast_negotiated a) a.local_availability (payload p)) protocol_error
        e2 in
    rw
      (
        sym (negotiated-Matching a b (required (payload p)) m) ∙ known,
        sym (
              ap (λ x. in_order x a.local_availability (payload p)) (m.same_extensions fast)
              ∙ ap (λ x. in_order (fast_negotiated b) x (payload p)) pair.same_order)
            ∙ ordered,
        bounds-Matching a.config b.config a.remote_handshake b.remote_handshake p m e3,
      )
      (has_room (is_request (payload p)) (length b.peer_requests) b.config.max_pending_requests
        room)
