-- ===== src/UtMetadata/Buffer.antt =====
-- The metadata buffer: its size, and what a handshake and `fetch` do to it.
use browsertorrent.Common.{
  ℕ, suc, ◌*◌, ◌≤◌, ◌<◌, ◌≡◌, ap, ◌∙◌, true, false, ◌&&◌, some, arith, replicate,
}
use browsertorrent.Common.Int.{ℤ, pos, negsuc}
use browsertorrent.UtMetadata.{
  UtMetadata, state, request_pieces, has_size, size_or_zero, Field, number, absent, other,
  max_metadata_size, ExtendedHandshake, handshake_id, handshake_size, valid_size,
  on_extended_handshake, fetch, piece_count, empty_bitfield,
}
use browsertorrent.UtMetadata.Frame
use browsertorrent.UtMetadata.Frame.{Frame}

-- What `#requestPieces` leaves behind where it asks for pieces.
pub request_pieces_lem :
    (s : UtMetadata)
    → (s.fetching && has_size s.metadata_size) ≡ true
    → Frame
        (record s { metadata = some (replicate (size_or_zero s.metadata_size) 0) })
        (state (request_pieces s))
unfolding request_pieces
request_pieces_lem s h = rw h (Frame.request_from-Frame s.num_pieces 0 _)

valid_size-eq-some :
    (f : Field) (size : ℕ)
    → valid_size f ≡ some size
    → (0 < size) × (size ≤ max_metadata_size) × (has_size (some size) ≡ true)
unfolding valid_size
valid_size-eq-some (number (pos n)) size h = ground arith
valid_size-eq-some (number (negsuc n)) size h = cc
valid_size-eq-some absent size h = cc
valid_size-eq-some other size h = cc

-- An extended handshake with the peer's ID and a valid size starts a fetch of that size, whatever
-- the state was and whether or not the wire takes the requests: in particular it overwrites complete
-- metadata by zeros, and leaves the metadata marked as complete.
pub on_extended_handshake_overwrites :
    (h : ExtendedHandshake) (s : UtMetadata) (id : ℤ) (size : ℕ)
    → handshake_id h ≡ number id
    → valid_size (handshake_size h) ≡ some size
    → (let s' = state (on_extended_handshake h s) in
        (s'.metadata ≡ some (replicate size 0))
        × (s'.metadata_size ≡ some size)
        × (s'.fetching ≡ true)
        × (s'.metadata_complete ≡ s.metadata_complete)
        × (s'.num_pieces ≡ piece_count size)
        × (s'.extension_id ≡ some id))
unfolding on_extended_handshake
on_extended_handshake_overwrites h s id size e valid =
    let n : ℕ = piece_count size in
    let t : UtMetadata = record s {
      extension_id = some id;
      metadata_size = some size;
      num_pieces = n;
      remaining_rejects = pos (2 * n);
      bitfield = empty_bitfield n;
      fetching = true;
    } in
    let eq : state (on_extended_handshake h s) ≡ state (request_pieces t) = rw (e, valid) in
    let f = request_pieces_lem t (valid_size-eq-some (handshake_size h) size valid).2 in
    (
      ap (λ r. r.metadata) eq ∙ f.metadata,
      ap (λ r. r.metadata_size) eq ∙ f.metadata_size,
      ap (λ r. r.fetching) eq ∙ f.fetching,
      ap (λ r. r.metadata_complete) eq ∙ f.metadata_complete,
      ap (λ r. r.num_pieces) eq ∙ f.num_pieces,
      ap (λ r. r.extension_id) eq ∙ f.extension_id,
    )

-- `fetch`, where the metadata is not complete and its size is known and not 0, fills the buffer with
-- zeros, and keeps the pieces marked as received, whether or not the wire takes the requests.
pub fetch_forgets :
    (s : UtMetadata) (size : ℕ)
    → s.metadata_complete ≡ false
    → s.metadata_size ≡ some (suc size)
    → ((state (fetch s)).metadata ≡ some (replicate (suc size) 0))
      × ((state (fetch s)).bitfield ≡ s.bitfield)
      × ((state (fetch s)).fetching ≡ true)
unfolding fetch
fetch_forgets s size h e =
    let t : UtMetadata = record s { fetching = true } in
    let full : has_size s.metadata_size ≡ true = rw e (ground arith) in
    let eq : state (fetch s) ≡ state (request_pieces t) = rw (h, full) in
    let f = request_pieces_lem t full in
    (
      ap (λ r. r.metadata) eq ∙ f.metadata ∙ ap (λ o. some (replicate (size_or_zero o) 0)) e,
      ap (λ r. r.bitfield) eq ∙ f.bitfield,
      ap (λ r. r.fetching) eq ∙ f.fetching,
    )
