-- ===== src/UtMetadata.antt =====
-- packages/core/src/extensions/ut-metadata.ts: the transfer of a torrent's metadata in pieces of
-- 16 KiB between two peers (BEP 9). The object is a record, a method returns the new record, and
-- what it does outside (messages, timers, events) is listed in `effects`, oldest first. A piece
-- index is a natural number; a message is kept as its fields, not as its bencoded bytes. What
-- `decode` and `encode` of utils/bencode.ts make of the metadata is the record `Bencode`. Whether
-- `wire.sendExtended` returns for a message or throws is a field, as the wire is a field in the code.
pub mod Frame
pub mod Counts
pub mod Retries
pub mod Buffer
pub mod Sized
pub mod Steps
pub mod Codec
pub mod Info
mod Tests
use browsertorrent.Common.{
  ℕ, zero, suc, ◌+◌, ◌-◌, ◌*◌, ◌/◌, Bool, true, false, not, ◌&&◌, ◌||◌, Option, none, some, List,
  [], ◌∷◌, ◌++◌, ltb, leb, ◌==◌, if◌then◌else◌, Result, ok, err, length, take, drop, replicate,
}
use browsertorrent.Common.Int.{ℤ, pos, negsuc, sub_ℕ, is_positive}
use browsertorrent.Bitfield
use browsertorrent.Bitfield.{Bitfield}

-- What the file takes from the bencode codec: whether `decode` accepts the bytes, and the bytes of
-- `encode(info)` if they decode to a dictionary with an `info`.
pub record Bencode : Type 0 where
  pub decodes : List ℕ → Bool
  pub info_bytes : List ℕ → Option (List ℕ)

abbrev pub max_metadata_size : ℕ
max_metadata_size = 10000000

abbrev pub piece_length : ℕ
piece_length = 16384

abbrev pub max_attempts : ℕ
max_attempts = 3

pub record PieceRequest : Type 0 where
  pub piece : ℕ
  pub attempts : ℕ
  pub timer : ℕ

-- The dictionaries of `#request`, `#data` and `#reject`, `msg_type` 0, 1 and 2.
pub data Message : Type 0 where
  request : ℕ → Message
  piece_data : ℕ → Option ℕ → List ℕ → Message
  reject : ℕ → Message

pub data Warning : Type 0 where
  invalid_size unsupported too_many_rejects timeout invalid_metadata : Warning

pub data Effect : Type 0 where
  send : ℤ → Message → Effect
  start_timer : ℕ → ℕ → Effect
  clear_timer : ℕ → Effect
  warning : Warning → Effect
  metadata : List ℕ → Effect
  set_handshake_field : ℕ → Effect

pub record UtMetadata : Type 0 where
  pub fetching : Bool
  pub metadata_complete : Bool
  pub metadata_size : Option ℕ
  pub num_pieces : ℕ
  pub remaining_rejects : ℤ
  pub bitfield : Bitfield
  pub metadata : Option (List ℕ)
  pub requested : List PieceRequest
  pub extension_id : Option ℤ
  pub next_timer : ℕ
  pub wire_accepts : ℤ → Message → Bool
  pub effects : List Effect

-- A method that may throw keeps what it changed before.
pub data Outcome : Type 0 where
  done thrown : UtMetadata → Outcome

abbrev pub and_then : (UtMetadata → Outcome) → Outcome → Outcome
and_then f (done s) = f s
and_then f (thrown s) = thrown s

-- A method that throws leaves the object as it is then.
abbrev pub state : Outcome → UtMetadata
state (done s) = s
state (thrown s) = s

pub emit : Effect → UtMetadata → UtMetadata
emit e s = record s { effects = s.effects ++ (e ∷ []) }

-- `_requestedPieces.get(piece)`, `.delete(piece)` and `.set(piece, …)`
pub find_request : ℕ → List PieceRequest → Option PieceRequest
find_request piece [] = none
find_request piece (r ∷ rs) = if r.piece == piece then some r else find_request piece rs

pub delete_request : ℕ → List PieceRequest → List PieceRequest
delete_request piece [] = []
delete_request piece (r ∷ rs) =
    let rest = delete_request piece rs in if r.piece == piece then rest else r ∷ rest

pub put_request : PieceRequest → List PieceRequest → List PieceRequest
put_request q [] = q ∷ []
put_request q (r ∷ rs) = if r.piece == q.piece then q ∷ rs else r ∷ put_request q rs

-- `clearTimeout` of a request that may be there.
pub clear_request_timer : Option PieceRequest → UtMetadata → UtMetadata
clear_request_timer none s = s
clear_request_timer (some r) s = emit (clear_timer r.timer) s

pub attempts_after : Option PieceRequest → ℕ
attempts_after none = 1
attempts_after (some r) = r.attempts + 1

-- The lines that drop a request with its timer, in `#data`, `#onData` and `#onReject`.
pub drop_request : ℕ → UtMetadata → UtMetadata
unfolding emit clear_request_timer
drop_request piece s =
    let s' : UtMetadata = clear_request_timer (find_request piece s.requested) s in
    record s' { requested = delete_request piece s'.requested }

-- `#send`
pub send_to : Option ℤ → Message → UtMetadata → Outcome
unfolding emit
send_to (some id) m s = if s.wire_accepts id m then done (emit (send id m) s) else thrown s
send_to none m s = done s

pub send_message : Message → UtMetadata → Outcome
unfolding send_to
send_message m s = send_to s.extension_id m s

-- `#request` once the message is sent.
pub note_request : ℕ → Option PieceRequest → UtMetadata → UtMetadata
unfolding emit
note_request piece existing s =
    let timer : ℕ = s.next_timer in
    let s' : UtMetadata = emit (start_timer timer piece) s in
    record s' {
      next_timer = timer + 1;
      requested =
          put_request (record { piece = piece; attempts = attempts_after existing; timer = timer })
            s'.requested;
    }

-- `#request`
pub request_piece : ℕ → UtMetadata → Outcome
unfolding send_message clear_request_timer
request_piece piece s =
    let existing : Option PieceRequest = find_request piece s.requested in
    and_then (λ s'. done (note_request piece existing s'))
      (send_message (request piece) (clear_request_timer existing s))

-- `#data` and `#reject`
pub send_data : ℕ → List ℕ → ℕ → UtMetadata → Outcome
send_data piece buf total s =
    send_message (piece_data piece (some total) buf) (drop_request piece s)

pub send_reject : ℕ → UtMetadata → Outcome
send_reject piece s = send_message (reject piece) s

-- The truthiness of `_metadataSize`: neither `null` nor 0.
abbrev pub has_size : Option ℕ → Bool
has_size none = false
has_size (some n) = ltb 0 n

abbrev pub size_or_zero : Option ℕ → ℕ
size_or_zero none = 0
size_or_zero (some n) = n

abbrev pub bytes_or_empty : Option (List ℕ) → List ℕ
bytes_or_empty none = []
bytes_or_empty (some bytes) = bytes

-- `metadata.slice(start, end)` with the end cut at the size.
pub piece_slice : List ℕ → ℕ → ℕ → List ℕ
piece_slice bytes size piece =
    let start : ℕ = piece * piece_length in
    let end : ℕ = if ltb size (start + piece_length) then size else start + piece_length in
    take (end - start) (drop start bytes)

-- `#onRequest`
pub on_request : ℕ → UtMetadata → Outcome
unfolding send_reject
on_request piece s =
    if not s.metadata_complete || not (has_size s.metadata_size)
    then send_reject piece s
    else let size : ℕ = size_or_zero s.metadata_size in
      send_data piece (piece_slice (bytes_or_empty s.metadata) size piece) size s

-- The loop of `#requestPieces`: the rounds left and the piece.
pub request_from : ℕ → ℕ → UtMetadata → Outcome
request_from zero piece s = done s
request_from (suc n) piece s = and_then (request_from n (piece + 1)) (request_piece piece s)

-- `#requestPieces`
pub request_pieces : UtMetadata → Outcome
request_pieces s =
    if s.fetching && has_size s.metadata_size
    then request_from s.num_pieces 0
        (record s { metadata = some (replicate (size_or_zero s.metadata_size) 0) })
    else done s

abbrev pub empty_bitfield : ℕ → Bitfield
empty_bitfield n = Bitfield.new n (Bitfield.by 1000)

-- `#failedMetadata`
pub failed_metadata : UtMetadata → Outcome
failed_metadata s =
    if has_size s.metadata_size
    then (let s' : UtMetadata = record s {
      bitfield = empty_bitfield s.num_pieces;
      remaining_rejects = sub_ℕ s.remaining_rejects s.num_pieces;
    } in
        if is_positive s'.remaining_rejects
        then request_pieces s'
        else done (emit (warning invalid_metadata) s'))
    else done s

abbrev pub option_or {ℓ} : {A : Type ℓ} → Option A → A → A
option_or none d = d
option_or (some a) d = a

-- The loop of `#checkDone`: whether all pieces from this one on are there.
pub all_pieces : Bitfield → ℕ → ℕ → Bool
all_pieces bf zero piece = true
all_pieces bf (suc n) piece = Bitfield.get bf (pos piece) && all_pieces bf n (piece + 1)

-- A value of the extended handshake: absent, of another type, or an integer.
pub data Field : Type 0 where
  absent other : Field
  number : ℤ → Field

-- `a ?? b`
abbrev pub or_else : Field → Field → Field
or_else absent b = b
or_else other b = other
or_else (number n) b = number n

-- The shapes that `onExtendedHandshake` tells apart: `extensions` a `Map`, with the ID in it,
-- `metadataSize`, and `metadata_size` of `raw`; or `m`, with the ID in it and the two sizes.
pub data ExtendedHandshake : Type 0 where
  extensions_map m_object : Field → Field → Field → ExtendedHandshake
  neither : ExtendedHandshake

abbrev pub handshake_id : ExtendedHandshake → Field
handshake_id (extensions_map id size raw) = id
handshake_id (m_object id size size') = id
handshake_id neither = absent

abbrev pub handshake_size : ExtendedHandshake → Field
handshake_size (extensions_map id size raw) = or_else size raw
handshake_size (m_object id size size') = or_else size size'
handshake_size neither = absent

-- A number of bytes from 1 to 10,000,000.
pub valid_size : Field → Option ℕ
valid_size (number (pos n)) = if leb n max_metadata_size && not (leb n 0) then some n else none
valid_size _ = none

-- `Math.ceil(size / PIECE_LENGTH)`
abbrev pub piece_count : ℕ → ℕ
piece_count n = (n + (piece_length - 1)) / piece_length

pub start_fetch : ℕ → UtMetadata → Outcome
start_fetch size s =
    let n : ℕ = piece_count size in
    request_pieces (record s {
      metadata_size = some size;
      num_pieces = n;
      remaining_rejects = pos (2 * n);
      bitfield = empty_bitfield n;
      fetching = true;
    })

pub on_size : Option ℕ → UtMetadata → Outcome
on_size none s = done (emit (warning invalid_size) s)
on_size (some size) s = start_fetch size s

pub on_id : Field → Field → UtMetadata → Outcome
on_id (number id) size s = on_size (valid_size size) (record s { extension_id = some id })
on_id _ size s = done (emit (warning unsupported) s)

pub on_extended_handshake : ExtendedHandshake → UtMetadata → Outcome
unfolding on_id on_size start_fetch
on_extended_handshake h s = on_id (handshake_id h) (handshake_size h) s

-- `onRegister`: the ID that the host gave the extension.
pub on_register : Option ℤ → UtMetadata → UtMetadata
on_register id s = record s { extension_id = id }

-- `fetch`
pub fetch : UtMetadata → Outcome
fetch s =
    if s.metadata_complete
    then done s
    else let s' : UtMetadata = record s { fetching = true } in
      if has_size s'.metadata_size then request_pieces s' else done s'

-- The loop of `cancel` over the requests.
pub clear_timers : List PieceRequest → UtMetadata → UtMetadata
clear_timers [] s = s
clear_timers (r ∷ rs) s = clear_timers rs (emit (clear_timer r.timer) s)

pub cancel : UtMetadata → UtMetadata
cancel s =
    let s' : UtMetadata = clear_timers s.requested (record s { fetching = false }) in
    record s' { requested = [] }

-- The fields before `setMetadata` of the constructor's options.
pub initial : (ℤ → Message → Bool) → UtMetadata
initial accepts = record {
  fetching = false;
  metadata_complete = false;
  metadata_size = none;
  num_pieces = 0;
  remaining_rejects = pos 0;
  bitfield = empty_bitfield 0;
  metadata = none;
  requested = [];
  extension_id = none;
  next_timer = 0;
  wire_accepts = accepts;
  effects = [];
}

-- `metadata.set(buf, offset)`: a `RangeError` if it does not fit.
pub write_at : List ℕ → ℕ → List ℕ → Option (List ℕ)
write_at bytes offset buf =
    if leb (offset + length buf) (length bytes)
    then some (take offset bytes ++ (buf ++ drop (offset + length buf) bytes))
    else none

-- `#onReject`
pub on_reject : ℕ → UtMetadata → Outcome
on_reject piece s =
    let s' : UtMetadata = drop_request piece s in
    if is_positive s'.remaining_rejects && s'.fetching
    then and_then (λ s''. done (record s'' { remaining_rejects = sub_ℕ s''.remaining_rejects 1 }))
        (request_piece piece s')
    else done (emit (warning too_many_rejects) s')

-- `peer_has`: whether `wire.extensionHost.peerExtensions` has "ut_metadata".
module _ (codec : Bencode) (peer_has : Bool) where
  -- `setMetadata`
  pub set_metadata : List ℕ → UtMetadata → UtMetadata
  set_metadata bytes s =
      if s.metadata_complete
      then s
      else let valid : List ℕ = option_or (codec.info_bytes bytes) bytes in
        let s' : UtMetadata = record s {
          metadata = some valid;
          metadata_size = some (length valid);
          metadata_complete = true;
          fetching = false;
        } in
        emit (metadata valid)
          (if peer_has then emit (set_handshake_field (length valid)) s' else s')

  -- `#checkDone` with `#verifyMetadataIntegrity`
  pub check_complete : Option (List ℕ) → UtMetadata → Outcome
  check_complete none s = done s
  check_complete (some bytes) s =
      if codec.decodes bytes then done (set_metadata bytes s) else failed_metadata s

  pub check_done : UtMetadata → Outcome
  unfolding check_complete
  check_done s =
      if all_pieces s.bitfield s.num_pieces 0 then check_complete s.metadata s else done s

  pub mark_piece : ℕ → UtMetadata → Result Bitfield.BitfieldError Bitfield → Outcome
  mark_piece piece s (err e) = thrown s
  mark_piece piece s (ok bf) = check_done (drop_request piece (record s { bitfield = bf }))

  pub store_piece : ℕ → UtMetadata → Option (List ℕ) → Outcome
  store_piece piece s none = thrown s
  store_piece piece s (some bytes) =
      mark_piece piece (record s { metadata = some bytes }) (Bitfield.set s.bitfield (pos piece))

  -- `#onData`
  pub on_data : ℕ → List ℕ → UtMetadata → Outcome
  unfolding store_piece mark_piece
  on_data piece buf s =
      if ltb piece_length (length buf) || (not s.fetching || not (has_size s.metadata_size))
      then done s
      else if Bitfield.get s.bitfield (pos piece)
      then done s
      else let bytes : List ℕ = option_or s.metadata (replicate (size_or_zero s.metadata_size) 0) in
        store_piece piece (record s { metadata = some bytes })
          (write_at bytes (piece * piece_length) buf)

  -- `onMessage`, after the bencoded prefix is decoded: `msg_type`, `piece` and what follows it.
  pub on_message : ℕ → ℕ → List ℕ → UtMetadata → Outcome
  on_message zero piece trailer s = on_request piece s
  on_message (suc zero) piece trailer s = on_data piece trailer s
  on_message (suc (suc zero)) piece trailer s = on_reject piece s
  on_message _ piece trailer s = done s

  -- `#handleTimeout`
  pub handle_timeout : ℕ → UtMetadata → Outcome
  handle_timeout piece s =
      let s' : UtMetadata = record s { requested = delete_request piece s.requested } in
      if not s'.fetching
      then done s'
      else if ltb (attempts_after (find_request piece s'.requested)) max_attempts
      then request_piece piece s'
      else check_done (emit (warning timeout) s')
