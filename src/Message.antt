-- ===== src/Message.antt =====
-- packages/core/src/core/message.ts: the peer wire message codec, its 20 kinds of message and
-- the error of every refused one. A byte array is a list of natural numbers. The kinds of error
-- are kept, their texts are not.
pub mod Fields
pub mod RoundTrip
pub mod Canonical
pub mod Views
mod Tests
use browsertorrent.Common.{
  ℕ, ◌-◌, ◌%◌, bit_and, Bool, ◌&&◌, not, Option, none, some, List, [], ◌∷◌, ◌++◌, leb, ◌==◌,
  if◌then◌else◌, Result, ok, err, ◌>>=◌, ◌>>◌, guard, length, take, drop, replicate,
}
use browsertorrent.Common.Words.{
  Number, nat, is_uint, to_nat, uint16_bytes, uint32_bytes, word16, word32,
}

pub data Error : Type 0 where
  range_error protocol_error : Error

-- `PeerMessageId`
pub data PeerMessageId : Type 0 where
  choke unchoke interested not_interested have bitfield request piece cancel port : PeerMessageId
  suggest_piece have_all have_none reject_request allowed_fast extended : PeerMessageId
  hash_request hashes hash_reject : PeerMessageId

pub record BlockRequest : Type 0 where
  pub piece_index : Number
  pub begin : Number
  pub length : Number

pub record HashRequestFields : Type 0 where
  pub pieces_root : List ℕ
  pub base_layer : Number
  pub index : Number
  pub length : Number
  pub proof_layers : Number

-- `Exclude<PeerMessage, KeepAliveMessage>`
pub data Payload : Type 0 where
  choke unchoke interested not_interested have_all have_none : Payload
  have suggest_piece allowed_fast port : Number → Payload
  bitfield : List ℕ → Payload
  request cancel reject_request : BlockRequest → Payload
  piece : Number → Number → List ℕ → Payload
  extended unknown : Number → List ℕ → Payload
  hash_request hash_reject : HashRequestFields → Payload
  hashes : HashRequestFields → List ℕ → Payload

pub data PeerMessage : Type 0 where
  keep_alive : PeerMessage
  payload : Payload → PeerMessage

abbrev pub max_uint32 : ℕ
max_uint32 = 4294967295

abbrev pub message_id : PeerMessageId → ℕ
message_id PeerMessageId.choke = 0
message_id PeerMessageId.unchoke = 1
message_id PeerMessageId.interested = 2
message_id PeerMessageId.not_interested = 3
message_id PeerMessageId.have = 4
message_id PeerMessageId.bitfield = 5
message_id PeerMessageId.request = 6
message_id PeerMessageId.piece = 7
message_id PeerMessageId.cancel = 8
message_id PeerMessageId.port = 9
message_id PeerMessageId.suggest_piece = 13
message_id PeerMessageId.have_all = 14
message_id PeerMessageId.have_none = 15
message_id PeerMessageId.reject_request = 16
message_id PeerMessageId.allowed_fast = 17
message_id PeerMessageId.extended = 20
message_id PeerMessageId.hash_request = 21
message_id PeerMessageId.hashes = 22
message_id PeerMessageId.hash_reject = 23

-- `isNetPort` of packages/core/src/utils/net.ts
unfoldable pub is_net_port : Number → Bool
is_net_port v = is_uint 65535 v && leb 1 (to_nat v)

unfoldable pub as_uint32 : Number → Result Error ℕ
as_uint32 v = do guard (is_uint max_uint32 v) range_error; ok (to_nat v)

unfoldable pub uint32_body : Number → Result Error (List ℕ)
uint32_body v = do n ← as_uint32 v; ok (uint32_bytes n)

unfoldable pub encode_block_request : BlockRequest → Result Error (List ℕ)
encode_block_request r = do
  i ← as_uint32 r.piece_index
  b ← as_uint32 r.begin
  n ← as_uint32 r.length
  guard (not (n == 0)) range_error
  ok (uint32_bytes i ++ (uint32_bytes b ++ uint32_bytes n))

-- A power of two from 2 to 512.
pub is_hash_length : ℕ → Bool
is_hash_length n = leb 2 n && (leb n 512 && (bit_and n (n - 1) == 0))

pub validate_hash_request : HashRequestFields → Error → Result Error (Unit {0})
validate_hash_request r e = do
  guard (length r.pieces_root == 32) e
  guard (is_uint max_uint32 r.base_layer) e
  guard (is_uint max_uint32 r.index) e
  guard (is_uint max_uint32 r.length) e
  guard (is_uint max_uint32 r.proof_layers) e
  guard (is_hash_length (to_nat r.length)) e
  guard ((to_nat r.index % to_nat r.length) == 0) e

-- The four `setUint32` calls at 32, 36, 40 and 44.
abbrev pub hash_request_numbers : HashRequestFields → List ℕ
hash_request_numbers r =
    uint32_bytes (to_nat r.base_layer)
    ++ (uint32_bytes (to_nat r.index)
        ++ (uint32_bytes (to_nat r.length) ++ uint32_bytes (to_nat r.proof_layers)))

abbrev pub hash_request_bytes : HashRequestFields → List ℕ
hash_request_bytes r = r.pieces_root ++ hash_request_numbers r

pub encode_hash_request : HashRequestFields → Result Error (List ℕ)
encode_hash_request r = do validate_hash_request r range_error; ok (hash_request_bytes r)

-- The `switch` of `encodeMessagePayload`: the message ID and the body.
unfoldable pub encode_body : Payload → Result Error (ℕ × List ℕ)
encode_body choke = ok (message_id PeerMessageId.choke, [])
encode_body unchoke = ok (message_id PeerMessageId.unchoke, [])
encode_body interested = ok (message_id PeerMessageId.interested, [])
encode_body not_interested = ok (message_id PeerMessageId.not_interested, [])
encode_body (have i) = do body ← uint32_body i; ok (message_id PeerMessageId.have, body)
encode_body (bitfield bits) = ok (message_id PeerMessageId.bitfield, bits)
encode_body (request r) = do
  body ← encode_block_request r
  ok (message_id PeerMessageId.request, body)
encode_body (piece i b block) = do
  i' ← as_uint32 i
  b' ← as_uint32 b
  ok (message_id PeerMessageId.piece, uint32_bytes i' ++ (uint32_bytes b' ++ block))
encode_body (cancel r) = do
  body ← encode_block_request r
  ok (message_id PeerMessageId.cancel, body)
encode_body (port p) = do
  guard (is_net_port p) range_error
  ok (message_id PeerMessageId.port, uint16_bytes (to_nat p))
encode_body (suggest_piece i) = do
  body ← uint32_body i
  ok (message_id PeerMessageId.suggest_piece, body)
encode_body have_all = ok (message_id PeerMessageId.have_all, [])
encode_body have_none = ok (message_id PeerMessageId.have_none, [])
encode_body (reject_request r) = do
  body ← encode_block_request r
  ok (message_id PeerMessageId.reject_request, body)
encode_body (allowed_fast i) = do
  body ← uint32_body i
  ok (message_id PeerMessageId.allowed_fast, body)
encode_body (extended id bytes) = do
  guard (is_uint 255 id) range_error
  ok (message_id PeerMessageId.extended, to_nat id ∷ bytes)
encode_body (hash_request r) = do
  body ← encode_hash_request r
  ok (message_id PeerMessageId.hash_request, body)
encode_body (hashes r hs) = do
  guard (leb 32 (length hs) && ((length hs % 32) == 0)) range_error
  body ← encode_hash_request r
  ok (message_id PeerMessageId.hashes, body ++ hs)
encode_body (hash_reject r) = do
  body ← encode_hash_request r
  ok (message_id PeerMessageId.hash_reject, body)
encode_body (unknown id bytes) = do guard (is_uint 255 id) range_error; ok (to_nat id, bytes)

unfoldable pub encode_payload : Payload → Result Error (List ℕ)
encode_payload p = do (id, body) ← encode_body p; ok (id ∷ body)

-- `encodeMessage`: the length prefix wraps at 32 bits, as `setUint32` does.
unfoldable pub encode_message : PeerMessage → Result Error (List ℕ)
encode_message keep_alive = ok (replicate 4 0)
encode_message (payload p) = do bytes ← encode_payload p; ok (uint32_bytes (length bytes) ++ bytes)

-- `view.getUint32(0)` and `view.getUint16(0)`: a `RangeError` past the end.
unfoldable pub read_uint32 : List ℕ → Result Error ℕ
read_uint32 (a ∷ b ∷ c ∷ d ∷ _) = ok (word32 a b c d)
read_uint32 _ = err range_error

pub read_uint16 : List ℕ → Result Error ℕ
read_uint16 (a ∷ b ∷ _) = ok (word16 a b)
read_uint16 _ = err range_error

unfoldable pub get_uint32 : List ℕ → ℕ → Result Error ℕ
unfolding read_uint32
get_uint32 bytes offset = read_uint32 (drop offset bytes)

unfoldable pub assert_length : List ℕ → ℕ → Result Error (Unit {0})
assert_length body expected = guard (length body == expected) protocol_error

-- The `case` labels of the `switch` over the ID.
unfoldable pub known_id : ℕ → Option PeerMessageId
known_id n =
    if n == message_id PeerMessageId.choke
    then some PeerMessageId.choke
    else if n == message_id PeerMessageId.unchoke
    then some PeerMessageId.unchoke
    else if n == message_id PeerMessageId.interested
    then some PeerMessageId.interested
    else if n == message_id PeerMessageId.not_interested
    then some PeerMessageId.not_interested
    else if n == message_id PeerMessageId.have
    then some PeerMessageId.have
    else if n == message_id PeerMessageId.bitfield
    then some PeerMessageId.bitfield
    else if n == message_id PeerMessageId.request
    then some PeerMessageId.request
    else if n == message_id PeerMessageId.piece
    then some PeerMessageId.piece
    else if n == message_id PeerMessageId.cancel
    then some PeerMessageId.cancel
    else if n == message_id PeerMessageId.port
    then some PeerMessageId.port
    else if n == message_id PeerMessageId.suggest_piece
    then some PeerMessageId.suggest_piece
    else if n == message_id PeerMessageId.have_all
    then some PeerMessageId.have_all
    else if n == message_id PeerMessageId.have_none
    then some PeerMessageId.have_none
    else if n == message_id PeerMessageId.reject_request
    then some PeerMessageId.reject_request
    else if n == message_id PeerMessageId.allowed_fast
    then some PeerMessageId.allowed_fast
    else if n == message_id PeerMessageId.extended
    then some PeerMessageId.extended
    else if n == message_id PeerMessageId.hash_request
    then some PeerMessageId.hash_request
    else if n == message_id PeerMessageId.hashes
    then some PeerMessageId.hashes
    else if n == message_id PeerMessageId.hash_reject
    then some PeerMessageId.hash_reject
    else none

-- `assertLength(…, 4)` and `view.getUint32(0)`.
unfoldable pub decode_uint32 : List ℕ → Result Error ℕ
unfolding get_uint32 assert_length
decode_uint32 body = do assert_length body 4; get_uint32 body 0

unfoldable pub decode_block_request : List ℕ → Result Error BlockRequest
decode_block_request body = do
  assert_length body 12
  n ← get_uint32 body 8
  guard (not (n == 0)) protocol_error
  i ← get_uint32 body 0
  b ← get_uint32 body 4
  ok (record { piece_index = nat i; begin = nat b; length = nat n })

pub decode_hash_request : List ℕ → Result Error HashRequestFields
decode_hash_request body = do
  assert_length body 48
  layer ← get_uint32 body 32
  i ← get_uint32 body 36
  n ← get_uint32 body 40
  proofs ← get_uint32 body 44
  let r : HashRequestFields = record {
    pieces_root = take 32 body;
    base_layer = nat layer;
    index = nat i;
    length = nat n;
    proof_layers = nat proofs;
  }
  validate_hash_request r protocol_error
  ok r

pub decode_extended : List ℕ → Result Error Payload
decode_extended [] = err protocol_error
decode_extended (id ∷ bytes) = ok (extended (nat id) bytes)

-- The body of each `case`.
unfoldable pub decode_body : PeerMessageId → List ℕ → Result Error Payload
unfolding decode_extended
decode_body PeerMessageId.choke body = do assert_length body 0; ok choke
decode_body PeerMessageId.unchoke body = do assert_length body 0; ok unchoke
decode_body PeerMessageId.interested body = do assert_length body 0; ok interested
decode_body PeerMessageId.not_interested body = do assert_length body 0; ok not_interested
decode_body PeerMessageId.have body = do i ← decode_uint32 body; ok (have (nat i))
decode_body PeerMessageId.bitfield body = ok (bitfield body)
decode_body PeerMessageId.request body = do r ← decode_block_request body; ok (request r)
decode_body PeerMessageId.piece body = do
  guard (leb 8 (length body)) protocol_error
  i ← get_uint32 body 0
  b ← get_uint32 body 4
  ok (piece (nat i) (nat b) (drop 8 body))
decode_body PeerMessageId.cancel body = do r ← decode_block_request body; ok (cancel r)
decode_body PeerMessageId.port body = do
  assert_length body 2
  p ← read_uint16 body
  ok (port (nat p))
decode_body PeerMessageId.suggest_piece body = do i ← decode_uint32 body; ok (suggest_piece (nat i))
decode_body PeerMessageId.have_all body = do assert_length body 0; ok have_all
decode_body PeerMessageId.have_none body = do assert_length body 0; ok have_none
decode_body PeerMessageId.reject_request body = do
  r ← decode_block_request body
  ok (reject_request r)
decode_body PeerMessageId.allowed_fast body = do i ← decode_uint32 body; ok (allowed_fast (nat i))
decode_body PeerMessageId.extended body = decode_extended body
decode_body PeerMessageId.hash_request body = do r ← decode_hash_request body; ok (hash_request r)
decode_body PeerMessageId.hashes body = do
  guard (leb 80 (length body) && (((length body - 48) % 32) == 0)) protocol_error
  r ← decode_hash_request (take 48 body)
  ok (hashes r (drop 48 body))
decode_body PeerMessageId.hash_reject body = do r ← decode_hash_request body; ok (hash_reject r)

-- The `default` case keeps the message as it is.
unfoldable pub decode_id : Option PeerMessageId → ℕ → List ℕ → Result Error Payload
decode_id (some k) id body = decode_body k body
decode_id none id body = ok (unknown (nat id) body)

unfoldable pub decode_payload : List ℕ → Result Error Payload
decode_payload [] = err protocol_error
decode_payload (id ∷ body) = decode_id (known_id id) id body

-- `decodeMessage`
pub decode_message : List ℕ → Result Error PeerMessage
decode_message frame = do
  guard (leb 4 (length frame)) protocol_error
  n ← get_uint32 frame 0
  guard (n == length frame - 4) protocol_error
  let rest = do p ← decode_payload (drop 4 frame); ok (payload p)
  if n == 0 then ok keep_alive else rest
