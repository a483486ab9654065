-- ===== src/Wire/Checks.antt =====
-- The checks of a message before it is sent or applied: negotiation, order and bounds.
use browsertorrent.Common.{
  ℕ, suc, ◌+◌, ◌-◌, ◌*◌, Bool, true, false, not, ◌&&◌, ◌||◌, Option, none, some, List, [], ◌∷◌,
  Result, ok, ◌>>◌, guard, if◌then◌else◌, length, leb, ltb, ◌==◌,
}
use browsertorrent.Common.Words.{Number, nat, negative, fraction, not_a_number, is_uint, to_nat}
use browsertorrent.Message.{
  BlockRequest, choke, unchoke, interested, not_interested, have_all, have_none, have,
  suggest_piece, allowed_fast, port, bitfield, request, cancel, reject_request, piece, extended,
  hash_request, hash_reject, hashes, PeerMessage, keep_alive, payload, max_uint32,
}
use browsertorrent.Handshake.{HandshakeExtension, fast, extension_protocol, dht, v2, PeerHandshake}
use browsertorrent.Wire.{WireError, protocol_error, range_error, WireConfig, Availability, Wire}

abbrev pub same_extension : HandshakeExtension → HandshakeExtension → Bool
same_extension fast fast = true
same_extension extension_protocol extension_protocol = true
same_extension dht dht = true
same_extension v2 v2 = true
same_extension _ _ = false

abbrev pub has : List HandshakeExtension → HandshakeExtension → Bool
has [] e = false
has (x ∷ xs) e = same_extension x e || has xs e

abbrev pub remote_has : Option PeerHandshake → HandshakeExtension → Bool
remote_has none e = false
remote_has (some h) e = has h.extensions e

abbrev pub has_negotiated : Wire → HandshakeExtension → Bool
has_negotiated w e = has w.config.local_extensions e && remote_has w.remote_handshake e

abbrev pub fast_negotiated : Wire → Bool
fast_negotiated w = has_negotiated w fast

abbrev pub reject_semantics_negotiated : Wire → Bool
reject_semantics_negotiated w = fast_negotiated w || has_negotiated w v2

-- The `switch` of `_assertExtensionNegotiated`.
abbrev pub required : PeerMessage → Option HandshakeExtension
required (payload (suggest_piece i)) = some fast
required (payload have_all) = some fast
required (payload have_none) = some fast
required (payload (reject_request r)) = some fast
required (payload (allowed_fast i)) = some fast
required (payload (extended id bytes)) = some extension_protocol
required (payload (port p)) = some dht
required (payload (hash_request r)) = some v2
required (payload (hashes r hs)) = some v2
required (payload (hash_reject r)) = some v2
required _ = none

abbrev pub negotiated : Wire → Option HandshakeExtension → Bool
negotiated w none = true
negotiated w (some e) = has_negotiated w e

unfoldable pub assert_extension_negotiated : Wire → PeerMessage → Result WireError (Unit {0})
assert_extension_negotiated w m = guard (negotiated w (required m)) protocol_error

-- The messages that stand outside the order of availability.
abbrev pub is_exempt : PeerMessage → Bool
is_exempt keep_alive = true
is_exempt (payload (extended id bytes)) = true
is_exempt (payload choke) = true
is_exempt (payload unchoke) = true
is_exempt (payload interested) = true
is_exempt (payload not_interested) = true
is_exempt _ = false

abbrev pub is_declaration : PeerMessage → Bool
is_declaration (payload (bitfield bits)) = true
is_declaration (payload have_all) = true
is_declaration (payload have_none) = true
is_declaration _ = false

-- The test of `_validateAvailabilityOrder`, with `fast_on` for what `_fastNegotiated` returns.
abbrev pub in_order : Bool → Availability → PeerMessage → Bool
in_order fast_on a m =
    is_exempt m
    || (if fast_on && is_declaration m
        then not (not a.is_open || a.declared)
        else not (fast_on && (a.is_open && not a.declared)))

unfoldable pub validate_availability_order :
    Bool → Availability → PeerMessage → Result WireError (Unit {0})
validate_availability_order fast_on a m = guard (in_order fast_on a m) protocol_error

unfoldable pub commit_availability_order : Availability → PeerMessage → Availability
commit_availability_order a m =
    if is_exempt m then a else record { is_open = false; declared = a.declared || is_declaration m }

-- `ErrorType`
abbrev pub error_type : Bool → WireError
error_type true = protocol_error
error_type false = range_error

abbrev pub below_count : Option ℕ → ℕ → Bool
below_count none i = true
below_count (some n) i = ltb i n

abbrev pub piece_index_valid : WireConfig → Number → Bool
piece_index_valid c i = is_uint max_uint32 i && below_count c.piece_count (to_nat i)

unfoldable pub validate_piece_index : WireConfig → Bool → Number → Result WireError (Unit {0})
validate_piece_index c incoming i = guard (piece_index_valid c i) (error_type incoming)

-- `length < 1 || length > limit` as it answers; `NaN` is neither.
abbrev pub length_within : ℕ → Number → Bool
length_within limit (nat n) = leb 1 n && leb n limit
length_within limit (negative n) = false
length_within limit (fraction n mark) = leb 1 n && ltb n limit
length_within limit not_a_number = true

-- The size of the piece, that of the last one by the total. Where the total is too small the
-- source's difference is negative; 0 refuses the same blocks, as each holds a byte.
abbrev pub last_length : ℕ → Option ℕ → Option ℕ → ℕ → ℕ
last_length piece_length (some total) (some count) i =
    if suc i == count then total - i * piece_length else piece_length
last_length piece_length _ _ i = piece_length

abbrev pub ends_within : ℕ → ℕ → Number → Bool
ends_within size begin (nat n) = leb (begin + n) size
ends_within size begin (fraction n mark) = ltb (begin + n) size
ends_within size begin _ = true

-- With the length of a piece, the total and the number of pieces, as far as they are given.
abbrev pub block_within : Option ℕ → Option ℕ → Option ℕ → BlockRequest → Bool
block_within none total count r = true
block_within (some piece_length) total count r =
    ends_within (last_length piece_length total count (to_nat r.piece_index)) (to_nat r.begin)
      r.length

unfoldable pub validate_block : WireConfig → Bool → BlockRequest → Result WireError (Unit {0})
unfolding validate_piece_index
validate_block c incoming r = do
  validate_piece_index c incoming r.piece_index
  guard (length_within c.max_block_length r.length) (error_type incoming)
  guard (is_uint max_uint32 r.begin) (error_type incoming)
  guard (block_within c.piece_length c.total_length c.piece_count r) (error_type incoming)

-- The block that a piece carries, as coordinates.
abbrev pub block_of : Number → Number → List ℕ → BlockRequest
block_of i b block = record { piece_index = i; begin = b; length = nat (length block) }

unfoldable pub validate_message_bounds :
    WireConfig → Bool → PeerMessage → Result WireError (Unit {0})
unfolding validate_piece_index validate_block
validate_message_bounds c incoming (payload (have i)) = validate_piece_index c incoming i
validate_message_bounds c incoming (payload (suggest_piece i)) = validate_piece_index c incoming i
validate_message_bounds c incoming (payload (allowed_fast i)) = validate_piece_index c incoming i
validate_message_bounds c incoming (payload (request r)) = validate_block c incoming r
validate_message_bounds c incoming (payload (cancel r)) = validate_block c incoming r
validate_message_bounds c incoming (payload (reject_request r)) = validate_block c incoming r
validate_message_bounds c incoming (payload (piece i b block)) =
    validate_block c incoming (block_of i b block)
validate_message_bounds c incoming _ = ok tt

abbrev pub is_request : PeerMessage → Bool
is_request (payload (request r)) = true
is_request _ = false

unfoldable pub validate_incoming : Wire → PeerMessage → Result WireError (Unit {0})
unfolding validate_message_bounds
validate_incoming w m = do
  validate_message_bounds w.config true m
  guard (not (is_request m && leb w.config.max_pending_requests (length w.peer_requests)))
      protocol_error
