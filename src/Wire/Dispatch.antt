-- ===== src/Wire/Dispatch.antt =====
-- `_dispatchMessage`: the event of each message, and the messages that the extension host handles.
use browsertorrent.Common.{ℕ, ◌*◌, Bool, false, some, List, Result, ok, err, if◌then◌else◌, ◌==◌}
use browsertorrent.Common.Words.{Number, nat}
use browsertorrent.Message.{
  Payload, choke, unchoke, interested, not_interested, have_all, have_none, have, suggest_piece,
  allowed_fast, port, bitfield, request, cancel, reject_request, piece, extended, unknown,
  hash_request, hash_reject, hashes,
}
use browsertorrent.Bencode.{Value}
use browsertorrent.Bencode.Decode.{DecodeError, DecodeOptions}
use browsertorrent.Bencode.Loop.{decode}
use browsertorrent.Wire.{Event, emit, handle_extended, Wire, log, Environment}

abbrev pub extended_options : DecodeOptions
extended_options = record {
  max_bytes = some (nat (256 * 1024));
  max_depth = some (nat 32);
  use_map = false;
  allow_unsorted_keys = false;
}

-- The `try` around the decoder: a handshake that does not parse makes no event.
abbrev pub emit_handshake : Wire → Result DecodeError Value → Wire
emit_handshake w (err e) = w
emit_handshake w (ok v) = log (emit (Event.extended_handshake v)) w

-- Zero is the ID of the extended handshake.
abbrev pub is_zero : Number → Bool
is_zero (nat n) = n == 0
is_zero _ = false

module _ (env : Environment) where
  unfoldable pub dispatch_extended : Number → List ℕ → Wire → Wire
  dispatch_extended id bytes w =
      if is_zero id
      then emit_handshake w (decode env.encode_text env.decode_text extended_options bytes)
      else log (emit (Event.extended id bytes)) w

  unfoldable pub dispatch : Payload → Wire → Wire
  unfolding dispatch_extended
  dispatch choke w = log (emit Event.choke) w
  dispatch unchoke w = log (emit Event.unchoke) w
  dispatch interested w = log (emit Event.interested) w
  dispatch not_interested w = log (emit Event.not_interested) w
  dispatch (have i) w = log (emit (Event.have i)) w
  dispatch (bitfield bits) w = log (emit (Event.bitfield bits)) w
  dispatch (request r) w = log (emit (Event.request r)) w
  dispatch (piece i b block) w = log (emit (Event.piece i b block)) w
  dispatch (cancel r) w = log (emit (Event.cancel r)) w
  dispatch (port p) w = log (emit (Event.port p)) w
  dispatch (suggest_piece i) w = log (emit (Event.suggest_piece i)) w
  dispatch have_all w = log (emit Event.have_all) w
  dispatch have_none w = log (emit Event.have_none) w
  dispatch (reject_request r) w = log (emit (Event.reject_request r)) w
  dispatch (allowed_fast i) w = log (emit (Event.allowed_fast i)) w
  dispatch (extended id bytes) w = log (handle_extended id bytes) (dispatch_extended id bytes w)
  dispatch (unknown id bytes) w = log (emit (Event.unknown id bytes)) w
  dispatch (hash_request r) w = log (emit (Event.hash_request r)) w
  dispatch (hashes r hs) w = log (emit (Event.hashes r hs)) w
  dispatch (hash_reject r) w = log (emit (Event.hash_reject r)) w
