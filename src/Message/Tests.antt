-- ===== src/Message/Tests.antt =====
-- Messages and their frames, written out.
use browsertorrent.Common.{ℕ, ◌≡◌, refl, List, [], ◌∷◌, ok, err, arith}
use browsertorrent.Common.Words.{nat, all_bytes→AllBytes}
use browsertorrent.Message.{
  payload, request, protocol_error, BlockRequest, encode_message, decode_message, encode_payload,
  encode_body, encode_block_request, uint32_body, as_uint32, decode_payload, decode_id, decode_body,
  decode_block_request, decode_uint32, read_uint32, get_uint32, assert_length, known_id,
}
use browsertorrent.Message.RoundTrip.{decode-encode_message}
use browsertorrent.Message.Canonical.{encode-decode_message}

-- The third block of piece 1.
abbrev third_block : BlockRequest
third_block = record { piece_index = nat 1; begin = nat 32768; length = nat 16384 }

abbrev request_payload : List ℕ
request_payload = 6 ∷ 0 ∷ 0 ∷ 0 ∷ 1 ∷ 0 ∷ 0 ∷ 128 ∷ 0 ∷ 0 ∷ 0 ∷ 64 ∷ 0 ∷ []

abbrev request_frame : List ℕ
request_frame = 0 ∷ 0 ∷ 0 ∷ 13 ∷ request_payload

encodes_request : encode_payload (request third_block) ≡ ok request_payload
unfolding encode_payload encode_body encode_block_request uint32_body as_uint32
encodes_request = refl

frames_request : encode_message (payload (request third_block)) ≡ ok request_frame
unfolding encode_message encode_payload encode_body encode_block_request uint32_body as_uint32
frames_request = refl

reads_request : decode_payload request_payload ≡ ok (request third_block)
unfolding decode_payload decode_id decode_body decode_block_request decode_uint32 read_uint32
    assert_length known_id get_uint32
reads_request = refl

reads_request_frame : decode_message request_frame ≡ ok (payload (request third_block))
unfolding decode_message get_uint32 decode_payload decode_id decode_body decode_block_request
    decode_uint32 read_uint32 assert_length known_id
reads_request_frame = refl

refuses_short_have : decode_payload (4 ∷ 0 ∷ 0 ∷ []) ≡ err protocol_error
unfolding decode_payload decode_id decode_body decode_uint32 read_uint32 assert_length known_id
refuses_short_have = refl

decode-encode_message_example : decode_message request_frame ≡ ok (payload (request third_block))
decode-encode_message_example =
    decode-encode_message (payload (request third_block)) tt (omega arith) frames_request

encode-decode_message_example : encode_message (payload (request third_block)) ≡ ok request_frame
encode-decode_message_example =
    encode-decode_message request_frame (payload (request third_block))
      (all_bytes→AllBytes request_frame refl) (λ e. cc e) reads_request_frame
