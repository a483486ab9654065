-- ===== src/Handshake/Tests.antt =====
-- One handshake, written out, with text that is its own bytes.
use browsertorrent.Common.{
  ℕ, ◌≡◌, ◌≢◌, refl, true, some, List, [], ◌∷◌, ◌++◌, ok, length, replicate,
}
use browsertorrent.Common.Words.{all_bytes→AllBytes}
use browsertorrent.Handshake.{
  HandshakeExtension, fast, extension_protocol, dht, PeerHandshake, EncodeHandshakeOptions, bytes,
  bittorrent_protocol, has_extension, set_extension, set_extensions, enabled_among, all_extensions,
  encode_handshake, decode_handshake, assert_twenty_bytes, reserved_or_zero, handshake_length,
}
use browsertorrent.Handshake.Laws.{IsReserved, has_extension-set_extension}
use browsertorrent.Handshake.RoundTrip.{
  DecodesAscii, decode-encode_handshake, encode-decode_handshake,
}

abbrev own_bytes : List ℕ → List ℕ
own_bytes text = text

own_bytes-DecodesAscii : DecodesAscii own_bytes
own_bytes-DecodesAscii = record { forth = λ bs h. refl; back = λ bs t h l e. e }

abbrev reserved : List ℕ
reserved = 0 ∷ 0 ∷ 0 ∷ 0 ∷ 0 ∷ 16 ∷ 0 ∷ 4 ∷ []

abbrev hash : List ℕ
hash = replicate 20 17

abbrev peer : List ℕ
peer = replicate 20 34

abbrev options : EncodeHandshakeOptions
options = record {
  info_hash = hash;
  peer_id = bytes peer;
  reserved = some (0 ∷ 0 ∷ 0 ∷ 0 ∷ 0 ∷ 0 ∷ 0 ∷ 4 ∷ []);
  extensions = extension_protocol ∷ [];
}

abbrev frame : List ℕ
frame = 19 ∷ (bittorrent_protocol ++ (reserved ++ (hash ++ peer)))

abbrev handshake : PeerHandshake
handshake = record {
  info_hash = hash;
  peer_id = peer;
  reserved = reserved;
  extensions = fast ∷ extension_protocol ∷ [];
}

encodes : encode_handshake own_bytes options ≡ ok frame
unfolding encode_handshake assert_twenty_bytes set_extensions set_extension
encodes = refl

decodes : decode_handshake own_bytes frame ≡ ok handshake
unfolding decode_handshake enabled_among has_extension
decodes = refl

reserved-IsReserved : IsReserved reserved
reserved-IsReserved = record { size = refl; bytes = all_bytes→AllBytes reserved refl }

has_extension-set_extension_example :
    (r' : List ℕ) × (set_extension reserved dht true ≡ ok r')
    × IsReserved r'
    × (has_extension r' dht ≡ true)
    × ((e' : HandshakeExtension) → dht ≢ e' → has_extension r' e' ≡ has_extension reserved e')
has_extension-set_extension_example =
    has_extension-set_extension reserved dht true reserved-IsReserved

decode-encode_handshake_example :
    (length frame ≡ handshake_length)
    × (h : PeerHandshake) × (decode_handshake own_bytes frame ≡ ok h)
    × (h.info_hash ≡ hash)
    × (h.peer_id ≡ peer)
    × (set_extensions (reserved_or_zero options.reserved) options.extensions ≡ ok h.reserved)
    × (h.extensions ≡ enabled_among h.reserved all_extensions)
decode-encode_handshake_example =
    decode-encode_handshake own_bytes own_bytes own_bytes-DecodesAscii options frame encodes

encode-decode_handshake_example :
    encode_handshake own_bytes (record {
      info_hash = hash;
      peer_id = bytes peer;
      reserved = some reserved;
      extensions = fast ∷ extension_protocol ∷ [];
    })
    ≡ ok frame
encode-decode_handshake_example =
    encode-decode_handshake own_bytes own_bytes own_bytes-DecodesAscii frame handshake
      (all_bytes→AllBytes frame refl) decodes
