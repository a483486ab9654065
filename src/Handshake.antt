-- ===== src/Handshake.antt =====
-- packages/core/src/core/handshake.ts: the 68 bytes of the BitTorrent handshake, with the
-- extensions named in its reserved bits. `TextEncoder` and `TextDecoder` are parameters, over
-- texts as lists of code points.
pub mod Extensions
pub mod Laws
pub mod RoundTrip
mod Tests
use browsertorrent.Common.{
  ℕ, ◌-◌, bit_and, bit_or, Bool, true, false, not, Option, none, some, List, [], ◌∷◌, ◌++◌, ◌&&◌,
  ◌==◌, if◌then◌else◌, Result, ok, err, ◌>>=◌, ◌>>◌, guard, length, get_or, set, take, drop,
  replicate, list_eq,
}

pub data Error : Type 0 where
  range_error protocol_error : Error

pub data HandshakeExtension : Type 0 where
  fast extension_protocol dht v2 : HandshakeExtension

-- `BITTORRENT_PROTOCOL`, "BitTorrent protocol": its code points are its bytes.
abbrev pub bittorrent_protocol : List ℕ
bittorrent_protocol =
    66 ∷ 105 ∷ 116 ∷ 84 ∷ 111 ∷ 114 ∷ 114 ∷ 101 ∷ 110 ∷ 116 ∷ 32 ∷ 112 ∷ 114 ∷ 111 ∷ 116 ∷ 111 ∷ 99
    ∷ 111 ∷ 108 ∷ []

abbrev pub handshake_length : ℕ
handshake_length = 68

abbrev pub peer_id_length : ℕ
peer_id_length = 20

pub record PeerHandshake : Type 0 where
  pub info_hash : List ℕ
  pub peer_id : List ℕ
  pub reserved : List ℕ
  pub extensions : List HandshakeExtension

-- `Uint8Array | string`
pub data PeerId : Type 0 where
  bytes : List ℕ → PeerId
  text : List ℕ → PeerId

pub record EncodeHandshakeOptions : Type 0 where
  pub info_hash : List ℕ
  pub peer_id : PeerId
  pub reserved : Option (List ℕ)
  pub extensions : List HandshakeExtension

-- `extensionLocation`: the byte and the mask.
abbrev pub extension_byte : HandshakeExtension → ℕ
extension_byte fast = 7
extension_byte extension_protocol = 5
extension_byte dht = 7
extension_byte v2 = 7

abbrev pub extension_mask : HandshakeExtension → ℕ
extension_mask fast = 4
extension_mask extension_protocol = 16
extension_mask dht = 1
extension_mask v2 = 16

unfoldable pub has_extension : List ℕ → HandshakeExtension → Bool
has_extension reserved e =
    if length reserved == 8
    then not (bit_and (get_or reserved (extension_byte e) 0) (extension_mask e) == 0)
    else false

-- `|= mask`, and `&= ~mask` with `~` on 32 bits.
unfoldable pub set_extension : List ℕ → HandshakeExtension → Bool → Result Error (List ℕ)
set_extension reserved e enabled = do
  guard (length reserved == 8) range_error
  let byte : ℕ = get_or reserved (extension_byte e) 0
  let mask : ℕ = extension_mask e
  ok (
      set reserved (extension_byte e)
        (if enabled then bit_or byte mask else bit_and byte (4294967295 - mask)))

unfoldable pub assert_twenty_bytes : List ℕ → Result Error (Unit {0})
assert_twenty_bytes bs = guard (length bs == peer_id_length) range_error

-- `for (const extension of options.extensions ?? []) setExtension(reserved, extension, true);`
unfoldable pub set_extensions : List ℕ → List HandshakeExtension → Result Error (List ℕ)
set_extensions reserved [] = ok reserved
set_extensions reserved (e ∷ es) = do
  reserved' ← set_extension reserved e true
  set_extensions reserved' es

-- `Object.values(HandshakeExtension)`
abbrev pub all_extensions : List HandshakeExtension
all_extensions = fast ∷ extension_protocol ∷ dht ∷ v2 ∷ []

unfoldable pub enabled_among : List ℕ → List HandshakeExtension → List HandshakeExtension
enabled_among reserved [] = []
enabled_among reserved (e ∷ es) =
    let rest = enabled_among reserved es in if has_extension reserved e then e ∷ rest else rest

abbrev pub reserved_or_zero : Option (List ℕ) → List ℕ
reserved_or_zero none = replicate 8 0
reserved_or_zero (some reserved) = reserved

module _ (encode_text : List ℕ → List ℕ) where
  abbrev pub peer_id_bytes : PeerId → List ℕ
  peer_id_bytes (bytes bs) = bs
  peer_id_bytes (text t) = encode_text t

  unfoldable pub encode_handshake : EncodeHandshakeOptions → Result Error (List ℕ)
  encode_handshake options = do
    assert_twenty_bytes options.info_hash
    let peer_id : List ℕ = peer_id_bytes options.peer_id
    assert_twenty_bytes peer_id
    let reserved : List ℕ = reserved_or_zero options.reserved
    guard (length reserved == 8) range_error
    reserved' ← set_extensions reserved options.extensions
    ok (
        length bittorrent_protocol
        ∷ (bittorrent_protocol ++ (reserved' ++ (options.info_hash ++ peer_id))))

unfoldable pub decode_handshake : (List ℕ → List ℕ) → List ℕ → Result Error PeerHandshake
decode_handshake decode_text frame = do
  guard (length frame == handshake_length) protocol_error
  let protocol_length : ℕ = get_or frame 0 0
  let protocol : List ℕ = decode_text (take protocol_length (drop 1 frame))
  guard ((protocol_length == length bittorrent_protocol) && list_eq protocol bittorrent_protocol)
      protocol_error
  let reserved : List ℕ = take 8 (drop 20 frame)
  ok (record {
    info_hash = take 20 (drop 28 frame);
    peer_id = take 20 (drop 48 frame);
    reserved = reserved;
    extensions = enabled_among reserved all_extensions;
  })
