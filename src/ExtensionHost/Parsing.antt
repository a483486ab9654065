-- ===== src/ExtensionHost/Parsing.antt =====
-- `decodeExtendedHandshake` and its helpers. Of the numbers, the decoder of bencode makes integers
-- only: a fraction is refused.
use browsertorrent.Common.{
  ℕ, ◌*◌, Bool, true, false, Option, none, some, List, [], ◌∷◌, if◌then◌else◌, Result, ok, err,
  ◌>>=◌, ◌>>◌, guard, leb, list_eq,
}
use browsertorrent.Common.Int.{pos}
use browsertorrent.Common.Words.{nat}
use browsertorrent.Bencode.{
  Key, text_key, byte_key, Value, number, text, bytes, map, Entries, end, entry,
}
use browsertorrent.Bencode.Decode.{DecodeError, DecodeOptions}
use browsertorrent.Bencode.Loop.{decode}
use browsertorrent.ExtensionHost.{HostError, protocol_error, put_id, ExtendedHandshake}

abbrev is_text : List ℕ → Key → Bool
is_text t (text_key s) = list_eq s t
is_text t (byte_key bs) = false

-- `map.get(key)`; a key that is a byte array is compared as an object.
unfoldable pub get_entry : List ℕ → Entries → Option Value
get_entry t end = none
get_entry t (entry k v es) = let rest = get_entry t es in if is_text t k then some v else rest

-- The loop over the entries of `m`.
unfoldable pub mapping_id : Value → Result HostError ℕ
mapping_id (number (pos n)) = do guard (leb n 255) protocol_error; ok n
mapping_id _ = err protocol_error

unfoldable pub read_mapping : Entries → List (List ℕ × ℕ) → Result HostError (List (List ℕ × ℕ))
unfolding mapping_id
read_mapping end ids = ok ids
read_mapping (entry (text_key name) v es) ids = do
  id ← mapping_id v
  read_mapping es (put_id name id ids)
read_mapping (entry (byte_key bs) v es) ids = err protocol_error

abbrev pub mapping_of : Option Value → Result HostError (List (List ℕ × ℕ))
mapping_of none = ok []
mapping_of (some (map es)) = read_mapping es []
mapping_of (some _) = err protocol_error

abbrev pub optional_string : Option Value → Result HostError (Option (List ℕ))
optional_string none = ok none
optional_string (some (text t)) = ok (some t)
optional_string (some _) = err protocol_error

abbrev pub optional_integer : ℕ → Option Value → Result HostError (Option ℕ)
optional_integer maximum none = ok none
optional_integer maximum (some (number (pos n))) = do
  guard (leb n maximum) protocol_error
  ok (some n)
optional_integer maximum (some _) = err protocol_error

abbrev pub optional_bytes : (List ℕ → List ℕ) → Option Value → Result HostError (Option (List ℕ))
optional_bytes encode_text none = ok none
optional_bytes encode_text (some (bytes bs)) = ok (some bs)
optional_bytes encode_text (some (text t)) = ok (some (encode_text t))
optional_bytes encode_text (some _) = err protocol_error

-- The names of the fields, in code units: "m", "v", "p", "reqq", "metadata_size", "yourip", "ipv4"
-- and "ipv6".
abbrev pub name_m : List ℕ
name_m = 109 ∷ []

abbrev pub name_v : List ℕ
name_v = 118 ∷ []

abbrev pub name_p : List ℕ
name_p = 112 ∷ []

abbrev pub name_reqq : List ℕ
name_reqq = 114 ∷ 101 ∷ 113 ∷ 113 ∷ []

abbrev pub name_metadata_size : List ℕ
name_metadata_size = 109 ∷ 101 ∷ 116 ∷ 97 ∷ 100 ∷ 97 ∷ 116 ∷ 97 ∷ 95 ∷ 115 ∷ 105 ∷ 122 ∷ 101 ∷ []

abbrev pub name_yourip : List ℕ
name_yourip = 121 ∷ 111 ∷ 117 ∷ 114 ∷ 105 ∷ 112 ∷ []

abbrev pub name_ipv4 : List ℕ
name_ipv4 = 105 ∷ 112 ∷ 118 ∷ 52 ∷ []

abbrev pub name_ipv6 : List ℕ
name_ipv6 = 105 ∷ 112 ∷ 118 ∷ 54 ∷ []

abbrev pub handshake_decode_options : DecodeOptions
handshake_decode_options = record {
  max_bytes = some (nat (256 * 1024));
  max_depth = some (nat 32);
  use_map = true;
  allow_unsorted_keys = false;
}

unfoldable pub read_handshake : (List ℕ → List ℕ) → Entries → Result HostError ExtendedHandshake
unfolding get_entry
read_handshake encode_text es = do
  extensions ← mapping_of (get_entry name_m es)
  client ← optional_string (get_entry name_v es)
  port ← optional_integer 65535 (get_entry name_p es)
  queue ← optional_integer 4294967295 (get_entry name_reqq es)
  size ← optional_integer 4294967295 (get_entry name_metadata_size es)
  your_ip ← optional_bytes encode_text (get_entry name_yourip es)
  ipv4 ← optional_bytes encode_text (get_entry name_ipv4 es)
  ipv6 ← optional_bytes encode_text (get_entry name_ipv6 es)
  ok (record {
    extensions = extensions;
    client = client;
    port = port;
    request_queue = queue;
    metadata_size = size;
    your_ip = your_ip;
    ipv4 = ipv4;
    ipv6 = ipv6;
    raw = es;
  })

abbrev pub handshake_of :
    (List ℕ → List ℕ) → Result DecodeError Value → Result HostError ExtendedHandshake
handshake_of encode_text (err e) = err protocol_error
handshake_of encode_text (ok (map es)) = read_handshake encode_text es
handshake_of encode_text (ok _) = err protocol_error

unfoldable pub decode_extended_handshake :
    (List ℕ → List ℕ) → (List ℕ → List ℕ) → List ℕ → Result HostError ExtendedHandshake
decode_extended_handshake encode_text decode_text payload =
    handshake_of encode_text (decode encode_text decode_text handshake_decode_options payload)
