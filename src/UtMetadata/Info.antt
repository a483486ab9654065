-- ===== src/UtMetadata/Info.antt =====
-- What extensions/ut-metadata.ts takes from utils/bencode.ts about the metadata: the record `Bencode`,
-- filled by the codec of Bencode.
use browsertorrent.Common.{
  ℕ, ◌*◌, ◌≤◌, ◌≡◌, refl, ap, ◌∙◌, Bool, true, false, not, Option, none, some, List, [], ◌∷◌,
  Result, ok, err, length, list_eq, if◌then◌else◌, ◌==◌, arith,
}
use browsertorrent.Common.Int.{pos}
use browsertorrent.Handshake.RoundTrip.{DecodesAscii}
use browsertorrent.Bencode.{
  text_key, byte_key, Value, number, bigint, text, dict, Entries, end, entry,
}
use browsertorrent.Bencode.Encode.{EncodeError, encode}
use browsertorrent.Bencode.Decode.{DecodeError, DecodeOptions}
use browsertorrent.Bencode.Loop.{decode}
use browsertorrent.Bencode.Canonical.{Canonical, depth}
use browsertorrent.Bencode.Total.{decode-encode}
use browsertorrent.UtMetadata.{Bencode}

abbrev default_options : DecodeOptions
default_options = record {
  max_bytes = none;
  max_depth = none;
  use_map = false;
  allow_unsorted_keys = false;
}

-- "info"
abbrev pub info_name : List ℕ
info_name = 105 ∷ 110 ∷ 102 ∷ 111 ∷ []

-- Zero and the empty string are false.
abbrev pub is_true : Value → Bool
is_true (number (pos n)) = not (n == 0)
is_true (bigint (pos n)) = not (n == 0)
is_true (text []) = false
is_true _ = true

abbrev pub find_entry : List ℕ → Entries → Option Value
find_entry name end = none
find_entry name (entry (text_key t) v es) = if list_eq t name then some v else find_entry name es
find_entry name (entry (byte_key bs) v es) = find_entry name es

abbrev pub written : Result EncodeError (List ℕ) → Option (List ℕ)
written (err e) = none
written (ok bs) = some bs

-- `encode(info.info)`, if there is one that is true and that is encoded.
abbrev pub encode_true : (List ℕ → List ℕ) → Option Value → Option (List ℕ)
encode_true encode_text none = none
encode_true encode_text (some v) = if is_true v then written (encode encode_text v) else none

abbrev pub info_of : (List ℕ → List ℕ) → Result DecodeError Value → Option (List ℕ)
info_of encode_text (ok (dict es)) = encode_true encode_text (find_entry info_name es)
info_of encode_text (ok v) = none
info_of encode_text (err e) = none

abbrev pub is_ok : Result DecodeError Value → Bool
is_ok (ok v) = true
is_ok (err e) = false

unfoldable pub codec : (List ℕ → List ℕ) → (List ℕ → List ℕ) → Bencode
codec encode_text decode_text = record {
  decodes = λ bs. is_ok (decode encode_text decode_text default_options bs);
  info_bytes = λ bs. info_of encode_text (decode encode_text decode_text default_options bs);
}

-- The encoding of a canonical torrent file of at most 64 MiB and 1000 containers inside one another
-- is accepted as metadata, and what is kept of it is the encoding of its "info", which is neither
-- zero nor an empty string; of `TextDecoder` it is assumed that it decodes ASCII bytes to themselves.
pub info_bytes-encode :
    (encode_text decode_text : List ℕ → List ℕ)
    → DecodesAscii decode_text
    → (es : Entries) (info : Value) (file info_file : List ℕ)
    → Canonical encode_text decode_text false (dict es)
    → depth (dict es) ≤ 1000
    → encode encode_text (dict es) ≡ ok file
    → length file ≤ 64 * 1024 * 1024
    → find_entry info_name es ≡ some info
    → is_true info ≡ true
    → encode encode_text info ≡ ok info_file
    → ((codec encode_text decode_text).decodes file ≡ true)
      × ((codec encode_text decode_text).info_bytes file ≡ some info_file)
unfolding codec
info_bytes-encode encode_text decode_text ascii es info file info_file c deep e fits found
      true_there e' =
    let read : decode encode_text decode_text default_options file ≡ ok (dict es) =
      decode-encode encode_text decode_text ascii default_options (64 * 1024 * 1024) 1000 (dict es)
        file refl refl (omega arith) (omega arith) c deep e fits in
    let kept : encode_true encode_text (some info) ≡ some info_file = rw (true_there, e') refl in
    (ap is_ok read, ap (info_of encode_text) read ∙ ap (encode_true encode_text) found ∙ kept)
