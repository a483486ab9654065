-- ===== src/UtMetadata/Codec.antt =====
-- The bencoded form of the messages of extensions/ut-metadata.ts: what `#send` writes, and the
-- message type, the piece and the trailer that `onMessage` reads.
use browsertorrent.Common.{
  ℕ, ◌*◌, ◌≤◌, ◌≡◌, refl, sym, ap, ◌∙◌, true, false, Option, none, some, List, [], ◌∷◌, ◌++◌,
  if◌then◌else◌, Result, ok, err, ◌>>=◌, length, le→leb, list_eq, arith,
}
use mathlib.Core.Path.{subst}
use browsertorrent.Common.Int.{pos}
use browsertorrent.Common.Words.{AllBytes}
use browsertorrent.Handshake.RoundTrip.{AllAscii, DecodesAscii}
use browsertorrent.Bencode.{text_key, byte_key, Value, number, dict, Entries, end, entry, max_safe}
use browsertorrent.Bencode.Encode.{EncodeError, encode}
use browsertorrent.Bencode.Decode.{DecodeError, DecodeOptions, looks_binary, proto_name}
use browsertorrent.Bencode.Loop.{decode_prefix}
use browsertorrent.Bencode.Canonical.{IsKey, Canonical, CanonicalEntries, depth}
use browsertorrent.Bencode.Order.{Follows}
use browsertorrent.Bencode.Total.{decode_one-encode, decode_prefix-decoded}
use browsertorrent.UtMetadata.{Message, request, piece_data, reject}

-- "msg_type", "piece" and "total_size"
abbrev pub msg_type_name : List ℕ
msg_type_name = 109 ∷ 115 ∷ 103 ∷ 95 ∷ 116 ∷ 121 ∷ 112 ∷ 101 ∷ []

abbrev pub piece_name : List ℕ
piece_name = 112 ∷ 105 ∷ 101 ∷ 99 ∷ 101 ∷ []

abbrev pub total_size_name : List ℕ
total_size_name = 116 ∷ 111 ∷ 116 ∷ 97 ∷ 108 ∷ 95 ∷ 115 ∷ 105 ∷ 122 ∷ 101 ∷ []

abbrev size_entry : Option ℕ → Entries
size_entry none = end
size_entry (some n) = entry (text_key total_size_name) (number (pos n)) end

abbrev message_entries : ℕ → ℕ → Entries → Value
message_entries type piece es = dict (
    entry (text_key msg_type_name) (number (pos type))
      (entry (text_key piece_name) (number (pos piece)) es))

-- The dictionary that `#request`, `#data` and `#reject` send, and the bytes behind it.
abbrev pub message_value : Message → Value
message_value (request piece) = message_entries 0 piece end
message_value (piece_data piece total bytes) = message_entries 1 piece (size_entry total)
message_value (reject piece) = message_entries 2 piece end

abbrev pub message_trailer : Message → List ℕ
message_trailer (request piece) = []
message_trailer (piece_data piece total bytes) = bytes
message_trailer (reject piece) = []

-- The buffer that `#send` hands to the wire.
unfoldable pub message_buffer : (List ℕ → List ℕ) → Message → Result EncodeError (List ℕ)
message_buffer encode_text m = do
  out ← encode encode_text (message_value m)
  ok (out ++ message_trailer m)

-- A property of a decoded dictionary that is a natural number.
abbrev pub number_entry : List ℕ → Entries → Option ℕ
number_entry name end = none
number_entry name (entry (text_key t) (number (pos n)) es) =
    if list_eq t name then some n else number_entry name es
number_entry name (entry (text_key t) v es) = if list_eq t name then none else number_entry name es
number_entry name (entry (byte_key bs) v es) = number_entry name es

abbrev pub number_property : List ℕ → Value → Option ℕ
number_property name (dict es) = number_entry name es
number_property name v = none

abbrev both : Option ℕ → Option ℕ → List ℕ → Option (ℕ × ℕ × List ℕ)
both none p trailer = none
both (some t) none trailer = none
both (some t) (some p) trailer = some (t, p, trailer)

abbrev pub read_decoded : Result DecodeError (Value × List ℕ) → Option (ℕ × ℕ × List ℕ)
read_decoded (err e) = none
read_decoded (ok (v, trailer)) =
    both (number_property msg_type_name v) (number_property piece_name v) trailer

abbrev pub message_options : DecodeOptions
message_options = record {
  max_bytes = none;
  max_depth = none;
  use_map = false;
  allow_unsorted_keys = true;
}

-- What `onMessage` reads of a buffer: the type, the piece and the trailer, if type and piece are
-- natural numbers.
unfoldable pub read_message :
    (List ℕ → List ℕ) → (List ℕ → List ℕ) → List ℕ → Option (ℕ × ℕ × List ℕ)
read_message encode_text decode_text buffer =
    read_decoded (decode_prefix encode_text decode_text message_options buffer)

abbrev pub type_of : Message → ℕ
type_of (request piece) = 0
type_of (piece_data piece total bytes) = 1
type_of (reject piece) = 2

abbrev pub piece_of : Message → ℕ
piece_of (request piece) = piece
piece_of (piece_data piece total bytes) = piece
piece_of (reject piece) = piece

-- The numbers of a message are safe integers.
abbrev pub AllSafe : Message → Type 0
AllSafe (request piece) = piece ≤ max_safe
AllSafe (piece_data piece none bytes) = piece ≤ max_safe
AllSafe (piece_data piece (some n) bytes) = (piece ≤ max_safe) × (n ≤ max_safe)
AllSafe (reject piece) = piece ≤ max_safe

-- The assumption on `TextEncoder`.
pub record EncodesAscii (encode_text : List ℕ → List ℕ) : Type 0 where
  pub forth : (t : List ℕ) → AllAscii t → encode_text t ≡ t

AllAscii-AllBytes : (t : List ℕ) → AllAscii t → AllBytes t
AllAscii-AllBytes [] h = tt
AllAscii-AllBytes (c ∷ cs) (lt, h) = (omega arith, AllAscii-AllBytes cs h)

module _ (encode_text decode_text : List ℕ → List ℕ) (to_ascii : EncodesAscii encode_text)
    (ascii : DecodesAscii decode_text) where
  name-IsKey :
      (t : List ℕ)
      → AllAscii t
      → looks_binary t ≡ false
      → list_eq t proto_name ≡ false
      → IsKey encode_text decode_text false (text_key t)
  name-IsKey t all clean named =
      let same : decode_text (encode_text t) ≡ t =
        ap decode_text (to_ascii.forth t all) ∙ ascii.forth t all in
      ((same, clean), λ h. named)

  -- An entry with an ASCII name and a safe integer is canonical in front of canonical ones.
  entry-Canonical :
      (o : Option (List ℕ)) (t : List ℕ) (n : ℕ) (es : Entries)
      → AllAscii t
      → looks_binary t ≡ false
      → list_eq t proto_name ≡ false
      → length t ≤ max_safe
      → Follows o t
      → n ≤ max_safe
      → CanonicalEntries encode_text decode_text false (some t) es
      → CanonicalEntries encode_text decode_text false o (entry (text_key t) (number (pos n)) es)
  unfolding Canonical
  entry-Canonical o t n es all clean named short behind safe rest =
      let same = to_ascii.forth t all in
      (
        name-IsKey t all clean named,
        subst AllBytes (sym same) (AllAscii-AllBytes t all),
        subst (λ s. length s ≤ max_safe) (sym same) short,
        subst (λ s. Follows o s) (sym same) behind,
        le→leb n max_safe safe,
        subst (λ s. CanonicalEntries encode_text decode_text false (some s) es) (sym same) rest,
      )

  size_entry-Canonical :
      (total : Option ℕ)
      → ((n : ℕ) → total ≡ some n → n ≤ max_safe)
      → CanonicalEntries encode_text decode_text false (some piece_name) (size_entry total)
  unfolding Canonical
  size_entry-Canonical none safe = tt
  size_entry-Canonical (some n) safe =
      entry-Canonical (some piece_name) total_size_name n end (omega arith) refl refl (omega arith)
        refl (safe n refl) (unfold Canonical in tt)

  entries-Canonical :
      (type piece : ℕ) (es : Entries)
      → type ≤ max_safe
      → piece ≤ max_safe
      → CanonicalEntries encode_text decode_text false (some piece_name) es
      → Canonical encode_text decode_text false (message_entries type piece es)
  unfolding Canonical
  entries-Canonical type piece es st sp rest = (
    refl,
    entry-Canonical none msg_type_name type (entry (text_key piece_name) (number (pos piece)) es)
        (omega arith) refl refl (omega arith) tt st
        (entry-Canonical (some msg_type_name) piece_name piece es (omega arith) refl refl
          (omega arith) refl sp rest),
  )

  message_value-Canonical :
      (m : Message) → AllSafe m → Canonical encode_text decode_text false (message_value m)
  message_value-Canonical (request piece) h =
      entries-Canonical 0 piece end (omega arith) h (unfold Canonical in tt)
  message_value-Canonical (piece_data piece none bytes) h =
      entries-Canonical 1 piece end (omega arith) h (unfold Canonical in tt)
  message_value-Canonical (piece_data piece (some n) bytes) (hp, hn) =
      entries-Canonical 1 piece (size_entry (some n)) (omega arith) hp
        (size_entry-Canonical (some n) (λ k e. subst (λ j. j ≤ max_safe) (number_eq n k e) hn))
    where
      number_eq : (n k : ℕ) → some n ≡ some k → n ≡ k
      number_eq n k e = ap (λ o. elim o [ none ↦ n | some j ↦ j ]) e
  message_value-Canonical (reject piece) h =
      entries-Canonical 2 piece end (omega arith) h (unfold Canonical in tt)

  message_value-depth : (m : Message) → depth (message_value m) ≤ 1000
  unfolding depth
  message_value-depth (request piece) = omega arith
  message_value-depth (piece_data piece none bytes) = omega arith
  message_value-depth (piece_data piece (some n) bytes) = omega arith
  message_value-depth (reject piece) = omega arith

  message_value-both :
      (m : Message) (trailer : List ℕ)
      → both
          (number_property msg_type_name (message_value m))
          (number_property piece_name (message_value m))
          trailer
        ≡ some (type_of m, piece_of m, trailer)
  message_value-both (request piece) trailer = refl
  message_value-both (piece_data piece total bytes) trailer = refl
  message_value-both (reject piece) trailer = refl

  -- Every message of safe numbers has a buffer, from which, if it has at most 64 MiB, the type of the
  -- message, its piece and its trailer are read back; of `TextEncoder` and `TextDecoder` it is assumed
  -- that they take ASCII to itself.
  pub read_message-message_buffer :
      (m : Message)
      → AllSafe m
      → (buffer : List ℕ) × (message_buffer encode_text m ≡ ok buffer)
        × (length buffer ≤ 64 * 1024 * 1024
            → read_message encode_text decode_text buffer
              ≡ some (type_of m, piece_of m, message_trailer m))
  unfolding message_buffer read_message
  read_message-message_buffer m h =
      let canonical = message_value-Canonical m h in
      let (out, e, reads) =
        decode_one-encode encode_text decode_text ascii 1000 false true (message_value m) canonical
          (message_value-depth m) in
      (
        out ++ message_trailer m,
        rw e refl,
        λ fits.
            ap read_decoded (
              decode_prefix-decoded encode_text decode_text message_options (64 * 1024 * 1024) 1000
                (out ++ message_trailer m) (message_trailer m) (message_value m) refl refl
                (omega arith) (omega arith) fits (reads (message_trailer m)))
            ∙ message_value-both m (message_trailer m),
      )
