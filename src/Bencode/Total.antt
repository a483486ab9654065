-- ===== src/Bencode/Total.antt =====
-- A canonical value has an encoding, and the decoder returns the value for it.
use browsertorrent.Common.{
  ℕ, ◌*◌, ◌≤◌, ◌≡◌, refl, Bool, false, Option, none, some, List, [], ◌∷◌, ◌++◌, ok, length, le→leb,
  arith,
}
use mathlib.Core.List.{append-nil}
use browsertorrent.Common.Words.{nat}
use browsertorrent.Handshake.RoundTrip.{DecodesAscii}
use browsertorrent.Bencode.{
  Value, number, bigint, fraction, text, bytes, list, dict, map, Values, nil, cons, Entries, end,
  entry, max_safe, key_bytes,
}
use browsertorrent.Bencode.Encode.{
  encode_bytes, encode_integer, encode, encode_values, encode_entries, encode_sorted, write_entries,
  repeats,
}
use browsertorrent.Bencode.Decode.{DecodeOptions, decoded}
use browsertorrent.Bencode.Loop.{decode, decode_prefix, decode_one, result_of, option_value}
use browsertorrent.Bencode.Order.{Follows, Before-not_same, sort_entries-Ascending}
use browsertorrent.Bencode.Canonical.{depth, Canonical, CanonicalValues, CanonicalEntries}
use browsertorrent.Bencode.Parts.{CanonicalEntries-Ascending}
use browsertorrent.Bencode.Steps.{Reaches-decoded}
use browsertorrent.Bencode.RoundTrip.{value-Reads}

repeats-Follows : (o : Option (List ℕ)) (k : List ℕ) → Follows o k → repeats o k ≡ false
repeats-Follows none k h = refl
repeats-Follows (some p) k h = Before-not_same p k h

module _ (encode_text decode_text : List ℕ → List ℕ) (use_map : Bool) where
  dictionary_encodes :
      (es : Entries)
      → CanonicalEntries encode_text decode_text use_map none es
      → (body : List ℕ) × (write_entries none (encode_entries encode_text es) ≡ ok body)
      → (out : List ℕ) × (encode_sorted (encode_entries encode_text es) ≡ ok out)
  dictionary_encodes es c (body, e) =
      let sorted =
        sort_entries-Ascending none (encode_entries encode_text es)
          (CanonicalEntries-Ascending encode_text decode_text use_map none es c) in
      (100 ∷ (body ++ (101 ∷ [])), unfold encode_sorted in rw (sorted, e))

  mutual
    unfolding Canonical encode write_entries

    value_encodes :
        (v : Value)
        → Canonical encode_text decode_text use_map v
        → (out : List ℕ) × (encode encode_text v ≡ ok out)
    value_encodes (number n) c = (encode_integer n, rw c)
    value_encodes (bigint n) c = (encode_integer n, refl)
    value_encodes fraction c = absurd c
    value_encodes (text t) c = (encode_bytes (encode_text t), refl)
    value_encodes (bytes bs) c = (encode_bytes bs, refl)
    value_encodes (list vs) c =
        let (body, e) = values_encode vs c in (108 ∷ (body ++ (101 ∷ [])), rw e)
    value_encodes (dict es) (kind, c) = dictionary_encodes es c (entries_encode none es c)
    value_encodes (map es) (kind, c) = dictionary_encodes es c (entries_encode none es c)

    values_encode :
        (vs : Values)
        → CanonicalValues encode_text decode_text use_map vs
        → (out : List ℕ) × (encode_values encode_text vs ≡ ok out)
    values_encode nil c = ([], refl)
    values_encode (cons v vs) (c, cs) =
        let (first, e) = value_encodes v c in
        let (rest, e') = values_encode vs cs in (first ++ rest, rw (e, e'))

    entries_encode :
        (o : Option (List ℕ)) (es : Entries)
        → CanonicalEntries encode_text decode_text use_map o es
        → (out : List ℕ) × (write_entries o (encode_entries encode_text es) ≡ ok out)
    entries_encode o end c = ([], refl)
    entries_encode o (entry k v es) (is_key, all, safe, behind, c, cs) =
        let (item, e) = value_encodes v c in
        let (rest, e') = entries_encode (some (key_bytes encode_text k)) es cs in
        (
          encode_bytes (key_bytes encode_text k) ++ (item ++ rest),
          rw (repeats-Follows o (key_bytes encode_text k) behind, e, e'),
        )

-- A canonical value is encoded, and what is written is decoded to the value, with the
-- bytes behind it left, where the containers of the value are nested no deeper than the decoder
-- allows; of `TextDecoder` it is assumed that it decodes ASCII bytes to themselves.
pub decode_one-encode :
    (encode_text decode_text : List ℕ → List ℕ)
    → DecodesAscii decode_text
    → (max_depth : ℕ) (use_map allow_unsorted : Bool) (v : Value)
    → Canonical encode_text decode_text use_map v
    → depth v ≤ max_depth
    → (out : List ℕ) × (encode encode_text v ≡ ok out)
      × ((rest : List ℕ)
          → decode_one encode_text decode_text max_depth use_map allow_unsorted (out ++ rest)
            ≡ decoded v rest)
decode_one-encode encode_text decode_text ascii max_depth use_map allow_unsorted v c h =
    let (out, e) = value_encodes encode_text decode_text use_map v c in
    (
      out,
      e,
      λ rest.
          Reaches-decoded encode_text decode_text max_depth use_map allow_unsorted (out ++ rest)
            rest v
            (value-Reads encode_text decode_text ascii max_depth use_map allow_unsorted v out rest
              [] c (omega (arith, h)) tt e),
    )

-- Within the limits of the options, `decodePrefix` returns what the loop returns.
pub decode_prefix-decoded :
    (encode_text decode_text : List ℕ → List ℕ) (options : DecodeOptions) (limit max_depth : ℕ)
    (input rest : List ℕ) (v : Value)
    → option_value options.max_bytes (64 * 1024 * 1024) ≡ nat limit
    → option_value options.max_depth 1000 ≡ nat max_depth
    → limit ≤ max_safe
    → max_depth ≤ max_safe
    → length input ≤ limit
    → decode_one encode_text decode_text max_depth options.use_map options.allow_unsorted_keys input
      ≡ decoded v rest
    → decode_prefix encode_text decode_text options input ≡ ok (v, rest)
unfolding decode_prefix result_of
decode_prefix-decoded encode_text decode_text options limit max_depth input rest v size deep hl hd
      fits run =
    rw
      (
        size,
        deep,
        le→leb limit max_safe hl,
        le→leb max_depth max_safe hd,
        le→leb (length input) limit fits,
        run,
      )
      refl

-- `decode` undoes `encode` on a canonical value whose nesting and whose encoding keep within the
-- limits of the options, set or left to their defaults; of `TextDecoder` it is assumed that it
-- decodes ASCII bytes to themselves.
pub decode-encode :
    (encode_text decode_text : List ℕ → List ℕ)
    → DecodesAscii decode_text
    → (options : DecodeOptions) (limit max_depth : ℕ) (v : Value) (out : List ℕ)
    → option_value options.max_bytes (64 * 1024 * 1024) ≡ nat limit
    → option_value options.max_depth 1000 ≡ nat max_depth
    → limit ≤ max_safe
    → max_depth ≤ max_safe
    → Canonical encode_text decode_text options.use_map v
    → depth v ≤ max_depth
    → encode encode_text v ≡ ok out
    → length out ≤ limit
    → decode encode_text decode_text options out ≡ ok v
unfolding decode decode_prefix result_of
decode-encode encode_text decode_text ascii options limit max_depth v out size deep hl hd c h e
      fits =
    let allow : Bool = options.allow_unsorted_keys in
    let read =
      value-Reads encode_text decode_text ascii max_depth options.use_map allow v out [] [] c
        (omega (arith, h)) tt e in
    let run : decode_one encode_text decode_text max_depth options.use_map allow out
        ≡ decoded v [] =
      rw (append-nil out) at (
        Reaches-decoded encode_text decode_text max_depth options.use_map allow (out ++ []) [] v
          read) in
    rw (
      size,
      deep,
      le→leb limit max_safe hl,
      le→leb max_depth max_safe hd,
      le→leb (length out) limit fits,
      run,
    )
