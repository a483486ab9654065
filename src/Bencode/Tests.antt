-- ===== src/Bencode/Tests.antt =====
-- One value, written out, with text that is its own bytes.
use browsertorrent.Common.{
  ℕ, ◌*◌, ◌≡◌, ◌≢◌, refl, true, false, none, some, List, [], ◌∷◌, ◌++◌, ok, arith,
}
use mathlib.Core.List.{Perm}
use browsertorrent.Common.Int.{pos, negsuc}
use browsertorrent.Common.Words.{nat}
use browsertorrent.Handshake.RoundTrip.{DecodesAscii}
use browsertorrent.Hex.{encode_hex, hex_digit}
use browsertorrent.Bencode.{
  text_key, Value, number, text, bytes, list, map, dict, nil, cons, entry, end,
}
use browsertorrent.Bencode.Decimal.{decimal, decimal_int, digits}
use browsertorrent.Bencode.Encode.{
  Encoded, encode, encode_sorted, sort_entries, insert_entry, write_entries, encode_bytes,
  encode_integer,
}
use browsertorrent.Bencode.Decode.{
  DecodeOptions, decoded, out_of_fuel, split_at, read_integer, decode_integer, read_bytes,
  decode_byte_string, push_value, set_entry, put_entry, put_value,
}
use browsertorrent.Bencode.Loop.{
  decode_one, decode, decode_prefix, decode_loop, after_round, round, read_more, read_next, on_dict,
  on_token, on_key, accept_key, on_integer, on_byte_string, open_container, result_of,
}
use browsertorrent.Bencode.Order.{Ascending}
use browsertorrent.Bencode.Canonical.{Canonical, depth}
use browsertorrent.Bencode.Termination.{decode_one-halts}
use browsertorrent.Bencode.Total.{decode_one-encode, decode-encode}
use browsertorrent.Bencode.Sorted.{with_values, concatenated, encode_sorted-Ascending}

abbrev own_bytes : List ℕ → List ℕ
own_bytes t = t

own_bytes-DecodesAscii : DecodesAscii own_bytes
own_bytes-DecodesAscii = record { forth = λ bs h. refl; back = λ bs t h l e. e }

-- A map from "a" to a list of -5 and a byte, and from "b" to a text.
abbrev sample : Value
sample = map (
    entry (text_key (97 ∷ [])) (list (cons (number (negsuc 4)) (cons (bytes (1 ∷ [])) nil)))
      (entry (text_key (98 ∷ [])) (text (120 ∷ [])) end))

abbrev sample_bytes : List ℕ
sample_bytes =
    100 ∷ 49 ∷ 58 ∷ 97 ∷ 108 ∷ 105 ∷ 45 ∷ 53 ∷ 101 ∷ 49 ∷ 58 ∷ 1 ∷ 101 ∷ 49 ∷ 58 ∷ 98 ∷ 49 ∷ 58
    ∷ 120 ∷ 101 ∷ []

abbrev options : DecodeOptions
options = record {
  max_bytes = none;
  max_depth = some (nat 2);
  use_map = true;
  allow_unsorted_keys = false;
}

sample_encodes : encode own_bytes sample ≡ ok sample_bytes
unfolding encode encode_sorted sort_entries insert_entry write_entries encode_bytes encode_integer
    decimal_int decimal digits
sample_encodes = refl

sample-Canonical : Canonical own_bytes own_bytes true sample
unfolding Canonical
sample-Canonical = (
  refl,
  (
    ((refl, refl), λ h. refl),
    (omega arith, tt),
    omega arith,
    tt,
    (refl, ((refl, omega arith), tt)),
    (
      ((refl, refl), λ h. refl),
      (omega arith, tt),
      omega arith,
      refl,
      ((refl, refl), omega arith),
      tt,
    ),
  ),
)

sample-depth : depth sample ≡ 2
unfolding depth
sample-depth = refl

decode_one-halts_example : decode_one own_bytes own_bytes 2 true false sample_bytes ≢ out_of_fuel
decode_one-halts_example = decode_one-halts own_bytes own_bytes 2 true false sample_bytes

decode_one-encode_example :
    (out : List ℕ) × (encode own_bytes sample ≡ ok out)
    × ((rest : List ℕ)
        → decode_one own_bytes own_bytes 2 true false (out ++ rest) ≡ decoded sample rest)
decode_one-encode_example =
    decode_one-encode own_bytes own_bytes own_bytes-DecodesAscii 2 true false sample
      sample-Canonical (rw sample-depth (omega arith))

decode-encode_example : decode own_bytes own_bytes options sample_bytes ≡ ok sample
decode-encode_example =
    decode-encode own_bytes own_bytes own_bytes-DecodesAscii options (64 * 1024 * 1024) 2 sample
      sample_bytes refl refl (omega arith) (omega arith) sample-Canonical
      (rw sample-depth (omega arith)) sample_encodes (omega arith)

abbrev unsorted_entries : List Encoded
unsorted_entries = (98 ∷ [], ok (105 ∷ 49 ∷ 101 ∷ [])) ∷ (97 ∷ [], ok (105 ∷ 50 ∷ 101 ∷ [])) ∷ []

unsorted_encodes :
    encode_sorted unsorted_entries
    ≡ ok (100 ∷ 49 ∷ 58 ∷ 97 ∷ 105 ∷ 50 ∷ 101 ∷ 49 ∷ 58 ∷ 98 ∷ 105 ∷ 49 ∷ 101 ∷ 101 ∷ [])
unfolding encode_sorted sort_entries insert_entry write_entries encode_bytes decimal digits
unsorted_encodes = refl

encode_sorted-Ascending_example :
    (items : List (List ℕ × List ℕ)) × Perm unsorted_entries (with_values items)
    × Ascending none (with_values items)
    × ((100 ∷ 49 ∷ 58 ∷ 97 ∷ 105 ∷ 50 ∷ 101 ∷ 49 ∷ 58 ∷ 98 ∷ 105 ∷ 49 ∷ 101 ∷ 101 ∷ [])
        ≡ 100 ∷ (concatenated items ++ (101 ∷ [])))
encode_sorted-Ascending_example = encode_sorted-Ascending unsorted_entries _ unsorted_encodes

-- A record key "__proto__" is lost with its value.
proto_lost :
    decode own_bytes own_bytes
      (record { max_bytes = none; max_depth = none; use_map = false; allow_unsorted_keys = false })
      (100 ∷ 57 ∷ 58 ∷ 95 ∷ 95 ∷ 112 ∷ 114 ∷ 111 ∷ 116 ∷ 111 ∷ 95 ∷ 95 ∷ 105 ∷ 49 ∷ 101 ∷ 101 ∷ [])
    ≡ ok (dict end)
unfolding decode decode_prefix decode_one decode_loop after_round round read_more read_next on_dict
    on_token on_key accept_key on_integer on_byte_string open_container result_of split_at
    read_integer decode_integer read_bytes decode_byte_string push_value set_entry put_entry
    put_value encode_hex hex_digit
proto_lost = refl

-- Keys out of order are accepted by the option.
unsorted_accepted :
    decode own_bytes own_bytes
      (record { max_bytes = none; max_depth = none; use_map = true; allow_unsorted_keys = true })
      (100 ∷ 49 ∷ 58 ∷ 98 ∷ 105 ∷ 49 ∷ 101 ∷ 49 ∷ 58 ∷ 97 ∷ 105 ∷ 50 ∷ 101 ∷ 101 ∷ [])
    ≡ ok (
        map (
          entry
            (text_key (98 ∷ []))
            (number (pos 1))
            (entry (text_key (97 ∷ [])) (number (pos 2)) end)))
unfolding decode decode_prefix decode_one decode_loop after_round round read_more read_next on_dict
    on_token on_key accept_key on_integer on_byte_string open_container result_of split_at
    read_integer decode_integer read_bytes decode_byte_string push_value set_entry put_entry
    put_value encode_hex hex_digit
unsorted_accepted = refl
