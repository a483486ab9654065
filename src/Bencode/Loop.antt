-- ===== src/Bencode/Loop.antt =====
-- The loop of `_decodeOne`, `decode` and `decodePrefix`.
use browsertorrent.Common.{
  ℕ, zero, suc, ◌*◌, Bool, true, false, not, ◌&&◌, ◌||◌, Option, none, some, List, [], ◌∷◌,
  if◌then◌else◌, ◌==◌, Result, ok, err, ◌>>=◌, ◌>>◌, guard, length, leb,
}
use browsertorrent.Common.Words.{Number, nat, is_uint, to_nat}
use browsertorrent.Hex.{encode_hex}
use browsertorrent.Bencode.{Key, Value, list, dict, map, nil, end, max_safe, key_bytes}
use browsertorrent.Bencode.Decode.{
  DecodeError, invalid_max_bytes, invalid_max_depth, input_too_long, trailing_data, unexpected_end,
  duplicate_key, unsorted_keys, depth_exceeded, unexpected_token, Frame, list_frame, dict_frame,
  DictFrame, Decoder, Round, next, finished, thrown, Outcome, decoded, failed, out_of_fuel,
  DecodeOptions, seen, follows, decode_integer, decode_byte_string, key_of, value_of, put_value,
}

abbrev pub dict_value : DictFrame → Value
dict_value f = if f.use_map then map f.entries else dict f.entries

unfoldable pub after_round : (Decoder → Outcome) → Round → Outcome
after_round go (next d) = go d
after_round go (finished v rest) = decoded v rest
after_round go (thrown e) = failed e

abbrev pub new_dict : Bool → Frame
new_dict use_map =
    dict_frame
      (record { entries = end; seen_keys = []; previous = none; pending = none; use_map = use_map })

module _ (encode_text decode_text : List ℕ → List ℕ) (max_depth : ℕ)
    (use_map allow_unsorted : Bool) where
  -- The key at the front of `rest`, for the dictionary `f` on top of the stack.
  unfoldable pub accept_key : DictFrame → List Frame → List ℕ → Key → Round
  accept_key f fs rest key =
      let name : List ℕ = key_bytes encode_text key in
      if seen (encode_hex name) f.seen_keys
      then thrown duplicate_key
      else if not allow_unsorted && not (follows f.previous name)
      then thrown unsorted_keys
      else next (record {
        rest = rest;
        stack =
            dict_frame (record f {
              seen_keys = encode_hex name ∷ f.seen_keys;
              previous = some name;
              pending = some key;
            })
            ∷ fs;
        current = none;
      })

  unfoldable pub on_key : DictFrame → List Frame → Result DecodeError (List ℕ × List ℕ) → Round
  on_key f fs (err e) = thrown e
  on_key f fs (ok (bs, rest)) = accept_key f fs rest (key_of encode_text decode_text bs)

  unfoldable pub on_integer : List Frame → Result DecodeError (Value × List ℕ) → Round
  on_integer fs (err e) = thrown e
  on_integer fs (ok (v, rest)) = next (record { rest = rest; stack = fs; current = some v })

  unfoldable pub on_byte_string : List Frame → Result DecodeError (List ℕ × List ℕ) → Round
  on_byte_string fs (err e) = thrown e
  on_byte_string fs (ok (bs, rest)) =
      next
        (record { rest = rest; stack = fs; current = some (value_of encode_text decode_text bs) })

  unfoldable pub open_container : ℕ → List ℕ → List Frame → Round
  open_container token rest fs =
      if leb max_depth (length fs)
      then thrown depth_exceeded
      else next (record {
        rest = rest;
        stack = (if token == 108 then list_frame nil else new_dict use_map) ∷ fs;
        current = none;
      })

  -- The tokens "i", a digit, "l" and "d".
  unfoldable pub on_token : ℕ → List ℕ → List Frame → Round
  on_token token rest fs =
      if token == 105
      then on_integer fs (decode_integer encode_text decode_text rest)
      else if leb 48 token && leb token 57
      then on_byte_string fs (decode_byte_string encode_text decode_text (token ∷ rest))
      else if (token == 108) || (token == 100)
      then open_container token rest fs
      else thrown unexpected_token

  unfoldable pub on_dict : ℕ → List ℕ → DictFrame → List Frame → Option Key → Round
  on_dict token rest f fs (some key) = on_token token rest (dict_frame f ∷ fs)
  on_dict token rest f fs none =
      if token == 101
      then next (record { rest = rest; stack = fs; current = some (dict_value f) })
      else on_key f fs (decode_byte_string encode_text decode_text (token ∷ rest))

  -- A round without a value: the end of a container, a key or a token.
  unfoldable pub read_next : ℕ → List ℕ → List Frame → Round
  read_next token rest [] = on_token token rest []
  read_next token rest (list_frame vs ∷ fs) =
      if token == 101
      then next (record { rest = rest; stack = fs; current = some (list vs) })
      else on_token token rest (list_frame vs ∷ fs)
  read_next token rest (dict_frame f ∷ fs) = on_dict token rest f fs f.pending

  unfoldable pub read_more : List ℕ → List Frame → Round
  read_more [] fs = thrown unexpected_end
  read_more (token ∷ rest) fs = read_next token rest fs

  unfoldable pub round : List ℕ → List Frame → Option Value → Round
  round rest fs (some v) = put_value encode_text decode_text v rest fs
  round rest fs none = read_more rest fs

  -- `_decodeOne`, on fuel.
  unfoldable pub decode_loop : ℕ → Decoder → Outcome
  decode_loop zero d = out_of_fuel
  decode_loop (suc fuel) d =
      after_round (λ d'. decode_loop fuel d') (round d.rest d.stack d.current)

  -- A round consumes a byte or the value at hand, so that twice the length and one is fuel enough.
  unfoldable pub decode_one : List ℕ → Outcome
  decode_one data_bytes =
      decode_loop (suc (length data_bytes * 2))
        (record { rest = data_bytes; stack = []; current = none })

-- The checks of the options, and the value with the bytes behind it.
abbrev pub option_value : Option Number → ℕ → Number
option_value none d = nat d
option_value (some n) d = n

unfoldable pub result_of : Outcome → Result DecodeError (Value × List ℕ)
result_of (decoded v rest) = ok (v, rest)
result_of (failed e) = err e
result_of out_of_fuel = err unexpected_end

unfoldable pub decode_prefix :
    (List ℕ → List ℕ)
    → (List ℕ → List ℕ)
    → DecodeOptions
    → List ℕ
    → Result DecodeError (Value × List ℕ)
decode_prefix encode_text decode_text options input = do
  let max_bytes : Number = option_value options.max_bytes (64 * 1024 * 1024)
  let max_depth : Number = option_value options.max_depth 1000
  guard (is_uint max_safe max_bytes) invalid_max_bytes
  guard (is_uint max_safe max_depth) invalid_max_depth
  guard (leb (length input) (to_nat max_bytes)) input_too_long
  result_of (
      decode_one encode_text decode_text (to_nat max_depth) options.use_map
        options.allow_unsorted_keys input)

abbrev pub is_empty : List ℕ → Bool
is_empty [] = true
is_empty (b ∷ bs) = false

unfoldable pub decode :
    (List ℕ → List ℕ) → (List ℕ → List ℕ) → DecodeOptions → List ℕ → Result DecodeError Value
decode encode_text decode_text options input = do
  (v, rest) ← decode_prefix encode_text decode_text options input
  guard (is_empty rest) trailing_data
  ok v
