-- ===== src/Bencode/Decode.antt =====
-- `decode` and `decodePrefix`. The bytes from `offset` on stand for the offset; the top of the stack
-- is the head of the list.
use browsertorrent.Common.{
  ℕ, zero, suc, Bool, true, false, not, ◌&&◌, ◌||◌, Option, none, some, List, [], ◌∷◌,
  if◌then◌else◌, ◌==◌, Result, ok, err, ◌>>◌, guard, length, leb, ltb, take, drop, list_eq,
}
use browsertorrent.Common.Int.{pos, negsuc}
use browsertorrent.Common.Words.{Number}
use browsertorrent.Bencode.{
  Key, text_key, byte_key, Value, number, bigint, text, bytes, Values, nil, cons, Entries, end,
  entry, max_safe, above,
}
use browsertorrent.Bencode.Decimal.{is_numeral, all_digits, value}

-- The `BencodeDecodeError`s.
pub data DecodeError : Type 0 where
  invalid_max_bytes invalid_max_depth input_too_long trailing_data value_without_key : DecodeError
  unexpected_end duplicate_key unsorted_keys depth_exceeded unexpected_token : DecodeError
  unterminated_integer invalid_integer no_colon invalid_length leading_zero : DecodeError
  unsafe_length truncated : DecodeError

abbrev pub cons_before : ℕ → Option (List ℕ × List ℕ) → Option (List ℕ × List ℕ)
cons_before c none = none
cons_before c (some (before, behind)) = some (c ∷ before, behind)

-- `data.indexOf(byte, offset)`: what stands before the byte and behind it.
unfoldable pub split_at : ℕ → List ℕ → Option (List ℕ × List ℕ)
split_at b [] = none
split_at b (c ∷ cs) =
    let later = split_at b cs in if c == b then some ([], cs) else cons_before c later

-- `/^-?(?:0|[1-9]\d*)$/.test(raw)` and `raw !== "-0"`
abbrev pub is_integer_text : List ℕ → Bool
is_integer_text [] = false
is_integer_text (c ∷ cs) =
    if c == 45 then is_numeral cs && not (list_eq cs (48 ∷ [])) else is_numeral (c ∷ cs)

-- `Number.isSafeInteger(num) ? num : BigInt(raw)`
abbrev pub positive : ℕ → Value
positive n = if leb n max_safe then number (pos n) else bigint (pos n)

abbrev pub negative : ℕ → Value
negative zero = number (pos 0)
negative (suc n) = if leb (suc n) max_safe then number (negsuc n) else bigint (negsuc n)

abbrev pub integer_of : List ℕ → Value
integer_of [] = number (pos 0)
integer_of (c ∷ cs) = if c == 45 then negative (value 0 cs) else positive (value 0 (c ∷ cs))

-- `str.includes("\uFFFD")` and `/[\x00-\x08\x0B\x0C\x0E-\x1F]/.test(str)`, of a code unit.
abbrev pub is_binary : ℕ → Bool
is_binary c = (c == 65533) || (leb c 8 || ((c == 11) || ((c == 12) || (leb 14 c && leb c 31))))

abbrev pub looks_binary : List ℕ → Bool
looks_binary [] = false
looks_binary (c ∷ cs) = is_binary c || looks_binary cs

pub record DictFrame : Type 0 where
  pub entries : Entries
  pub seen_keys : List (List ℕ)
  pub previous : Option (List ℕ)
  pub pending : Option Key
  pub use_map : Bool

pub data Frame : Type 0 where
  list_frame : Values → Frame
  dict_frame : DictFrame → Frame

-- `push`
unfoldable pub push_value : Values → Value → Values
push_value nil v = cons v nil
push_value (cons w ws) v = cons w (push_value ws v)

-- Two keys of a `Map` are one if they are the same text; byte arrays are compared as objects.
abbrev pub same_key : Key → Key → Bool
same_key (text_key s) (text_key t) = list_eq s t
same_key _ _ = false

-- `set` of a `Map`, and the assignment to a property that is there or not.
unfoldable pub set_entry : Key → Value → Entries → Entries
set_entry k v end = entry k v end
set_entry k v (entry k' v' es) =
    let rest = set_entry k v es in if same_key k' k then entry k' v es else entry k' v' rest

-- "__proto__": an assignment to this property of a record makes no property of it.
abbrev pub proto_name : List ℕ
proto_name = 95 ∷ 95 ∷ 112 ∷ 114 ∷ 111 ∷ 116 ∷ 111 ∷ 95 ∷ 95 ∷ []

-- `seenKeys.has(fingerprint)`
abbrev pub seen : List ℕ → List (List ℕ) → Bool
seen k [] = false
seen k (j ∷ js) = list_eq j k || seen k js

abbrev pub follows : Option (List ℕ) → List ℕ → Bool
follows none k = true
follows (some previous) k = not (above previous k)

abbrev pub is_pending : Option Key → Bool
is_pending none = false
is_pending (some k) = true

-- The variables of the loop of `_decodeOne`.
pub record Decoder : Type 0 where
  pub rest : List ℕ
  pub stack : List Frame
  pub current : Option Value

-- What a round comes to.
pub data Round : Type 0 where
  next : Decoder → Round
  finished : Value → List ℕ → Round
  thrown : DecodeError → Round

pub data Outcome : Type 0 where
  decoded : Value → List ℕ → Outcome
  failed : DecodeError → Outcome
  out_of_fuel : Outcome

pub record DecodeOptions : Type 0 where
  pub max_bytes : Option Number
  pub max_depth : Option Number
  pub use_map : Bool
  pub allow_unsorted_keys : Bool

abbrev pub first_is_zero : List ℕ → Bool
first_is_zero [] = false
first_is_zero (c ∷ cs) = c == 48

module _ (encode_text decode_text : List ℕ → List ℕ) where
  -- `_decodeInteger`, behind the "i".
  unfoldable pub read_integer : Option (List ℕ × List ℕ) → Result DecodeError (Value × List ℕ)
  read_integer none = err unterminated_integer
  read_integer (some (raw, behind)) = do
    guard (is_integer_text (decode_text raw)) invalid_integer
    ok (integer_of (decode_text raw), behind)

  unfoldable pub decode_integer : List ℕ → Result DecodeError (Value × List ℕ)
  unfolding split_at
  decode_integer rest = read_integer (split_at 101 rest)

  -- A byte string as a text, if it looks like one.
  abbrev pub as_text : List ℕ → Bool
  as_text bs = not (looks_binary (decode_text bs))

  abbrev pub key_of : List ℕ → Key
  key_of bs = if as_text bs then text_key (decode_text bs) else byte_key bs

  abbrev pub value_of : List ℕ → Value
  value_of bs = if as_text bs then text (decode_text bs) else bytes bs

  -- `_decodeByteString`, up to the bytes themselves.
  unfoldable pub read_bytes : Option (List ℕ × List ℕ) → Result DecodeError (List ℕ × List ℕ)
  read_bytes none = err no_colon
  read_bytes (some (raw, behind)) = do
    guard (not (length raw == 0) && all_digits raw) invalid_length
    guard (not (ltb 1 (length raw) && (first_is_zero raw))) leading_zero
    let n : ℕ = value 0 (decode_text raw)
    guard (leb n max_safe) unsafe_length
    guard (leb n (length behind)) truncated
    ok (take n behind, drop n behind)

  unfoldable pub decode_byte_string : List ℕ → Result DecodeError (List ℕ × List ℕ)
  unfolding split_at
  decode_byte_string rest = read_bytes (split_at 58 rest)

  -- A finished value goes into the container on top of the stack.
  abbrev pub key_text : Key → List ℕ
  key_text (text_key t) = t
  key_text (byte_key bs) = decode_text bs

  abbrev pub assign : List ℕ → Value → Entries → Entries
  assign t v es = if list_eq t proto_name then es else set_entry (text_key t) v es

  abbrev pub store : Bool → Key → Value → Entries → Entries
  store true k v es = set_entry k v es
  store false k v es = assign (key_text k) v es

  unfoldable pub put_entry : Value → List ℕ → DictFrame → List Frame → Option Key → Round
  put_entry v rest f fs none = thrown value_without_key
  put_entry v rest f fs (some k) = next (record {
    rest = rest;
    stack = dict_frame (record f { entries = store f.use_map k v f.entries; pending = none }) ∷ fs;
    current = none;
  })

  unfoldable pub put_value : Value → List ℕ → List Frame → Round
  put_value v rest [] = finished v rest
  put_value v rest (list_frame vs ∷ fs) =
      next (record { rest = rest; stack = list_frame (push_value vs v) ∷ fs; current = none })
  put_value v rest (dict_frame f ∷ fs) = put_entry v rest f fs f.pending
