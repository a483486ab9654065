-- ===== src/Bencode/Leaves.antt =====
-- Runs over integers, byte strings, keys and the marks of containers.
use browsertorrent.Common.{
  ℕ, ◌≤◌, ◌<◌, ◌≡◌, refl, ap, ◌∙◌, Bool, true, false, ◌&&◌, none, some, List, [], ◌∷◌, ◌++◌, ◌==◌,
  length, leb, arith,
}
use mathlib.Core.List.{append_assoc}
use browsertorrent.Common.Int.{ℤ}
use browsertorrent.Handshake.RoundTrip.{DecodesAscii}
use browsertorrent.Bencode.{Key, Value, list, Values, nil, max_safe}
use browsertorrent.Bencode.Decimal.{decimal_int}
use browsertorrent.Bencode.Encode.{encode_integer, encode_bytes}
use browsertorrent.Bencode.Decode.{
  Frame, list_frame, dict_frame, DictFrame, Decoder, next, value_of, push_value, put_value,
  put_entry, store,
}
use browsertorrent.Bencode.Loop.{
  round, read_more, read_next, on_token, on_dict, on_integer, on_byte_string, open_container,
  new_dict, dict_value,
}
use browsertorrent.Bencode.Pieces.{
  decimal-Spelled, integer_value, decode_integer-decimal_int, decode_byte_string-encode_bytes,
}
use browsertorrent.Bencode.Steps.{at, Reaches, Reaches-round}

-- The stack waits for a value: it is empty, or a list is on top, or a dictionary with a key.
abbrev pub ReadsValue : List Frame → Type 0
ReadsValue [] = Unit {0}
ReadsValue (list_frame vs ∷ fs) = Unit {0}
ReadsValue (dict_frame f ∷ fs) = (k : Key) × (f.pending ≡ some k)

-- The numeral in front of a byte string.
pub record Numbered (bs rest : List ℕ) : Type 0 where
  pub first : ℕ
  pub others : List ℕ
  pub shape : encode_bytes bs ++ rest ≡ first ∷ others
  pub digit : (48 ≤ first) × (first ≤ 57)

pub encode_bytes-Numbered : (bs rest : List ℕ) → Numbered bs rest
unfolding encode_bytes
encode_bytes-Numbered bs rest =
    let s = decimal-Spelled (length bs) in
    record {
      first = s.first;
      others = (s.others ++ (58 ∷ bs)) ++ rest;
      shape = ap (λ t. (t ++ (58 ∷ bs)) ++ rest) s.shape;
      digit = s.digit;
    }

module _ (encode_text decode_text : List ℕ → List ℕ) (ascii : DecodesAscii decode_text)
    (max_depth : ℕ) (use_map allow_unsorted : Bool) where
  abbrev Runs : Decoder → Decoder → Type 0
  Runs = Reaches encode_text decode_text max_depth use_map allow_unsorted

  token_round :
      (token : ℕ) (rest : List ℕ) (fs : List Frame)
      → ReadsValue fs
      → (token == 101) ≡ false
      → round encode_text decode_text max_depth use_map allow_unsorted (token ∷ rest) fs none
        ≡ on_token encode_text decode_text max_depth use_map allow_unsorted token rest fs
  unfolding round read_more read_next on_dict
  token_round token rest [] h e = refl
  token_round token rest (list_frame vs ∷ fs) h e = rw e
  token_round token rest (dict_frame f ∷ fs) (k, h) e = rw h

  pub integer-Runs :
      (n : ℤ) (rest : List ℕ) (fs : List Frame)
      → ReadsValue fs
      → Runs (at (encode_integer n ++ rest) fs none) (at rest fs (some (integer_value n)))
  unfolding encode_integer
  integer-Runs n rest fs h =
      let tail : List ℕ = decimal_int n ++ (101 ∷ rest) in
      let shape : 105 ∷ ((decimal_int n ++ (101 ∷ [])) ++ rest) ≡ 105 ∷ tail =
        ap (◌∷◌ 105) (append_assoc (decimal_int n) (101 ∷ []) rest) in
      let read = decode_integer-decimal_int encode_text decode_text ascii n rest in
      let step : round encode_text decode_text max_depth use_map allow_unsorted (105 ∷ tail) fs none
          ≡ next (at rest fs (some (integer_value n))) =
        token_round 105 tail fs h refl ∙ (unfold on_token on_integer in rw read) in
      rw shape (
        Reaches-round encode_text decode_text max_depth use_map allow_unsorted
          (at (105 ∷ tail) fs none) _ step)

  pub bytes-Runs :
      (bs rest : List ℕ) (fs : List Frame)
      → ReadsValue fs
      → length bs ≤ max_safe
      → Runs
          (at (encode_bytes bs ++ rest) fs none)
          (at rest fs (some (value_of encode_text decode_text bs)))
  bytes-Runs bs rest fs h safe =
      let s = encode_bytes-Numbered bs rest in
      let read =
        rw s.shape at
          (decode_byte_string-encode_bytes encode_text decode_text ascii bs rest safe) in
      let not_end : (s.first == 101) ≡ false = ground arith in
      let not_int : (s.first == 105) ≡ false = ground arith in
      let digit : (leb 48 s.first && leb s.first 57) ≡ true = ground arith in
      let step : round encode_text decode_text max_depth use_map allow_unsorted (s.first ∷ s.others)
            fs none
          ≡ next (at rest fs (some (value_of encode_text decode_text bs))) =
        token_round s.first s.others fs h not_end
        ∙ (unfold on_token on_byte_string in rw (not_int, digit, read)) in
      rw s.shape (
        Reaches-round encode_text decode_text max_depth use_map allow_unsorted
          (at (s.first ∷ s.others) fs none) _ step)

  pub list_opens :
      (rest : List ℕ) (fs : List Frame)
      → ReadsValue fs
      → length fs < max_depth
      → Runs (at (108 ∷ rest) fs none) (at rest (list_frame nil ∷ fs) none)
  list_opens rest fs h shallow =
      let test : leb max_depth (length fs) ≡ false = ground arith in
      Reaches-round encode_text decode_text max_depth use_map allow_unsorted
        (at (108 ∷ rest) fs none) _
        (token_round 108 rest fs h refl ∙ (unfold on_token open_container in rw test))

  pub dict_opens :
      (rest : List ℕ) (fs : List Frame)
      → ReadsValue fs
      → length fs < max_depth
      → Runs (at (100 ∷ rest) fs none) (at rest (new_dict use_map ∷ fs) none)
  dict_opens rest fs h shallow =
      let test : leb max_depth (length fs) ≡ false = ground arith in
      Reaches-round encode_text decode_text max_depth use_map allow_unsorted
        (at (100 ∷ rest) fs none) _
        (token_round 100 rest fs h refl ∙ (unfold on_token open_container in rw test))

  pub list_closes :
      (rest : List ℕ) (vs : Values) (fs : List Frame)
      → Runs (at (101 ∷ rest) (list_frame vs ∷ fs) none) (at rest fs (some (list vs)))
  list_closes rest vs fs =
      Reaches-round encode_text decode_text max_depth use_map allow_unsorted
        (at (101 ∷ rest) (list_frame vs ∷ fs) none) _ (unfold round read_more read_next in refl)

  pub list_takes :
      (v : Value) (rest : List ℕ) (vs : Values) (fs : List Frame)
      → Runs
          (at rest (list_frame vs ∷ fs) (some v))
          (at rest (list_frame (push_value vs v) ∷ fs) none)
  list_takes v rest vs fs =
      Reaches-round encode_text decode_text max_depth use_map allow_unsorted
        (at rest (list_frame vs ∷ fs) (some v)) _ (unfold round put_value in refl)

  pub dict_closes :
      (rest : List ℕ) (f : DictFrame) (fs : List Frame)
      → f.pending ≡ none
      → Runs (at (101 ∷ rest) (dict_frame f ∷ fs) none) (at rest fs (some (dict_value f)))
  dict_closes rest f fs h =
      Reaches-round encode_text decode_text max_depth use_map allow_unsorted
        (at (101 ∷ rest) (dict_frame f ∷ fs) none) _
        (unfold round read_more read_next on_dict in rw h)

  pub dict_takes :
      (v : Value) (k : Key) (rest : List ℕ) (f : DictFrame) (fs : List Frame)
      → f.pending ≡ some k
      → Runs (at rest (dict_frame f ∷ fs) (some v)) (
          at rest
            (dict_frame (record f {
              entries = store encode_text decode_text f.use_map k v f.entries;
              pending = none;
            })
              ∷ fs)
            none)
  dict_takes v k rest f fs h =
      Reaches-round encode_text decode_text max_depth use_map allow_unsorted
        (at rest (dict_frame f ∷ fs) (some v)) _
        (unfold round put_value put_entry in ap (put_entry encode_text decode_text v rest f fs) h)
