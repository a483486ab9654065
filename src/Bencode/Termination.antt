-- ===== src/Bencode/Termination.antt =====
-- The loop of the decoder ends: every round takes a byte away or stores the value at hand.
use browsertorrent.Common.{
  ℕ, zero, suc, ◌+◌, ◌*◌, ◌≤◌, ◌<◌, ◌≡◌, ◌≢◌, refl, ap, Bool, not, ◌&&◌, ◌||◌, Option, none, some,
  List, [], ◌∷◌, ◌==◌, Result, ok, err, length, leb, ltb, drop, guard, arith, Bool-cases, inl, inr,
  >>=-eq-ok, ok-injective, length-drop,
}
use browsertorrent.Hex.{encode_hex}
use browsertorrent.Bencode.{Key, Value, max_safe, key_bytes}
use browsertorrent.Bencode.Decode.{
  DecodeError, Frame, list_frame, dict_frame, DictFrame, Decoder, Round, next, finished, thrown,
  Outcome, out_of_fuel, seen, follows, is_integer_text, first_is_zero, invalid_integer,
  invalid_length, leading_zero, unsafe_length, truncated, split_at, cons_before, read_integer,
  decode_integer, read_bytes, decode_byte_string, key_of, put_value, put_entry,
}
use browsertorrent.Bencode.Decimal.{value, all_digits}
use browsertorrent.Bencode.Loop.{
  after_round, accept_key, on_key, on_integer, on_byte_string, open_container, on_token, on_dict,
  read_next, read_more, round, decode_loop, decode_one,
}

split_at-length :
    (b : ℕ) (cs before behind : List ℕ)
    → split_at b cs ≡ some (before, behind)
    → length before + length behind + 1 ≡ length cs
unfolding split_at
split_at-length b [] before behind e = cc
split_at-length b (c ∷ cs) before behind e = elim (Bool-cases (c == b)) [
  | inl found ↦
      let h : some ([], cs) ≡ some (before, behind) = rw found at e in
      let h0 : ◌≡◌ {A = List ℕ} [] before = cc in
      let h1 : cs ≡ behind = cc in omega (arith, ap length h0, ap length h1)
  | inr other ↦
      let h : cons_before c (split_at b cs) ≡ some (before, behind) = rw other at e in
      later (split_at b cs) (λ x y. split_at-length b cs x y) h
]
  where
    later :
        (o : Option (List ℕ × List ℕ))
        → ((x y : List ℕ) → o ≡ some (x, y) → length x + length y + 1 ≡ length cs)
        → cons_before c o ≡ some (before, behind)
        → length before + length behind + 1 ≡ suc (length cs)
    later none ih h = cc
    later (some (x, y)) ih h =
        let h0 : c ∷ x ≡ before = cc in
        let h1 : y ≡ behind = cc in omega (arith, ih x y refl, ap length h0, ap length h1)

-- The round leads to a smaller state, if to any.
abbrev pub weight : Option Value → ℕ
weight none = 0
weight (some v) = 1

abbrev pub size : Decoder → ℕ
size d = length d.rest * 2 + weight d.current

abbrev Smaller : ℕ → Round → Type 0
Smaller n (next d) = size d < n
Smaller n (finished v rest) = Unit {0}
Smaller n (thrown e) = Unit {0}

Smaller-le : (n m : ℕ) (r : Round) → n ≤ m → Smaller n r → Smaller m r
Smaller-le n m (next d) le h = omega (arith, h)
Smaller-le n m (finished v rest) le h = tt
Smaller-le n m (thrown e) le h = tt

module _ (encode_text decode_text : List ℕ → List ℕ) where
  read_integer-behind :
      (o : Option (List ℕ × List ℕ)) (rest : List ℕ) (v : Value)
      → read_integer encode_text decode_text o ≡ ok (v, rest)
      → (raw : List ℕ) × (o ≡ some (raw, rest))
  unfolding read_integer
  read_integer-behind none rest v h = cc
  read_integer-behind (some (raw, behind)) rest v h =
      let (u, test, e) =
        >>=-eq-ok (guard (is_integer_text (decode_text raw)) invalid_integer) _ h in
      let same : behind ≡ rest = ap (λ p. p.1) (ok-injective e) in (raw, rw same)

  decode_integer-lt :
      (rest rest' : List ℕ) (v : Value)
      → decode_integer encode_text decode_text rest ≡ ok (v, rest')
      → length rest' < length rest
  unfolding decode_integer
  decode_integer-lt rest rest' v e =
      let (raw, found) = read_integer-behind (split_at 101 rest) rest' v e in
      omega (arith, split_at-length 101 rest raw rest' found)

  read_bytes-behind :
      (o : Option (List ℕ × List ℕ)) (rest bs : List ℕ)
      → read_bytes encode_text decode_text o ≡ ok (bs, rest)
      → (raw behind : List ℕ) × (o ≡ some (raw, behind)) × (length rest ≤ length behind)
  unfolding read_bytes
  read_bytes-behind none rest bs h = cc
  read_bytes-behind (some (raw, behind)) rest bs h =
      let n : ℕ = value 0 (decode_text raw) in
      let (u1, t1, h1) =
        >>=-eq-ok (guard (not (length raw == 0) && all_digits raw) invalid_length) _ h in
      let (u2, t2, h2) =
        >>=-eq-ok (guard (not (ltb 1 (length raw) && first_is_zero raw)) leading_zero) _ h1 in
      let (u3, t3, h3) = >>=-eq-ok (guard (leb n max_safe) unsafe_length) _ h2 in
      let (u4, t4, e) = >>=-eq-ok (guard (leb n (length behind)) truncated) _ h3 in
      let same : drop n behind ≡ rest = ap (λ p. p.1) (ok-injective e) in
      (raw, behind, refl, omega (arith, length-drop n behind, ap length same))

  decode_byte_string-lt :
      (rest rest' bs : List ℕ)
      → decode_byte_string encode_text decode_text rest ≡ ok (bs, rest')
      → length rest' < length rest
  unfolding decode_byte_string
  decode_byte_string-lt rest rest' bs e =
      let (raw, behind, found, le) = read_bytes-behind (split_at 58 rest) rest' bs e in
      omega (arith, split_at-length 58 rest raw behind found, le)

  put_value-Smaller :
      (v : Value) (rest : List ℕ) (fs : List Frame)
      → Smaller (length rest * 2 + 1) (put_value encode_text decode_text v rest fs)
  unfolding put_value
  put_value-Smaller v rest [] = tt
  put_value-Smaller v rest (list_frame vs ∷ fs) = omega arith
  put_value-Smaller v rest (dict_frame f ∷ fs) = entry_put f.pending
    where
      entry_put :
          (o : Option Key)
          → Smaller (length rest * 2 + 1) (put_entry encode_text decode_text v rest f fs o)
      entry_put none = unfold put_entry in tt
      entry_put (some k) = unfold put_entry in omega arith

module _ (encode_text decode_text : List ℕ → List ℕ) (max_depth : ℕ)
    (use_map allow_unsorted : Bool) where
  accept_key-Smaller :
      (f : DictFrame) (fs : List Frame) (rest : List ℕ) (key : Key) (n : ℕ)
      → length rest * 2 < n
      → Smaller n
          (accept_key encode_text decode_text max_depth use_map allow_unsorted f fs rest key)
  unfolding accept_key
  accept_key-Smaller f fs rest key n h =
      let name : List ℕ = key_bytes encode_text key in
      elim (Bool-cases (seen (encode_hex name) f.seen_keys)) [
        | inl old ↦ rw old tt
        | inr new' ↦ elim (Bool-cases (not allow_unsorted && not (follows f.previous name))) [
          | inl unsorted ↦ rw (new', unsorted) tt
          | inr sorted ↦ rw (new', sorted) (omega arith)
        ]
      ]

  on_key-Smaller :
      (f : DictFrame) (fs : List Frame) (n : ℕ) (r : Result DecodeError (List ℕ × List ℕ))
      → ((bs rest : List ℕ) → r ≡ ok (bs, rest) → length rest < n)
      → Smaller (n * 2) (on_key encode_text decode_text max_depth use_map allow_unsorted f fs r)
  unfolding on_key
  on_key-Smaller f fs n (err e) h = tt
  on_key-Smaller f fs n (ok (bs, rest)) h =
      accept_key-Smaller f fs rest (key_of encode_text decode_text bs) (n * 2)
        (omega (arith, h bs rest refl))

  on_integer-Smaller :
      (fs : List Frame) (n : ℕ) (r : Result DecodeError (Value × List ℕ))
      → ((v : Value) (rest : List ℕ) → r ≡ ok (v, rest) → length rest < n)
      → Smaller (n * 2) (on_integer encode_text decode_text max_depth use_map allow_unsorted fs r)
  unfolding on_integer
  on_integer-Smaller fs n (err e) h = tt
  on_integer-Smaller fs n (ok (v, rest)) h = omega (arith, h v rest refl)

  on_byte_string-Smaller :
      (fs : List Frame) (n : ℕ) (r : Result DecodeError (List ℕ × List ℕ))
      → ((bs rest : List ℕ) → r ≡ ok (bs, rest) → length rest < n)
      → Smaller
          (n * 2)
          (on_byte_string encode_text decode_text max_depth use_map allow_unsorted fs r)
  unfolding on_byte_string
  on_byte_string-Smaller fs n (err e) h = tt
  on_byte_string-Smaller fs n (ok (bs, rest)) h = omega (arith, h bs rest refl)

  on_token-Smaller :
      (token : ℕ) (rest : List ℕ) (fs : List Frame)
      → Smaller
          (suc (length rest) * 2)
          (on_token encode_text decode_text max_depth use_map allow_unsorted token rest fs)
  unfolding on_token open_container
  on_token-Smaller token rest fs = elim (Bool-cases (token == 105)) [
    | inl i ↦ rw i (
        on_integer-Smaller fs (suc (length rest)) (decode_integer encode_text decode_text rest)
          (λ v rest' e. omega (arith, decode_integer-lt encode_text decode_text rest rest' v e)))
    | inr not_i ↦ elim (Bool-cases (leb 48 token && leb token 57)) [
      | inl digit ↦
          rw (not_i, digit)
            (on_byte_string-Smaller fs (suc (length rest))
              (decode_byte_string encode_text decode_text (token ∷ rest))
              (λ bs rest' e.
                decode_byte_string-lt encode_text decode_text (token ∷ rest) rest' bs e))
      | inr other ↦ elim (Bool-cases ((token == 108) || (token == 100))) [
        | inl opens ↦ elim (Bool-cases (leb max_depth (length fs))) [
          | inl deep ↦ rw (not_i, other, opens, deep) tt
          | inr shallow ↦ rw (not_i, other, opens, shallow) (omega arith)
        ]
        | inr nothing ↦ rw (not_i, other, nothing) tt
      ]
    ]
  ]

  on_dict-Smaller :
      (token : ℕ) (rest : List ℕ) (f : DictFrame) (fs : List Frame) (o : Option Key)
      → Smaller
          (suc (length rest) * 2)
          (on_dict encode_text decode_text max_depth use_map allow_unsorted token rest f fs o)
  unfolding on_dict
  on_dict-Smaller token rest f fs (some key) = on_token-Smaller token rest (dict_frame f ∷ fs)
  on_dict-Smaller token rest f fs none = elim (Bool-cases (token == 101)) [
    | inl ends ↦ rw ends (omega arith)
    | inr goes_on ↦ rw goes_on (
        on_key-Smaller f fs (suc (length rest))
          (decode_byte_string encode_text decode_text (token ∷ rest))
          (λ bs rest' e. decode_byte_string-lt encode_text decode_text (token ∷ rest) rest' bs e))
  ]

  read_next-Smaller :
      (token : ℕ) (rest : List ℕ) (fs : List Frame)
      → Smaller
          (suc (length rest) * 2)
          (read_next encode_text decode_text max_depth use_map allow_unsorted token rest fs)
  unfolding read_next
  read_next-Smaller token rest [] = on_token-Smaller token rest []
  read_next-Smaller token rest (dict_frame f ∷ fs) = on_dict-Smaller token rest f fs f.pending
  read_next-Smaller token rest (list_frame vs ∷ fs) = elim (Bool-cases (token == 101)) [
    | inl ends ↦ rw ends (omega arith)
    | inr goes_on ↦ rw goes_on (on_token-Smaller token rest (list_frame vs ∷ fs))
  ]

  round-Smaller :
      (rest : List ℕ) (fs : List Frame) (o : Option Value)
      → Smaller
          (length rest * 2 + weight o)
          (round encode_text decode_text max_depth use_map allow_unsorted rest fs o)
  unfolding round read_more
  round-Smaller rest fs (some v) = put_value-Smaller encode_text decode_text v rest fs
  round-Smaller [] fs none = tt
  round-Smaller (token ∷ rest) fs none =
      Smaller-le _ _
        (read_next encode_text decode_text max_depth use_map allow_unsorted token rest fs)
        (omega arith) (read_next-Smaller token rest fs)

  after_round-halts :
      (n : ℕ) (go : Decoder → Outcome) (r : Round)
      → Smaller n r
      → ((d : Decoder) → size d < n → go d ≢ out_of_fuel)
      → after_round go r ≢ out_of_fuel
  unfolding after_round
  after_round-halts n go (next d) h ih = ih d h
  after_round-halts n go (finished v rest) h ih = λ e. cc
  after_round-halts n go (thrown e) h ih = λ e. cc

  pub decode_loop-halts :
      (fuel : ℕ) (d : Decoder)
      → size d < fuel
      → decode_loop encode_text decode_text max_depth use_map allow_unsorted fuel d ≢ out_of_fuel
  unfolding decode_loop
  decode_loop-halts zero d h = absurd (omega arith)
  decode_loop-halts (suc fuel) d h =
      after_round-halts (size d)
        (λ d'. decode_loop encode_text decode_text max_depth use_map allow_unsorted fuel d')
        (round encode_text decode_text max_depth use_map allow_unsorted d.rest d.stack d.current)
        (round-Smaller d.rest d.stack d.current)
        (λ d' lt. decode_loop-halts fuel d' (omega (arith, lt)))

  -- On every input the loop of the decoder comes to a value or an error: twice the length of the
  -- input and one is more rounds than it makes.
  pub decode_one-halts :
      (input : List ℕ)
      → decode_one encode_text decode_text max_depth use_map allow_unsorted input ≢ out_of_fuel
  unfolding decode_one
  decode_one-halts input =
      decode_loop-halts (suc (length input * 2))
        (record { rest = input; stack = []; current = none }) (omega arith)
