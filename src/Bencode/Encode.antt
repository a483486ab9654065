-- ===== src/Bencode/Encode.antt =====
-- `encode`. A value is a tree here, so that the test for cycles does not appear.
use browsertorrent.Common.{
  ℕ, ◌+◌, Bool, false, not, Option, none, some, List, [], ◌∷◌, ◌++◌, if◌then◌else◌, Result, ok, err,
  ◌>>=◌, ◌>>◌, guard, length, leb,
}
use browsertorrent.Common.Int.{ℤ, pos, negsuc}
use browsertorrent.Bencode.{
  Value, number, bigint, fraction, text, bytes, list, dict, map, Values, nil, cons, Entries, end,
  entry, max_safe, key_bytes, above, same_bytes,
}
use browsertorrent.Bencode.Decimal.{decimal, decimal_int}

-- The `BencodeEncodeError`s.
pub data EncodeError : Type 0 where
  unsafe_integer duplicate_key : EncodeError

-- `Number.isSafeInteger`
abbrev pub is_safe : ℤ → Bool
is_safe (pos n) = leb n max_safe
is_safe (negsuc n) = leb (n + 1) max_safe

unfoldable pub encode_bytes : List ℕ → List ℕ
encode_bytes bs = decimal (length bs) ++ (58 ∷ bs)

unfoldable pub encode_integer : ℤ → List ℕ
encode_integer n = 105 ∷ (decimal_int n ++ (101 ∷ []))

-- An entry with the bytes of its key and what becomes of its value.
abbrev pub Encoded : Type 0
Encoded = List ℕ × Result EncodeError (List ℕ)

-- `entries.sort(…)`, which is stable.
unfoldable pub insert_entry : Encoded → List Encoded → List Encoded
insert_entry e [] = e ∷ []
insert_entry (k, v) ((k', v') ∷ es) =
    let rest = insert_entry (k, v) es in
    if above k k' then (k', v') ∷ rest else (k, v) ∷ (k', v') ∷ es

unfoldable pub sort_entries : List Encoded → List Encoded
sort_entries [] = []
sort_entries (e ∷ es) = insert_entry e (sort_entries es)

abbrev pub repeats : Option (List ℕ) → List ℕ → Bool
repeats none key = false
repeats (some previous) key = same_bytes previous key

-- The loop over the sorted entries, with the key before.
unfoldable pub write_entries : Option (List ℕ) → List Encoded → Result EncodeError (List ℕ)
write_entries previous [] = ok []
write_entries previous ((k, v) ∷ es) = do
  guard (not (repeats previous k)) duplicate_key
  item ← v
  rest ← write_entries (some k) es
  ok (encode_bytes k ++ (item ++ rest))

-- `_encodeDict` and `_encodeDictFromRecord`, once the keys are bytes.
unfoldable pub encode_sorted : List Encoded → Result EncodeError (List ℕ)
encode_sorted es = do body ← write_entries none (sort_entries es); ok (100 ∷ (body ++ (101 ∷ [])))

module _ (encode_text : List ℕ → List ℕ) where
  unfoldable mutual
    -- `_encodeValue`
    pub encode : Value → Result EncodeError (List ℕ)
    encode (number n) = if is_safe n then ok (encode_integer n) else err unsafe_integer
    encode (bigint n) = ok (encode_integer n)
    encode fraction = err unsafe_integer
    encode (text t) = ok (encode_bytes (encode_text t))
    encode (bytes bs) = ok (encode_bytes bs)
    encode (list vs) = do body ← encode_values vs; ok (108 ∷ (body ++ (101 ∷ [])))
    encode (dict es) = encode_sorted (encode_entries es)
    encode (map es) = encode_sorted (encode_entries es)

    pub encode_values : Values → Result EncodeError (List ℕ)
    encode_values nil = ok []
    encode_values (cons v vs) = do first ← encode v; rest ← encode_values vs; ok (first ++ rest)

    pub encode_entries : Entries → List Encoded
    encode_entries end = []
    encode_entries (entry k v es) = (key_bytes encode_text k, encode v) ∷ encode_entries es
