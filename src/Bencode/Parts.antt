-- ===== src/Bencode/Parts.antt =====
-- The output of the encoder taken apart, and the lists and dictionaries that the decoder builds.
use browsertorrent.Common.{
  ℕ, ◌≡◌, refl, sym, ap, Bool, not, Option, none, some, List, [], ◌∷◌, ◌++◌, if◌then◌else◌, ok,
  >>=-eq-ok, ok-injective, guard,
}
use browsertorrent.Bencode.{
  Key, Value, list, dict, map, Values, nil, cons, Entries, end, entry, key_bytes,
}
use browsertorrent.Bencode.Encode.{
  encode_bytes, Encoded, encode, encode_values, encode_entries, encode_sorted, sort_entries,
  write_entries, repeats, duplicate_key,
}
use browsertorrent.Bencode.Decode.{push_value}
use browsertorrent.Bencode.Order.{Ascending, sort_entries-Ascending}
use browsertorrent.Bencode.Canonical.{CanonicalEntries}
use browsertorrent.Bencode.Keys.{append_entry}

abbrev pub concat : Values → Values → Values
concat nil ws = ws
concat (cons v vs) ws = cons v (concat vs ws)

pub concat-push_value :
    (vs ws : Values) (v : Value) → concat (push_value vs v) ws ≡ concat vs (cons v ws)
unfolding push_value
concat-push_value nil ws v = refl
concat-push_value (cons u us) ws v = ap (cons u) (concat-push_value us ws v)

abbrev pub concat_entries : Entries → Entries → Entries
concat_entries end es = es
concat_entries (entry k v ds) es = entry k v (concat_entries ds es)

pub concat-nil : (vs : Values) → concat vs nil ≡ vs
concat-nil nil = refl
concat-nil (cons v vs) = ap (cons v) (concat-nil vs)

pub concat_entries-end : (es : Entries) → concat_entries es end ≡ es
concat_entries-end end = refl
concat_entries-end (entry k v es) = ap (entry k v) (concat_entries-end es)

pub concat_entries-append_entry :
    (ds es : Entries) (k : Key) (v : Value)
    → concat_entries (append_entry ds k v) es ≡ concat_entries ds (entry k v es)
concat_entries-append_entry end es k v = refl
concat_entries-append_entry (entry k' v' ds) es k v =
    ap (entry k' v') (concat_entries-append_entry ds es k v)

-- The dictionary of the kind that is asked for.
abbrev pub dictionary : Bool → Entries → Value
dictionary use_map es = if use_map then map es else dict es

-- What the encoder returned, taken apart.
module _ (encode_text : List ℕ → List ℕ) where
  pub encode_list-eq-ok :
      (vs : Values) (out : List ℕ)
      → encode encode_text (list vs) ≡ ok out
      → (body : List ℕ) × (encode_values encode_text vs ≡ ok body)
        × (out ≡ 108 ∷ (body ++ (101 ∷ [])))
  unfolding encode encode_values
  encode_list-eq-ok vs out h =
      let (body, e, r) = >>=-eq-ok (encode_values encode_text vs) _ h in
      (body, e, sym (ok-injective r))

  pub encode_values-eq-ok :
      (v : Value) (vs : Values) (out : List ℕ)
      → encode_values encode_text (cons v vs) ≡ ok out
      → (first rest : List ℕ) × (encode encode_text v ≡ ok first)
        × (encode_values encode_text vs ≡ ok rest)
        × (out ≡ first ++ rest)
  unfolding encode encode_values
  encode_values-eq-ok v vs out h =
      let (first, e, r) = >>=-eq-ok (encode encode_text v) _ h in
      let (rest, e', r') = >>=-eq-ok (encode_values encode_text vs) _ r in
      (first, rest, e, e', sym (ok-injective r'))

  pub write_entries-eq-ok :
      (o : Option (List ℕ)) (k : Key) (v : Value) (es : Entries) (out : List ℕ)
      → write_entries o (encode_entries encode_text (entry k v es)) ≡ ok out
      → (item rest : List ℕ) × (encode encode_text v ≡ ok item)
        × (write_entries (some (key_bytes encode_text k)) (encode_entries encode_text es) ≡ ok rest)
        × (out ≡ encode_bytes (key_bytes encode_text k) ++ (item ++ rest))
  unfolding encode encode_entries write_entries
  write_entries-eq-ok o k v es out h =
      let name : List ℕ = key_bytes encode_text k in
      let (u, g, r) = >>=-eq-ok (guard (not (repeats o name)) duplicate_key) _ h in
      let (item, e, r') = >>=-eq-ok (encode encode_text v) _ r in
      let (rest, e', r'') =
        >>=-eq-ok (write_entries (some name) (encode_entries encode_text es)) _ r' in
      (item, rest, e, e', sym (ok-injective r''))

  pub encode_sorted-eq-ok :
      (o : Option (List ℕ)) (es : List Encoded) (out : List ℕ)
      → Ascending o es
      → encode_sorted es ≡ ok out
      → (body : List ℕ) × (write_entries none es ≡ ok body) × (out ≡ 100 ∷ (body ++ (101 ∷ [])))
  unfolding encode_sorted
  encode_sorted-eq-ok o es out sorted h =
      let same = sort_entries-Ascending o es sorted in
      let (body, e, r) = >>=-eq-ok (write_entries none (sort_entries es)) _ h in
      (body, rw same at e, sym (ok-injective r))

module _ (encode_text decode_text : List ℕ → List ℕ) (use_map : Bool) where
  pub CanonicalEntries-Ascending :
      (o : Option (List ℕ)) (es : Entries)
      → CanonicalEntries encode_text decode_text use_map o es
      → Ascending o (encode_entries encode_text es)
  unfolding CanonicalEntries encode_entries
  CanonicalEntries-Ascending o end h = tt
  CanonicalEntries-Ascending o (entry k v es) (is_key, all, safe, behind, c, cs) =
      (behind, CanonicalEntries-Ascending (some (key_bytes encode_text k)) es cs)
