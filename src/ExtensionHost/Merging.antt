-- ===== src/ExtensionHost/Merging.antt =====
-- A further handshake of the peer adds to what it announced before.
use browsertorrent.Common.{
  ℕ, ◌≡◌, refl, sym, ap, ◌∙◌, inl, inr, false, Option, none, some, List, [], ◌∷◌, if◌then◌else◌,
  Result, ok, err, >>=-eq-ok, ok-injective, list_eq, list_eq→eq, ◌==◌, Bool-cases,
}
use mathlib.Core.Path.{subst}
use browsertorrent.Bencode.{
  text_key, byte_key, Value, number, bigint, fraction, text, bytes, list, dict, map, Entries, end,
  entry,
}
use browsertorrent.Bencode.Decode.{DecodeError}
use browsertorrent.Bencode.Loop.{decode}
use browsertorrent.ExtensionHost.{lookup, put_id, remove_id, ExtendedHandshake}
use browsertorrent.ExtensionHost.Parsing.{
  get_entry, mapping_id, read_mapping, mapping_of, read_handshake, handshake_of,
  decode_extended_handshake, name_m, name_v, name_p, name_reqq, name_metadata_size, name_yourip,
  name_ipv4, name_ipv6, optional_string, optional_integer, optional_bytes, handshake_decode_options,
}
use browsertorrent.ExtensionHost.Host.{merge_ids}
use browsertorrent.ExtensionHost.Names.{
  HasDistinct, lookup-put_id_self, lookup-put_id_ne, lookup-remove_id_ne, lookup-remove_id_self,
  put_id-HasDistinct, remove_id-HasDistinct,
}

-- What is known of a name after a handshake that says `said` of it.
abbrev pub latest : Option ℕ → Option ℕ → Option ℕ
latest none before = before
latest (some id) before = if id == 0 then none else some id

abbrev merged_one : List ℕ → ℕ → List (List ℕ × ℕ) → List (List ℕ × ℕ)
merged_one name id ids = if id == 0 then remove_id name ids else put_id name id ids

merged_one-HasDistinct :
    (name : List ℕ) (id : ℕ) (ids : List (List ℕ × ℕ))
    → HasDistinct ids
    → HasDistinct (merged_one name id ids)
merged_one-HasDistinct name id ids h = elim (Bool-cases (id == 0)) [
  | inl e ↦ rw e (remove_id-HasDistinct name ids h)
  | inr e ↦ rw e (put_id-HasDistinct name id ids h)
]

lookup-merged_one_self :
    (name : List ℕ) (id : ℕ) (ids : List (List ℕ × ℕ)) (before : Option ℕ)
    → HasDistinct ids
    → lookup name (merged_one name id ids) ≡ latest (some id) before
lookup-merged_one_self name id ids before h = elim (Bool-cases (id == 0)) [
  | inl e ↦ rw e (lookup-remove_id_self name ids h)
  | inr e ↦ rw e (lookup-put_id_self name id ids)
]

lookup-merged_one_ne :
    (name other : List ℕ) (id : ℕ) (ids : List (List ℕ × ℕ))
    → list_eq name other ≡ false
    → lookup other (merged_one name id ids) ≡ lookup other ids
lookup-merged_one_ne name other id ids h = elim (Bool-cases (id == 0)) [
  | inl e ↦ rw e (lookup-remove_id_ne name other ids h)
  | inr e ↦ rw e (lookup-put_id_ne name other id ids h)
]

pub merge_ids-HasDistinct :
    (new old : List (List ℕ × ℕ)) → HasDistinct old → HasDistinct (merge_ids new old)
unfolding merge_ids
merge_ids-HasDistinct [] old h = h
merge_ids-HasDistinct ((name, id) ∷ more) old h =
    merge_ids-HasDistinct more (merged_one name id old) (merged_one-HasDistinct name id old h)

pub lookup-merge_ids :
    (other : List ℕ) (new old : List (List ℕ × ℕ))
    → HasDistinct new
    → HasDistinct old
    → lookup other (merge_ids new old) ≡ latest (lookup other new) (lookup other old)
unfolding merge_ids
lookup-merge_ids other [] old h k = unfold lookup in refl
lookup-merge_ids other ((name, id) ∷ more) old h k =
    let rest =
      lookup-merge_ids other more (merged_one name id old) h.1
        (merged_one-HasDistinct name id old k) in
    elim (Bool-cases (list_eq name other)) [
      | inl e ↦
          let same : name ≡ other = list_eq→eq name other e in
          let gone : lookup other more ≡ none = ap (λ x. lookup x more) (sym same) ∙ h.0 in
          let here : lookup other ((name, id) ∷ more) ≡ some id = unfold lookup in rw e refl in
          rest
          ∙ ap (λ x. latest x (lookup other (merged_one name id old))) gone
          ∙ ap (λ x. lookup x (merged_one name id old)) (sym same)
          ∙ lookup-merged_one_self name id old (lookup other old) k
          ∙ ap (λ x. latest x (lookup other old)) (sym here)
      | inr e ↦
          let there : lookup other ((name, id) ∷ more) ≡ lookup other more =
            unfold lookup in rw e refl in
          rest
          ∙ ap (latest (lookup other more)) (lookup-merged_one_ne name other id old e)
          ∙ ap (λ x. latest x (lookup other old)) (sym there)
    ]

read_mapping-HasDistinct :
    (es : Entries) (ids out : List (List ℕ × ℕ))
    → HasDistinct ids
    → read_mapping es ids ≡ ok out
    → HasDistinct out
unfolding read_mapping
read_mapping-HasDistinct end ids out h e = subst HasDistinct (ok-injective e) h
read_mapping-HasDistinct (entry (text_key name) v es) ids out h e =
    let (id, q, e1) = >>=-eq-ok (mapping_id v) _ e in
    read_mapping-HasDistinct es (put_id name id ids) out (put_id-HasDistinct name id ids h) e1
read_mapping-HasDistinct (entry (byte_key bs) v es) ids out h e = absurd (let x = e in cc)

mapping_of-HasDistinct :
    (o : Option Value) (out : List (List ℕ × ℕ)) → mapping_of o ≡ ok out → HasDistinct out
mapping_of-HasDistinct none out e = subst HasDistinct (ok-injective e) tt
mapping_of-HasDistinct (some (map es)) out e = read_mapping-HasDistinct es [] out tt e
mapping_of-HasDistinct (some (number n)) out e = absurd (let x = e in cc)
mapping_of-HasDistinct (some (bigint n)) out e = absurd (let x = e in cc)
mapping_of-HasDistinct (some fraction) out e = absurd (let x = e in cc)
mapping_of-HasDistinct (some (text t)) out e = absurd (let x = e in cc)
mapping_of-HasDistinct (some (bytes bs)) out e = absurd (let x = e in cc)
mapping_of-HasDistinct (some (list vs)) out e = absurd (let x = e in cc)
mapping_of-HasDistinct (some (dict es)) out e = absurd (let x = e in cc)

module _ (encode_text decode_text : List ℕ → List ℕ) where
  read_handshake-HasDistinct :
      (es : Entries) (x : ExtendedHandshake)
      → read_handshake encode_text es ≡ ok x
      → HasDistinct x.extensions
  unfolding read_handshake
  read_handshake-HasDistinct es x e =
      let (ids, q, e1) = >>=-eq-ok (mapping_of (get_entry name_m es)) _ e in
      let (a1, q1, e2) = >>=-eq-ok (optional_string (get_entry name_v es)) _ e1 in
      let (a2, q2, e3) = >>=-eq-ok (optional_integer 65535 (get_entry name_p es)) _ e2 in
      let (a3, q3, e4) = >>=-eq-ok (optional_integer 4294967295 (get_entry name_reqq es)) _ e3 in
      let (a4, q4, e5) =
        >>=-eq-ok (optional_integer 4294967295 (get_entry name_metadata_size es)) _ e4 in
      let (a5, q5, e6) = >>=-eq-ok (optional_bytes encode_text (get_entry name_yourip es)) _ e5 in
      let (a6, q6, e7) = >>=-eq-ok (optional_bytes encode_text (get_entry name_ipv4 es)) _ e6 in
      let (a7, q7, e8) = >>=-eq-ok (optional_bytes encode_text (get_entry name_ipv6 es)) _ e7 in
      subst (λ y. HasDistinct y.extensions) (ok-injective e8)
        (mapping_of-HasDistinct (get_entry name_m es) ids q)

  pub decode_extended_handshake-HasDistinct :
      (payload : List ℕ) (x : ExtendedHandshake)
      → decode_extended_handshake encode_text decode_text payload ≡ ok x
      → HasDistinct x.extensions
  unfolding decode_extended_handshake
  decode_extended_handshake-HasDistinct payload x =
      by_value (decode encode_text decode_text handshake_decode_options payload)
    where
      by_value :
          (o : Result DecodeError Value)
          → handshake_of encode_text o ≡ ok x
          → HasDistinct x.extensions
      by_value (err q) e = absurd (let y = e in cc)
      by_value (ok (map es)) e = read_handshake-HasDistinct es x e
      by_value (ok (number n)) e = absurd (let y = e in cc)
      by_value (ok (bigint n)) e = absurd (let y = e in cc)
      by_value (ok fraction) e = absurd (let y = e in cc)
      by_value (ok (text t)) e = absurd (let y = e in cc)
      by_value (ok (bytes bs)) e = absurd (let y = e in cc)
      by_value (ok (list vs)) e = absurd (let y = e in cc)
      by_value (ok (dict es)) e = absurd (let y = e in cc)
