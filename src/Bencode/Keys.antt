-- ===== src/Bencode/Keys.antt =====
-- Runs over the key of an entry, and the sets of keys and of entries that a frame keeps.
use browsertorrent.Common.{
  ℕ, ◌≤◌, ◌≡◌, ◌≢◌, refl, sym, ap, ◌∙◌, Bool, true, false, not, ◌&&◌, Option, none, some, List, ◌∷◌,
  ◌++◌, ◌==◌, length, arith, Bool-cases, inl, inr, list_eq, list_eq→eq, ok-injective,
}
use browsertorrent.Common.Words.{AllBytes}
use browsertorrent.Handshake.RoundTrip.{DecodesAscii}
use browsertorrent.Hex
use browsertorrent.Hex.{encode_hex}
use browsertorrent.Hex.RoundTrip.{decode_hex-encode_hex}
use browsertorrent.Bencode.{
  Key, text_key, byte_key, Value, Entries, end, entry, max_safe, key_bytes,
}
use browsertorrent.Bencode.Encode.{encode_bytes}
use browsertorrent.Bencode.Decode.{
  Frame, dict_frame, DictFrame, next, key_of, set_entry, same_key, seen, follows,
}
use browsertorrent.Bencode.Loop.{round, read_more, read_next, on_dict, on_key, accept_key}
use browsertorrent.Bencode.Order.{Before, Follows, Follows-trans, Before-not_above, Before-ne}
use browsertorrent.Bencode.Canonical.{IsKey}
use browsertorrent.Bencode.Pieces.{decode_byte_string-encode_bytes}
use browsertorrent.Bencode.Steps.{at, Reaches, Reaches-round}
use browsertorrent.Bencode.Leaves.{encode_bytes-Numbered}

-- Different byte arrays have different fingerprints.
encode_hex-ne :
    (a b : List ℕ) → AllBytes a → AllBytes b → a ≢ b → list_eq (encode_hex a) (encode_hex b) ≡ false
encode_hex-ne a b ha hb ne = elim (Bool-cases (list_eq (encode_hex a) (encode_hex b))) [
  | inl same ↦
      let e = ap Hex.decode_hex (list_eq→eq (encode_hex a) (encode_hex b) same) in
      absurd (ne (ok-injective (sym (decode_hex-encode_hex a ha) ∙ e ∙ decode_hex-encode_hex b hb)))
  | inr other ↦ other
]

-- No key behind the last one is among those that the frame has seen.
abbrev pub Unseen : Option (List ℕ) → List (List ℕ) → Type 0
Unseen o names = (k : List ℕ) → AllBytes k → Follows o k → seen (encode_hex k) names ≡ false

pub Unseen-next :
    (o : Option (List ℕ)) (names : List (List ℕ)) (j : List ℕ)
    → AllBytes j
    → Follows o j
    → Unseen o names
    → Unseen (some j) (encode_hex j ∷ names)
Unseen-next o names j all h unseen k all' before = rw (
  encode_hex-ne j k all all' (Before-ne j k before),
  unseen k all' (Follows-trans o j k h before),
)

-- No entry of the list has the key.
abbrev pub Absent : Key → Entries → Type 0
Absent k end = Unit {0}
Absent k (entry k' v es) = (same_key k' k ≡ false) × Absent k es

abbrev pub append_entry : Entries → Key → Value → Entries
append_entry end k v = entry k v end
append_entry (entry k' v' es) k v = entry k' v' (append_entry es k v)

pub set_entry-Absent :
    (k : Key) (v : Value) (es : Entries) → Absent k es → set_entry k v es ≡ append_entry es k v
unfolding set_entry
set_entry-Absent k v end h = refl
set_entry-Absent k v (entry k' v' es) h = rw (h.0, set_entry-Absent k v es h.1)

Absent-append_entry :
    (j k : Key) (v : Value) (es : Entries)
    → Absent j es
    → same_key k j ≡ false
    → Absent j (append_entry es k v)
Absent-append_entry j k v end h e = (e, tt)
Absent-append_entry j k v (entry k' v' es) h e = (h.0, Absent-append_entry j k v es h.1 e)

same_key-Before :
    (encode_text : List ℕ → List ℕ) (j k : Key)
    → Before (key_bytes encode_text j) (key_bytes encode_text k)
    → same_key j k ≡ false
same_key-Before encode_text (text_key s) (text_key t) h = elim (Bool-cases (list_eq s t)) [
  | inl same ↦ absurd (Before-ne _ _ h (ap encode_text (list_eq→eq s t same)))
  | inr other ↦ other
]
same_key-Before encode_text (text_key s) (byte_key t) h = refl
same_key-Before encode_text (byte_key s) k h = refl

-- No key behind the last one stands in the entries.
abbrev pub Fresh : (List ℕ → List ℕ) → Option (List ℕ) → Entries → Type 0
Fresh encode_text o es = (k : Key) → Follows o (key_bytes encode_text k) → Absent k es

pub Fresh-next :
    (encode_text : List ℕ → List ℕ) (o : Option (List ℕ)) (es : Entries) (j : Key) (v : Value)
    → Follows o (key_bytes encode_text j)
    → Fresh encode_text o es
    → Fresh encode_text (some (key_bytes encode_text j)) (append_entry es j v)
Fresh-next encode_text o es j v h fresh k before =
    Absent-append_entry k j v es (fresh k (Follows-trans o _ _ h before))
      (same_key-Before encode_text j k before)

Follows-follows : (o : Option (List ℕ)) (k : List ℕ) → Follows o k → follows o k ≡ true
Follows-follows none k h = refl
Follows-follows (some p) k h = rw (Before-not_above p k h)

module _ (encode_text decode_text : List ℕ → List ℕ) (ascii : DecodesAscii decode_text)
    (max_depth : ℕ) (use_map allow_unsorted : Bool) where
  key_of-IsKey :
      (k : Key)
      → IsKey encode_text decode_text use_map k
      → key_of encode_text decode_text (key_bytes encode_text k) ≡ k
  key_of-IsKey (text_key t) ((same, clean), named) = rw (same, clean)
  key_of-IsKey (byte_key bs) (binary, mapped) = rw binary

  -- The frame after a key.
  abbrev pub with_key : DictFrame → Key → DictFrame
  with_key f k = record f {
    seen_keys = encode_hex (key_bytes encode_text k) ∷ f.seen_keys;
    previous = some (key_bytes encode_text k);
    pending = some k;
  }

  pub dict_reads_key :
      (k : Key) (rest : List ℕ) (f : DictFrame) (fs : List Frame)
      → IsKey encode_text decode_text use_map k
      → AllBytes (key_bytes encode_text k)
      → length (key_bytes encode_text k) ≤ max_safe
      → f.pending ≡ none
      → Unseen f.previous f.seen_keys
      → Follows f.previous (key_bytes encode_text k)
      → Reaches encode_text decode_text max_depth use_map allow_unsorted
          (at (encode_bytes (key_bytes encode_text k) ++ rest) (dict_frame f ∷ fs) none)
          (at rest (dict_frame (with_key f k) ∷ fs) none)
  dict_reads_key k rest f fs is_key all safe h unseen behind =
      let name : List ℕ = key_bytes encode_text k in
      let s = encode_bytes-Numbered name rest in
      let read =
        rw s.shape at
          (decode_byte_string-encode_bytes encode_text decode_text ascii name rest safe) in
      let not_end : (s.first == 101) ≡ false = ground arith in
      let new' = unseen name all behind in
      let sorted = Follows-follows f.previous name behind in
      let passes : (not allow_unsorted && not (follows f.previous name)) ≡ false =
        rw sorted (ground arith) in
      let takes : accept_key encode_text decode_text max_depth use_map allow_unsorted f fs rest k
          ≡ next (at rest (dict_frame (with_key f k) ∷ fs) none) =
        unfold accept_key in rw (new', passes) in
      let looks : round encode_text decode_text max_depth use_map allow_unsorted
            (s.first ∷ s.others) (dict_frame f ∷ fs) none
          ≡ on_dict encode_text decode_text max_depth use_map allow_unsorted s.first s.others f fs
              none =
        unfold round read_more read_next in
        ap (on_dict encode_text decode_text max_depth use_map allow_unsorted s.first s.others f fs)
          h in
      let step : on_dict encode_text decode_text max_depth use_map allow_unsorted s.first s.others f
            fs none
          ≡ next (at rest (dict_frame (with_key f k) ∷ fs) none) =
        unfold on_dict on_key in rw (not_end, read, key_of-IsKey k is_key) takes in
      rw s.shape (
        Reaches-round encode_text decode_text max_depth use_map allow_unsorted
          (at (s.first ∷ s.others) (dict_frame f ∷ fs) none) _ (looks ∙ step))
