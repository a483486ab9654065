-- ===== src/Bencode/Containers.antt =====
-- Runs over an entry of a dictionary and over a container whose body is read.
use browsertorrent.Common.{
  ℕ, ◌≤◌, ◌<◌, ◌≡◌, refl, Bool, true, false, Option, none, some, List, [], ◌∷◌, ◌++◌, length,
}
use mathlib.Core.List.{append_assoc}
use browsertorrent.Common.Words.{AllBytes}
use browsertorrent.Handshake.RoundTrip.{DecodesAscii}
use browsertorrent.Bencode.{
  Key, text_key, byte_key, Value, list, Values, nil, Entries, max_safe, key_bytes,
}
use browsertorrent.Bencode.Encode.{encode_bytes}
use browsertorrent.Bencode.Decode.{Frame, list_frame, dict_frame, DictFrame, store}
use browsertorrent.Bencode.Loop.{new_dict}
use browsertorrent.Bencode.Order.{Follows}
use browsertorrent.Bencode.Canonical.{IsKey}
use browsertorrent.Bencode.Parts.{dictionary}
use browsertorrent.Bencode.Steps.{at, Reaches, Reaches-trans}
use browsertorrent.Bencode.Leaves.{ReadsValue, list_opens, dict_opens, dict_takes}
use browsertorrent.Bencode.Keys.{
  Absent, append_entry, set_entry-Absent, Unseen, Unseen-next, Fresh, Fresh-next, with_key,
  dict_reads_key,
}

store-IsKey :
    (encode_text decode_text : List ℕ → List ℕ) (use_map : Bool) (k : Key) (v : Value)
    (es : Entries)
    → IsKey encode_text decode_text use_map k
    → Absent k es
    → store encode_text decode_text use_map k v es ≡ append_entry es k v
store-IsKey encode_text decode_text true k v es is_key h = set_entry-Absent k v es h
store-IsKey encode_text decode_text false (text_key t) v es is_key h =
    let named = is_key.1 refl in rw named (set_entry-Absent (text_key t) v es h)
store-IsKey encode_text decode_text false (byte_key bs) v es (binary, mapped) h = cc

module _ (encode_text decode_text : List ℕ → List ℕ) (ascii : DecodesAscii decode_text)
    (max_depth : ℕ) (use_map allow_unsorted : Bool) where
  abbrev pub Runs : List ℕ → List Frame → Option Value → List ℕ → List Frame → Option Value → Type 0
  Runs bs fs o bs' fs' o' =
      Reaches encode_text decode_text max_depth use_map allow_unsorted (at bs fs o) (at bs' fs' o')

  -- The frame after an entry.
  abbrev pub with_entry : DictFrame → Key → Value → DictFrame
  with_entry f k v =
      record (with_key encode_text decode_text ascii max_depth use_map allow_unsorted f k) {
        entries = append_entry f.entries k v;
        pending = none;
      }

  -- What a frame has between two entries.
  abbrev pub Between : DictFrame → Type 0
  Between f =
      (f.pending ≡ none)
      × (f.use_map ≡ use_map)
      × Unseen f.previous f.seen_keys
      × Fresh encode_text f.previous f.entries

  pub entry-Runs :
      (k : Key) (v : Value) (item rest : List ℕ) (f : DictFrame) (fs : List Frame)
      → IsKey encode_text decode_text use_map k
      → AllBytes (key_bytes encode_text k)
      → length (key_bytes encode_text k) ≤ max_safe
      → Follows f.previous (key_bytes encode_text k)
      → Between f
      → ((g : DictFrame)
          → g.pending ≡ some k
          → Runs (item ++ rest) (dict_frame g ∷ fs) none rest (dict_frame g ∷ fs) (some v))
      → Runs
          (encode_bytes (key_bytes encode_text k) ++ (item ++ rest))
          (dict_frame f ∷ fs)
          none
          rest
          (dict_frame (with_entry f k v) ∷ fs)
          none
  entry-Runs k v item rest f fs is_key all safe behind (idle, kind, unseen, fresh) value_run =
      let keyed : DictFrame =
        with_key encode_text decode_text ascii max_depth use_map allow_unsorted f k in
      let stored : store encode_text decode_text f.use_map k v f.entries
          ≡ append_entry f.entries k v =
        rw kind
          (store-IsKey encode_text decode_text use_map k v f.entries is_key (fresh k behind)) in
      let takes : Runs rest (dict_frame keyed ∷ fs) (some v) rest
          (dict_frame (with_entry f k v) ∷ fs) none =
        rw stored at (
          dict_takes encode_text decode_text ascii max_depth use_map allow_unsorted v k rest keyed
            fs refl) in
      Reaches-trans encode_text decode_text max_depth use_map allow_unsorted _ _ _
        (dict_reads_key encode_text decode_text ascii max_depth use_map allow_unsorted k
          (item ++ rest) f fs is_key all safe idle unseen behind)
        (Reaches-trans encode_text decode_text max_depth use_map allow_unsorted _ _ _
          (value_run keyed refl) takes)

  pub with_entry-Between :
      (f : DictFrame) (k : Key) (v : Value)
      → AllBytes (key_bytes encode_text k)
      → Follows f.previous (key_bytes encode_text k)
      → Between f
      → Between (with_entry f k v)
  with_entry-Between f k v all behind (idle, kind, unseen, fresh) = (
    refl,
    kind,
    Unseen-next f.previous f.seen_keys (key_bytes encode_text k) all behind unseen,
    Fresh-next encode_text f.previous f.entries k v behind fresh,
  )

  -- A container whose body is read.
  pub list-Runs :
      (vs : Values) (body rest : List ℕ) (fs : List Frame)
      → ReadsValue fs
      → length fs < max_depth
      → Runs (body ++ (101 ∷ rest)) (list_frame nil ∷ fs) none rest fs (some (list vs))
      → Runs ((108 ∷ (body ++ (101 ∷ []))) ++ rest) fs none rest fs (some (list vs))
  list-Runs vs body rest fs reads shallow run = rw (append_assoc body (101 ∷ []) rest) (
      Reaches-trans encode_text decode_text max_depth use_map allow_unsorted _ _ _
        (list_opens encode_text decode_text ascii max_depth use_map allow_unsorted
          (body ++ (101 ∷ rest)) fs reads shallow)
        run)

  pub dict-Runs :
      (es : Entries) (body rest : List ℕ) (fs : List Frame)
      → ReadsValue fs
      → length fs < max_depth
      → Runs
          (body ++ (101 ∷ rest))
          (new_dict use_map ∷ fs)
          none
          rest
          fs
          (some (dictionary use_map es))
      → Runs ((100 ∷ (body ++ (101 ∷ []))) ++ rest) fs none rest fs (some (dictionary use_map es))
  dict-Runs es body rest fs reads shallow run = rw (append_assoc body (101 ∷ []) rest) (
      Reaches-trans encode_text decode_text max_depth use_map allow_unsorted _ _ _
        (dict_opens encode_text decode_text ascii max_depth use_map allow_unsorted
          (body ++ (101 ∷ rest)) fs reads shallow)
        run)
