-- ===== src/Bencode/RoundTrip.antt =====
-- What `encode` writes for a canonical value is decoded to the value.
use browsertorrent.Common.{
  ℕ, suc, ◌+◌, ◌≤◌, ◌<◌, ◌≡◌, refl, sym, ap, ◌∙◌, Bool, Option, none, some, List, [], ◌∷◌, ◌++◌, ok,
  ok-injective, length, arith,
}
use mathlib.Core.List.{append_assoc}
use browsertorrent.Common.Int.{ℤ}
use browsertorrent.Handshake.RoundTrip.{DecodesAscii}
use browsertorrent.Bencode.{
  Value, number, bigint, fraction, text, bytes, list, dict, map, Values, nil, cons, Entries, end,
  entry, max_safe, key_bytes,
}
use browsertorrent.Bencode.Encode.{
  encode_bytes, encode_integer, encode, encode_values, encode_entries, encode_sorted, write_entries,
}
use browsertorrent.Bencode.Decode.{Frame, list_frame, dict_frame, DictFrame, push_value, value_of}
use browsertorrent.Bencode.Loop.{new_dict, dict_value}
use browsertorrent.Bencode.Pieces.{integer_value}
use browsertorrent.Bencode.Canonical.{
  depth, depth_values, depth_entries, Canonical, CanonicalValues, CanonicalEntries,
}
use browsertorrent.Bencode.Parts.{
  concat, concat-nil, concat-push_value, concat_entries, concat_entries-end,
  concat_entries-append_entry, dictionary, encode_list-eq-ok, encode_values-eq-ok,
  write_entries-eq-ok, encode_sorted-eq-ok, CanonicalEntries-Ascending,
}
use browsertorrent.Bencode.Steps.{at, Reaches-trans}
use browsertorrent.Bencode.Leaves.{
  ReadsValue, integer-Runs, bytes-Runs, list_closes, list_takes, dict_closes,
}
use browsertorrent.Bencode.Containers.{
  Runs, Between, with_entry, entry-Runs, with_entry-Between, list-Runs, dict-Runs,
}

module _ (encode_text decode_text : List ℕ → List ℕ) (ascii : DecodesAscii decode_text)
    (max_depth : ℕ) (use_map allow_unsorted : Bool) where
  abbrev Reads : List ℕ → List Frame → Option Value → List ℕ → List Frame → Option Value → Type 0
  Reads = Runs encode_text decode_text ascii max_depth use_map allow_unsorted

  integer-Reads :
      (n : ℤ) (v : Value) (out rest : List ℕ) (fs : List Frame)
      → ReadsValue fs
      → integer_value n ≡ v
      → out ≡ encode_integer n
      → Reads (out ++ rest) fs none rest fs (some v)
  integer-Reads n v out rest fs reads same shape = rw shape (
      rw same at (
        integer-Runs encode_text decode_text ascii max_depth use_map allow_unsorted n rest fs
          reads))

  bytes-Reads :
      (bs : List ℕ) (v : Value) (out rest : List ℕ) (fs : List Frame)
      → ReadsValue fs
      → length bs ≤ max_safe
      → value_of encode_text decode_text bs ≡ v
      → out ≡ encode_bytes bs
      → Reads (out ++ rest) fs none rest fs (some v)
  bytes-Reads bs v out rest fs reads safe same shape = rw shape (
      rw same at (
        bytes-Runs encode_text decode_text ascii max_depth use_map allow_unsorted bs rest fs reads
          safe))

  leaf-Reads :
      (v : Value) (out rest : List ℕ) (fs : List Frame)
      → Canonical encode_text decode_text use_map v
      → depth v ≡ 0
      → ReadsValue fs
      → encode encode_text v ≡ ok out
      → Reads (out ++ rest) fs none rest fs (some v)
  unfolding Canonical encode depth
  leaf-Reads (number n) out rest fs safe flat reads e =
      let shape : out ≡ encode_integer n = sym (ok-injective (rw safe at e)) in
      integer-Reads n (number n) out rest fs reads (rw safe) shape
  leaf-Reads (bigint n) out rest fs c flat reads e =
      integer-Reads n (bigint n) out rest fs reads (rw c) (sym (ok-injective e))
  leaf-Reads fraction out rest fs c flat reads e = absurd c
  leaf-Reads (text t) out rest fs ((same, clean), safe) flat reads e =
      bytes-Reads (encode_text t) (text t) out rest fs reads safe (rw (same, clean))
        (sym (ok-injective e))
  leaf-Reads (bytes bs) out rest fs (binary, safe) flat reads e =
      bytes-Reads bs (bytes bs) out rest fs reads safe (rw binary) (sym (ok-injective e))
  leaf-Reads (list vs) out rest fs c flat reads e = absurd (omega (arith, flat))
  leaf-Reads (dict es) out rest fs c flat reads e = absurd (omega (arith, flat))
  leaf-Reads (map es) out rest fs c flat reads e = absurd (omega (arith, flat))

  abbrev first_frame : DictFrame
  first_frame = record {
    entries = end;
    seen_keys = [];
    previous = none;
    pending = none;
    use_map = use_map;
  }

  new_dict-Between :
      Between encode_text decode_text ascii max_depth use_map allow_unsorted first_frame
  new_dict-Between = (refl, refl, (λ k all behind. refl), (λ k behind. tt))

  then-Reads :
      (bs bs' bs'' : List ℕ) (fs fs' fs'' : List Frame) (o o' o'' : Option Value)
      → Reads bs fs o bs' fs' o'
      → Reads bs' fs' o' bs'' fs'' o''
      → Reads bs fs o bs'' fs'' o''
  then-Reads bs bs' bs'' fs fs' fs'' o o' o'' =
      Reaches-trans encode_text decode_text max_depth use_map allow_unsorted (at bs fs o)
        (at bs' fs' o') (at bs'' fs'' o'')

  as_value :
      (v w : Value) (bs rest : List ℕ) (fs fs' : List Frame)
      → v ≡ w
      → Reads bs fs none rest fs' (some v)
      → Reads bs fs none rest fs' (some w)
  as_value v w bs rest fs fs' same run = rw same at run

  dictionary-Reads :
      (es : Entries) (out rest : List ℕ) (fs : List Frame)
      → CanonicalEntries encode_text decode_text use_map none es
      → length fs < max_depth
      → ReadsValue fs
      → encode_sorted (encode_entries encode_text es) ≡ ok out
      → ((body : List ℕ)
          → write_entries none (encode_entries encode_text es) ≡ ok body
          → Reads
              (body ++ (101 ∷ rest))
              (new_dict use_map ∷ fs)
              none
              rest
              fs
              (some (dictionary use_map es)))
      → Reads (out ++ rest) fs none rest fs (some (dictionary use_map es))
  dictionary-Reads es out rest fs c shallow reads e run =
      let (body, written, shape) =
        encode_sorted-eq-ok encode_text none (encode_entries encode_text es) out
          (CanonicalEntries-Ascending encode_text decode_text use_map none es c) e in
      rw shape (
        dict-Runs encode_text decode_text ascii max_depth use_map allow_unsorted es body rest fs
          reads shallow (run body written))

  mutual
    unfolding Canonical encode depth write_entries

    pub value-Reads :
        (v : Value) (out rest : List ℕ) (fs : List Frame)
        → Canonical encode_text decode_text use_map v
        → length fs + depth v ≤ max_depth
        → ReadsValue fs
        → encode encode_text v ≡ ok out
        → Reads (out ++ rest) fs none rest fs (some v)
    value-Reads (number n) out rest fs c h reads e =
        leaf-Reads (number n) out rest fs c refl reads e
    value-Reads (bigint n) out rest fs c h reads e =
        leaf-Reads (bigint n) out rest fs c refl reads e
    value-Reads fraction out rest fs c h reads e = leaf-Reads fraction out rest fs c refl reads e
    value-Reads (text t) out rest fs c h reads e = leaf-Reads (text t) out rest fs c refl reads e
    value-Reads (bytes bs) out rest fs c h reads e =
        leaf-Reads (bytes bs) out rest fs c refl reads e
    value-Reads (list vs) out rest fs c h reads e =
        let (body, written, shape) = encode_list-eq-ok encode_text vs out e in
        rw shape (
          list-Runs encode_text decode_text ascii max_depth use_map allow_unsorted vs body rest fs
            reads (omega (arith, h)) (values_read vs nil body rest fs c (omega (arith, h)) written))
    value-Reads (dict es) out rest fs (kind, c) h reads e =
        as_value (dictionary use_map es) (dict es) (out ++ rest) rest fs fs (rw kind) (
          dictionary-Reads es out rest fs c (omega (arith, h)) reads e (λ body written.
            entries_read es body rest first_frame fs c (omega (arith, h)) new_dict-Between written))
    value-Reads (map es) out rest fs (kind, c) h reads e =
        as_value (dictionary use_map es) (map es) (out ++ rest) rest fs fs (rw kind) (
          dictionary-Reads es out rest fs c (omega (arith, h)) reads e (λ body written.
            entries_read es body rest first_frame fs c (omega (arith, h)) new_dict-Between written))

    values_read :
        (vs acc : Values) (out rest : List ℕ) (fs : List Frame)
        → CanonicalValues encode_text decode_text use_map vs
        → suc (length fs) + depth_values vs ≤ max_depth
        → encode_values encode_text vs ≡ ok out
        → Reads
            (out ++ (101 ∷ rest))
            (list_frame acc ∷ fs)
            none
            rest
            fs
            (some (list (concat acc vs)))
    values_read nil acc out rest fs c h e =
        rw (sym (ok-injective e), concat-nil acc)
          (list_closes encode_text decode_text ascii max_depth use_map allow_unsorted rest acc fs)
    values_read (cons v vs) acc out rest fs (c, cs) h e =
        let (first, later, e1, e2, shape) = encode_values-eq-ok encode_text v vs out e in
        let all_bytes : List ℕ = later ++ (101 ∷ rest) in
        let start =
          value-Reads v first all_bytes (list_frame acc ∷ fs) c (omega (arith, h)) tt e1 in
        let takes =
          list_takes encode_text decode_text ascii max_depth use_map allow_unsorted v all_bytes acc
            fs in
        let onward = values_read vs (push_value acc v) later rest fs cs (omega (arith, h)) e2 in
        rw (shape, append_assoc first later (101 ∷ rest))
          (then-Reads _ _ _ _ _ _ _ _ _ start
            (then-Reads _ _ _ _ _ _ _ _ _ takes (rw (concat-push_value acc vs v) at onward)))

    entries_read :
        (es : Entries) (out rest : List ℕ) (f : DictFrame) (fs : List Frame)
        → CanonicalEntries encode_text decode_text use_map f.previous es
        → suc (length fs) + depth_entries es ≤ max_depth
        → Between encode_text decode_text ascii max_depth use_map allow_unsorted f
        → write_entries f.previous (encode_entries encode_text es) ≡ ok out
        → Reads
            (out ++ (101 ∷ rest))
            (dict_frame f ∷ fs)
            none
            rest
            fs
            (some (dictionary use_map (concat_entries f.entries es)))
    entries_read end out rest f fs c h (idle, kind, unseen, fresh) e =
        let closes =
          dict_closes encode_text decode_text ascii max_depth use_map allow_unsorted rest f fs
            idle in
        let built : dict_value f ≡ dictionary use_map f.entries = rw kind in
        rw (sym (ok-injective e), concat_entries-end f.entries)
          (as_value (dict_value f) (dictionary use_map f.entries) (101 ∷ rest) rest
            (dict_frame f ∷ fs) fs built closes)
    entries_read (entry k v es) out rest f fs (is_key, all, safe, behind, c, cs) h between e =
        let (item, later, e1, e2, shape) =
          write_entries-eq-ok encode_text f.previous k v es out e in
        let name : List ℕ = key_bytes encode_text k in
        let all_bytes : List ℕ = later ++ (101 ∷ rest) in
        let start =
          entry-Runs encode_text decode_text ascii max_depth use_map allow_unsorted k v item
            all_bytes f fs is_key all safe behind between
            (λ g pending.
              value-Reads v item all_bytes (dict_frame g ∷ fs) c (omega (arith, h)) (k, pending)
                e1) in
        let g : DictFrame =
          with_entry encode_text decode_text ascii max_depth use_map allow_unsorted f k v in
        let onward =
          entries_read es later rest g fs cs (omega (arith, h))
            (with_entry-Between encode_text decode_text ascii max_depth use_map allow_unsorted f k v
              all behind between)
            e2 in
        let joined : (encode_bytes name ++ (item ++ later)) ++ (101 ∷ rest)
            ≡ encode_bytes name ++ (item ++ all_bytes) =
          append_assoc (encode_bytes name) (item ++ later) (101 ∷ rest)
          ∙ ap (λ t. encode_bytes name ++ t) (append_assoc item later (101 ∷ rest)) in
        rw (shape, joined)
          (then-Reads _ _ _ _ _ _ _ _ _ start
            (rw (concat_entries-append_entry f.entries es k v) at onward))
