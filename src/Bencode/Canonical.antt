-- ===== src/Bencode/Canonical.antt =====
-- The values that the decoder gives back as they were encoded.
use browsertorrent.Common.{
  ℕ, suc, ◌≤◌, ◌≡◌, Bool, true, false, List, Option, none, some, length, list_eq,
}
use browsertorrent.Common.Words.{AllBytes}
use browsertorrent.Bencode.{
  Key, text_key, byte_key, Value, number, bigint, fraction, text, bytes, list, dict, map, Values,
  nil, cons, Entries, end, entry, max_safe, key_bytes,
}
use browsertorrent.Bencode.Encode.{is_safe}
use browsertorrent.Bencode.Decode.{looks_binary, proto_name}
use browsertorrent.Bencode.Order.{Follows}
use Prim.Native.Nat.{max}

-- The containers inside one another.
unfoldable mutual
  pub depth : Value → ℕ
  depth (list vs) = suc (depth_values vs)
  depth (dict es) = suc (depth_entries es)
  depth (map es) = suc (depth_entries es)
  depth (number n) = 0
  depth (bigint n) = 0
  depth fraction = 0
  depth (text t) = 0
  depth (bytes bs) = 0

  pub depth_values : Values → ℕ
  depth_values nil = 0
  depth_values (cons v vs) = max (depth v) (depth_values vs)

  pub depth_entries : Entries → ℕ
  depth_entries end = 0
  depth_entries (entry k v es) = max (depth v) (depth_entries es)

module _ (encode_text decode_text : List ℕ → List ℕ) (use_map : Bool) where
  -- A text that `TextEncoder` and `TextDecoder` take to bytes and back, without control characters;
  -- and bytes that do not look like a text.
  abbrev pub IsText : List ℕ → Type 0
  IsText t = (decode_text (encode_text t) ≡ t) × (looks_binary t ≡ false)

  abbrev pub IsBinary : List ℕ → Type 0
  IsBinary bs = looks_binary (decode_text bs) ≡ true

  -- The keys of a record are texts, and none is "__proto__".
  abbrev pub IsKey : Key → Type 0
  IsKey (text_key t) = IsText t × (use_map ≡ false → list_eq t proto_name ≡ false)
  IsKey (byte_key bs) = IsBinary bs × (use_map ≡ true)

  -- The integers have the type that their size asks for, the texts and byte strings that of their
  -- content; a dictionary is a `Map` or a record, as the decoder makes them, with its keys in
  -- ascending order of bytes.
  unfoldable mutual
    pub Canonical : Value → Type 0
    Canonical (number n) = is_safe n ≡ true
    Canonical (bigint n) = is_safe n ≡ false
    Canonical fraction = ⊥
    Canonical (text t) = IsText t × (length (encode_text t) ≤ max_safe)
    Canonical (bytes bs) = IsBinary bs × (length bs ≤ max_safe)
    Canonical (list vs) = CanonicalValues vs
    Canonical (dict es) = (use_map ≡ false) × CanonicalEntries none es
    Canonical (map es) = (use_map ≡ true) × CanonicalEntries none es

    pub CanonicalValues : Values → Type 0
    CanonicalValues nil = Unit {0}
    CanonicalValues (cons v vs) = Canonical v × CanonicalValues vs

    pub CanonicalEntries : Option (List ℕ) → Entries → Type 0
    CanonicalEntries o end = Unit {0}
    CanonicalEntries o (entry k v es) =
        IsKey k
        × AllBytes (key_bytes encode_text k)
        × (length (key_bytes encode_text k) ≤ max_safe)
        × Follows o (key_bytes encode_text k)
        × Canonical v
        × CanonicalEntries (some (key_bytes encode_text k)) es
