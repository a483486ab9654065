-- ===== src/Bencode.antt =====
-- packages/core/src/utils/bencode.ts: values, keys, and what the encoder and the decoder share.
-- A string is the list of its code units, a byte array a list of natural numbers. `TextEncoder` and
-- `TextDecoder` are parameters.
pub mod Decimal
pub mod Encode
pub mod Decode
pub mod Loop
pub mod Order
pub mod Pieces
pub mod Canonical
pub mod Steps
pub mod Leaves
pub mod Keys
pub mod Parts
pub mod Containers
pub mod RoundTrip
pub mod Total
pub mod Sorted
pub mod Limits
mod Tests
pub mod Termination
use browsertorrent.Common.{ℕ, Bool, true, false, List, [], ◌∷◌, ◌==◌, ◌&&◌, list_eq}
use browsertorrent.Common.Int.{ℤ}
use Prim.Native.Nat.{compare, Ordering}

-- `BencodeKey`
pub data Key : Type 0 where
  text_key byte_key : List ℕ → Key

-- `BencodeValue`: a `number` that is an integer, a `bigint`, a string, bytes, a list, a record
-- (`BencodeDict`) and a `Map` (`BencodeMap`). A `number` that is no integer is `fraction`. The keys
-- of a record are texts.
mutual
  pub data Value : Type 0 where
    number bigint : ℤ → Value
    fraction : Value
    text bytes : List ℕ → Value
    list : Values → Value
    dict map : Entries → Value

  pub data Values : Type 0 where
    nil : Values
    cons : Value → Values → Values

  pub data Entries : Type 0 where
    end : Entries
    entry : Key → Value → Entries → Entries

-- `Number.MAX_SAFE_INTEGER`
abbrev pub max_safe : ℕ
max_safe = 9007199254740991

-- The sign of `_compareBytes`.
abbrev pub compare_bytes : List ℕ → List ℕ → Ordering
compare_bytes [] [] = Ordering.eq
compare_bytes [] (y ∷ ys) = Ordering.lt
compare_bytes (x ∷ xs) [] = Ordering.gt
compare_bytes (x ∷ xs) (y ∷ ys) = elim (compare x y) [
  | Ordering.lt ↦ Ordering.lt
  | Ordering.eq ↦ compare_bytes xs ys
  | Ordering.gt ↦ Ordering.gt
]

-- `_compareBytes(a, b) > 0` and `=== 0`
abbrev pub above : List ℕ → List ℕ → Bool
above a b = elim (compare_bytes a b) [ Ordering.gt ↦ true | _ ↦ false ]

abbrev pub same_bytes : List ℕ → List ℕ → Bool
same_bytes a b = elim (compare_bytes a b) [ Ordering.eq ↦ true | _ ↦ false ]

-- `_keyBytes`
abbrev pub key_bytes : (List ℕ → List ℕ) → Key → List ℕ
key_bytes encode_text (text_key t) = encode_text t
key_bytes encode_text (byte_key bs) = bs
