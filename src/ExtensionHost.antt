-- ===== src/ExtensionHost.antt =====
-- packages/core/src/core/extension-host.ts: the registry of extensions of one connection. A text is
-- the list of its code units. An extension is its name; what its methods are called with is listed
-- as an effect, and what its `handshakeFields` returns is a parameter. The methods of extensions
-- throw nothing, and the log of `sendHandshake` is left out.
pub mod Parsing
pub mod Host
pub mod Names
pub mod Merging
pub mod Registry
pub mod Calls
pub mod Reachable
mod Tests
use browsertorrent.Common.{
  ℕ, suc, Bool, Option, none, some, List, [], ◌∷◌, if◌then◌else◌, Result, list_eq, ◌==◌,
}
use browsertorrent.Bencode.{Entries}

pub data HostError : Type 0 where
  type_error range_error peer_wire_error protocol_error encode_error : HostError

-- A `Map` from names to IDs, in the order of its entries.
unfoldable pub lookup : List ℕ → List (List ℕ × ℕ) → Option ℕ
lookup name [] = none
lookup name ((k, id) ∷ ids) = let rest = lookup name ids in if list_eq k name then some id else rest

unfoldable pub put_id : List ℕ → ℕ → List (List ℕ × ℕ) → List (List ℕ × ℕ)
put_id name id [] = (name, id) ∷ []
put_id name id ((k, old) ∷ ids) =
    let rest = put_id name id ids in if list_eq k name then (k, id) ∷ ids else (k, old) ∷ rest

unfoldable pub remove_id : List ℕ → List (List ℕ × ℕ) → List (List ℕ × ℕ)
remove_id name [] = []
remove_id name ((k, old) ∷ ids) =
    let rest = remove_id name ids in if list_eq k name then ids else (k, old) ∷ rest

unfoldable pub find_name_by_id : List (List ℕ × ℕ) → ℕ → Option (List ℕ)
find_name_by_id [] id = none
find_name_by_id ((name, candidate) ∷ ids) id =
    let rest = find_name_by_id ids id in if candidate == id then some name else rest

pub record ExtendedHandshake : Type 0 where
  pub extensions : List (List ℕ × ℕ)
  pub client : Option (List ℕ)
  pub port : Option ℕ
  pub request_queue : Option ℕ
  pub metadata_size : Option ℕ
  pub your_ip : Option (List ℕ)
  pub ipv4 : Option (List ℕ)
  pub ipv6 : Option (List ℕ)
  pub raw : Entries
