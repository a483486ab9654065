-- ===== src/ExtensionHost/Tests.antt =====
-- A host with one extension, before and after a handshake of the peer.
use browsertorrent.Common.{ℕ, ◌≤◌, ◌≡◌, refl, none, some, List, [], ◌∷◌, ok, arith}
use browsertorrent.Common.Int.{pos}
use browsertorrent.Bencode
use browsertorrent.Bencode.{text_key, number, Entries, end, entry}
use browsertorrent.Bencode.Decode.{
  split_at, decode_integer, read_integer, decode_byte_string, push_value, set_entry, put_entry,
  put_value,
}
use browsertorrent.Bencode.Loop.{
  after_round, accept_key, on_key, on_integer, on_byte_string, open_container, on_token, on_dict,
  read_next, read_more, round, decode_loop, decode_one, result_of, decode_prefix, decode,
}
use browsertorrent.ExtensionHost.{lookup, put_id, ExtendedHandshake}
use browsertorrent.ExtensionHost.Parsing.{
  get_entry, mapping_id, read_mapping, read_handshake, decode_extended_handshake,
}
use browsertorrent.ExtensionHost.Host.{
  on_register, on_extended_handshake, on_message, ExtensionHost, ExtensionHostOptions, new,
  use_extension, handle, merge_ids,
}
use browsertorrent.ExtensionHost.Merging.{latest}
use browsertorrent.ExtensionHost.Calls.{registers, here, then_step}
use browsertorrent.ExtensionHost.Reachable.{handle-lookup, lookup-handle}

abbrev own_bytes : List ℕ → List ℕ
own_bytes text = text

abbrev options : ExtensionHostOptions
options = record { max_payload_length = none; client = none; port = none; request_queue = none }

abbrev empty : ExtensionHost
empty = record {
  max_payload_length = 262144;
  local_extensions = [];
  peer_extensions = [];
  peer_handshake = none;
  extensions = [];
  handshake_fields = end;
  next_id = 1;
  handshake_waiters = 0;
  effects = [];
}

-- "abc"
abbrev abc : List ℕ
abc = 97 ∷ 98 ∷ 99 ∷ []

abbrev with_abc : ExtensionHost
with_abc = record empty {
  local_extensions = (abc, 1) ∷ [];
  extensions = abc ∷ [];
  next_id = 2;
  effects = on_register abc ∷ [];
}

new_runs : new options ≡ ok empty
unfolding new
new_runs = refl

use_runs : use_extension abc empty ≡ ok with_abc
unfolding use_extension put_id
use_runs = refl

abc_known : lookup abc with_abc.local_extensions ≡ some 1
unfolding lookup
abc_known = refl

-- "d1:md3:abci3eee"
abbrev payload : List ℕ
payload = 100 ∷ 49 ∷ 58 ∷ 109 ∷ 100 ∷ 51 ∷ 58 ∷ 97 ∷ 98 ∷ 99 ∷ 105 ∷ 51 ∷ 101 ∷ 101 ∷ 101 ∷ []

abbrev said : ExtendedHandshake
said = record {
  extensions = (abc, 3) ∷ [];
  client = none;
  port = none;
  request_queue = none;
  metadata_size = none;
  your_ip = none;
  ipv4 = none;
  ipv6 = none;
  raw = entry (text_key (109 ∷ [])) (Bencode.map (entry (text_key abc) (number (pos 3)) end)) end;
}

abbrev after_handshake : ExtensionHost
after_handshake = record with_abc {
  peer_extensions = (abc, 3) ∷ [];
  peer_handshake = some said;
  effects = on_register abc ∷ on_extended_handshake abc said ∷ [];
}

handle_runs : handle own_bytes own_bytes 0 payload with_abc ≡ ok (after_handshake, none)
unfolding handle merge_ids put_id get_entry mapping_id read_mapping read_handshake
    decode_extended_handshake decode decode_prefix decode_one decode_loop round read_more read_next
    on_dict on_token open_container on_byte_string on_integer on_key accept_key after_round
    result_of put_value put_entry set_entry decode_byte_string decode_integer split_at read_integer
    Bencode.Decode.read_bytes
handle_runs = refl

handle-lookup_example :
    (1 ≤ 1)
    × (1 ≤ 255)
    × (handle own_bytes own_bytes 1 (5 ∷ []) with_abc
        ≡ ok (
          record with_abc { effects = on_register abc ∷ on_message abc (5 ∷ []) ∷ [] },
          some abc,
        ))
handle-lookup_example =
    handle-lookup options empty with_abc new_runs (then_step here (registers abc use_runs))
      own_bytes own_bytes abc (5 ∷ []) 1 abc_known (omega arith)

lookup-handle_example :
    (x : ExtendedHandshake) × (decode_extended_handshake own_bytes own_bytes payload ≡ ok x)
    × ((name : List ℕ)
        → lookup name after_handshake.peer_extensions
          ≡ latest (lookup name x.extensions) (lookup name with_abc.peer_extensions))
lookup-handle_example =
    lookup-handle options empty with_abc after_handshake new_runs
      (then_step here (registers abc use_runs)) own_bytes own_bytes payload none handle_runs
