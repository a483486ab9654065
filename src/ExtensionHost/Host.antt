-- ===== src/ExtensionHost/Host.antt =====
-- `ExtensionHost`: registration, the handshakes of both sides, and the messages.
use browsertorrent.Common.{
  ℕ, zero, suc, ◌*◌, Bool, true, false, not, ◌&&◌, Option, none, some, List, [], ◌∷◌, ◌++◌,
  if◌then◌else◌, Result, ok, err, ◌>>=◌, ◌>>◌, guard, length, leb, ◌==◌, list_eq, map,
}
use browsertorrent.Common.Int.{pos}
use browsertorrent.Common.Words.{Number, nat, is_uint, to_nat}
use browsertorrent.Bencode
use browsertorrent.Bencode.{
  Key, text_key, byte_key, Value, number, text, Entries, end, entry, max_safe,
}
use browsertorrent.Bencode.Decode.{set_entry}
use browsertorrent.Bencode.Encode.{EncodeError, encode}
use browsertorrent.ExtensionHost.{
  HostError, type_error, range_error, peer_wire_error, protocol_error, encode_error, lookup, put_id,
  remove_id, find_name_by_id, ExtendedHandshake,
}
use browsertorrent.ExtensionHost.Parsing.{
  name_m, name_v, name_p, name_reqq, decode_extended_handshake,
}

-- The calls of the methods of extensions, by their names, and of the waiters.
pub data HostEffect : Type 0 where
  on_register : List ℕ → HostEffect
  resolve : ExtendedHandshake → HostEffect
  on_extended_handshake : List ℕ → ExtendedHandshake → HostEffect
  on_message : List ℕ → List ℕ → HostEffect
  close_extension : List ℕ → HostEffect

pub record ExtensionHost : Type 0 where
  pub max_payload_length : ℕ
  pub local_extensions : List (List ℕ × ℕ)
  pub peer_extensions : List (List ℕ × ℕ)
  pub peer_handshake : Option ExtendedHandshake
  pub extensions : List (List ℕ)
  pub handshake_fields : Entries
  pub next_id : ℕ
  pub handshake_waiters : ℕ
  pub effects : List HostEffect

pub record ExtensionHostOptions : Type 0 where
  pub max_payload_length : Option Number
  pub client : Option (List ℕ)
  pub port : Option ℕ
  pub request_queue : Option ℕ

-- `delete` of the map of fields.
unfoldable pub remove_entry : List ℕ → Entries → Entries
remove_entry t end = end
remove_entry t (entry (text_key s) v es) =
    let rest = remove_entry t es in if list_eq s t then es else entry (text_key s) v rest
remove_entry t (entry (byte_key bs) v es) = entry (byte_key bs) v (remove_entry t es)

abbrev pub field_set : List ℕ → Option Value → Entries → Entries
field_set name none es = remove_entry name es
field_set name (some v) es = set_entry (text_key name) v es

unfoldable pub set_handshake_field :
    List ℕ → Option Value → ExtensionHost → Result HostError ExtensionHost
set_handshake_field name v h = do
  guard (not (list_eq name name_m)) type_error
  ok (record h { handshake_fields = field_set name v h.handshake_fields })

abbrev pub payload_limit : Option Number → Number
payload_limit none = nat (256 * 1024)
payload_limit (some n) = n

abbrev pub empty_host : ℕ → ExtensionHost
empty_host limit = record {
  max_payload_length = limit;
  local_extensions = [];
  peer_extensions = [];
  peer_handshake = none;
  extensions = [];
  handshake_fields = end;
  next_id = 1;
  handshake_waiters = 0;
  effects = [];
}

-- `if (options.… !== undefined) this.setHandshakeField(…)`
abbrev pub set_if : List ℕ → Option Value → ExtensionHost → Result HostError ExtensionHost
set_if name none h = ok h
set_if name (some v) h = set_handshake_field name (some v) h

abbrev pub integer_value : Option ℕ → Option Value
integer_value none = none
integer_value (some n) = some (number (pos n))

abbrev pub text_value : Option (List ℕ) → Option Value
text_value none = none
text_value (some t) = some (text t)

unfoldable pub new : ExtensionHostOptions → Result HostError ExtensionHost
new options = do
  let limit : Number = payload_limit options.max_payload_length
  guard (is_uint max_safe limit && leb 1 (to_nat limit)) range_error
  h1 ← set_if name_v (text_value options.client) (empty_host (to_nat limit))
  h2 ← set_if name_p (integer_value options.port) h1
  set_if name_reqq (integer_value options.request_queue) h2

abbrev pub has_name : List ℕ → List (List ℕ) → Bool
has_name name [] = false
has_name name (x ∷ xs) = let rest = has_name name xs in if list_eq x name then true else rest

-- `use`: `#extensions` is set first, so that a name is new in both maps.
unfoldable pub use_extension : List ℕ → ExtensionHost → Result HostError ExtensionHost
use_extension name h = do
  guard (leb 3 (length name)) type_error
  guard (not (has_name name h.extensions)) peer_wire_error
  guard (leb h.next_id 255) peer_wire_error
  ok (record h {
    extensions = h.extensions ++ (name ∷ []);
    local_extensions = put_id name h.next_id h.local_extensions;
    next_id = suc h.next_id;
    effects = h.effects ++ (on_register name ∷ []);
  })

-- The IDs as the value of "m".
unfoldable pub id_entries : List (List ℕ × ℕ) → Entries
id_entries [] = end
id_entries ((name, id) ∷ ids) = entry (text_key name) (number (pos id)) (id_entries ids)

-- The fields of one extension, into those of the handshake.
unfoldable pub add_fields : Entries → Entries → Result HostError Entries
add_fields end fields = ok fields
add_fields (entry (text_key name) v es) fields = do
  guard (not (list_eq name name_m)) peer_wire_error
  add_fields es (set_entry (text_key name) v fields)
add_fields (entry (byte_key bs) v es) fields = add_fields es (set_entry (byte_key bs) v fields)

unfoldable pub add_all_fields :
    (List ℕ → Entries) → List (List ℕ) → Entries → Result HostError Entries
add_all_fields fields_of [] fields = ok fields
add_all_fields fields_of (name ∷ names) fields = do
  more ← add_fields (fields_of name) fields
  add_all_fields fields_of names more

abbrev pub encoded : Result EncodeError (List ℕ) → Result HostError (List ℕ)
encoded (err e) = err encode_error
encoded (ok bs) = ok bs

-- What `sendHandshake` hands to the sender of the host under the ID 0.
unfoldable pub send_handshake :
    (List ℕ → List ℕ) → (List ℕ → Entries) → ExtensionHost → Result HostError (List ℕ)
send_handshake encode_text fields_of h = do
  let own : Entries =
      set_entry (text_key name_m) (Bencode.map (id_entries h.local_extensions)) h.handshake_fields
  fields ← add_all_fields fields_of h.extensions own
  encoded (encode encode_text (Bencode.map fields))

abbrev pub id_of : Option ℕ → Result HostError ℕ
id_of none = err peer_wire_error
id_of (some id) = ok id

-- `send`: the ID that the message is sent under.
unfoldable pub send : List ℕ → List ℕ → ExtensionHost → Result HostError ℕ
unfolding lookup
send name payload h = do
  guard (leb (length payload) h.max_payload_length) range_error
  id_of (lookup name h.peer_extensions)

abbrev pub waited : ExtensionHost → Option ExtendedHandshake → ExtensionHost
waited h none = record h { handshake_waiters = suc h.handshake_waiters }
waited h (some x) = record h { effects = h.effects ++ (resolve x ∷ []) }

unfoldable pub wait_for_peer_handshake : ExtensionHost → ExtensionHost
wait_for_peer_handshake h = waited h h.peer_handshake

-- The loop over the IDs of a handshake: zero disables a name.
unfoldable pub merge_ids : List (List ℕ × ℕ) → List (List ℕ × ℕ) → List (List ℕ × ℕ)
merge_ids [] ids = ids
merge_ids ((name, id) ∷ more) ids =
    merge_ids more (if id == 0 then remove_id name ids else put_id name id ids)

abbrev repeated : ℕ → HostEffect → List HostEffect
repeated zero e = []
repeated (suc n) e = e ∷ repeated n e

abbrev pub take_handshake : ExtensionHost → ExtendedHandshake → ExtensionHost
take_handshake h x = record h {
  peer_extensions = merge_ids x.extensions h.peer_extensions;
  peer_handshake = some x;
  handshake_waiters = 0;
  effects =
      h.effects
      ++ (repeated h.handshake_waiters (resolve x)
          ++ map (λ name. on_extended_handshake name x) h.extensions);
}

abbrev pub deliver : ExtensionHost → List ℕ → Option (List ℕ) → ExtensionHost × Option (List ℕ)
deliver h payload none = (h, none)
deliver h payload (some name) =
    (record h { effects = h.effects ++ (on_message name payload ∷ []) }, some name)

abbrev pub handle_handshake :
    ExtensionHost
    → Result HostError ExtendedHandshake
    → Result HostError (ExtensionHost × Option (List ℕ))
handle_handshake h (err e) = err e
handle_handshake h (ok x) = ok (take_handshake h x, none)

abbrev pub handled :
    ExtensionHost
    → ℕ
    → List ℕ
    → Result HostError ExtendedHandshake
    → Result HostError (ExtensionHost × Option (List ℕ))
handled h id payload x =
    if id == 0
    then handle_handshake h x
    else ok (deliver h payload (find_name_by_id h.local_extensions id))

-- `handle`: the host after it, and the name that it returns.
unfoldable pub handle :
    (List ℕ → List ℕ)
    → (List ℕ → List ℕ)
    → ℕ
    → List ℕ
    → ExtensionHost
    → Result HostError (ExtensionHost × Option (List ℕ))
unfolding find_name_by_id
handle encode_text decode_text id payload h = do
  guard (leb (length payload) h.max_payload_length) protocol_error
  handled h id payload (decode_extended_handshake encode_text decode_text payload)

unfoldable pub close : ExtensionHost → ExtensionHost
close h = record h {
  handshake_waiters = 0;
  effects = h.effects ++ map (λ name. close_extension name) h.extensions;
}
