-- ===== src/ExtensionHost/Calls.antt =====
-- The host after any sequence of calls.
use browsertorrent.Common.{
  ℕ, suc, ◌≤◌, ◌≡◌, sym, ap, ◌∙◌, inl, inr, false, not, Option, none, some, List, [], ◌∷◌, Result,
  ok, err, guard, guard-eq-ok, >>=-eq-ok, ok-injective, length, length-append, leb, leb→le, list_eq,
  ◌==◌, Bool-cases, arith,
}
use mathlib.Core.Path.{subst}
use browsertorrent.Bencode.{Value}
use browsertorrent.ExtensionHost.{
  HostError, type_error, peer_wire_error, protocol_error, put_id, find_name_by_id,
  ExtendedHandshake,
}
use browsertorrent.ExtensionHost.Parsing.{name_m, decode_extended_handshake}
use browsertorrent.ExtensionHost.Host.{
  ExtensionHost, set_handshake_field, has_name, use_extension, handled, handle_handshake, deliver,
  handle, take_handshake, waited, wait_for_peer_handshake, close,
}
use browsertorrent.ExtensionHost.Names.{HasDistinct}
use browsertorrent.ExtensionHost.Merging.{merge_ids-HasDistinct}
use browsertorrent.ExtensionHost.Registry.{
  numbered_from, AllNew, put_id-numbered_from, AllNew-append,
}

pub record Registered (h : ExtensionHost) : Type 0 where
  pub numbered : h.local_extensions ≡ numbered_from 1 h.extensions
  pub next_number : h.next_id ≡ suc (length h.extensions)
  pub limited : length h.extensions ≤ 255
  pub all_new : AllNew h.extensions
  pub peer_distinct : HasDistinct h.peer_extensions

-- The calls that return and change the host.
pub data Step (h u : ExtensionHost) : Type 0 where
  registers : (name : List ℕ) → use_extension name h ≡ ok u → Step h u
  sets_field : (name : List ℕ) (v : Option Value) → set_handshake_field name v h ≡ ok u → Step h u
  handles :
      (encode_text decode_text : List ℕ → List ℕ) (id : ℕ) (payload : List ℕ)
      (name : Option (List ℕ))
      → handle encode_text decode_text id payload h ≡ ok (u, name)
      → Step h u
  waits : u ≡ wait_for_peer_handshake h → Step h u
  closes : u ≡ close h → Step h u

pub data Reach (h : ExtensionHost) : ExtensionHost → Type 0 where
  here : Reach h h
  then_step : {u v : ExtensionHost} → Reach h u → Step u v → Reach h v

use_extension-Registered :
    (name : List ℕ) (h u : ExtensionHost)
    → Registered h
    → use_extension name h ≡ ok u
    → Registered u
unfolding use_extension
use_extension-Registered name h u r e =
    let (a, t1, e1) = >>=-eq-ok (guard (leb 3 (length name)) type_error) _ e in
    let (b, t2, e2) = >>=-eq-ok (guard (not (has_name name h.extensions)) peer_wire_error) _ e1 in
    let (c, t3, e3) = >>=-eq-ok (guard (leb h.next_id 255) peer_wire_error) _ e2 in
    let fresh = guard-eq-ok (not (has_name name h.extensions)) peer_wire_error t2 in
    let new_name : has_name name h.extensions ≡ false = ground arith in
    let room = leb→le h.next_id 255 (guard-eq-ok (leb h.next_id 255) peer_wire_error t3) in
    let size = length-append h.extensions (name ∷ []) in
    subst Registered (ok-injective e3) (record {
      numbered =
          ap (put_id name h.next_id) r.numbered
          ∙ put_id-numbered_from name 1 h.next_id h.extensions new_name
              (omega (arith, r.next_number));
      next_number = ap suc (omega (arith, r.next_number, size));
      limited = omega (arith, r.next_number, size, room);
      all_new = AllNew-append name h.extensions r.all_new new_name;
      peer_distinct = r.peer_distinct;
    })

pub set_handshake_field-Registered :
    (name : List ℕ) (v : Option Value) (h u : ExtensionHost)
    → Registered h
    → set_handshake_field name v h ≡ ok u
    → Registered u
unfolding set_handshake_field
set_handshake_field-Registered name v h u r e =
    let (a, t1, e1) = >>=-eq-ok (guard (not (list_eq name name_m)) type_error) _ e in
    subst Registered (ok-injective e1) (record {
      numbered = r.numbered;
      next_number = r.next_number;
      limited = r.limited;
      all_new = r.all_new;
      peer_distinct = r.peer_distinct;
    })

deliver-Registered :
    (h : ExtensionHost) (payload : List ℕ) (o : Option (List ℕ))
    → Registered h
    → Registered (deliver h payload o).0
deliver-Registered h payload none r = r
deliver-Registered h payload (some name) r = record {
  numbered = r.numbered;
  next_number = r.next_number;
  limited = r.limited;
  all_new = r.all_new;
  peer_distinct = r.peer_distinct;
}

take_handshake-Registered :
    (h : ExtensionHost) (x : ExtendedHandshake) → Registered h → Registered (take_handshake h x)
take_handshake-Registered h x r = record {
  numbered = r.numbered;
  next_number = r.next_number;
  limited = r.limited;
  all_new = r.all_new;
  peer_distinct = merge_ids-HasDistinct x.extensions h.peer_extensions r.peer_distinct;
}

handled-Registered :
    (h u : ExtensionHost) (id : ℕ) (payload : List ℕ) (o : Result HostError ExtendedHandshake)
    (name : Option (List ℕ))
    → Registered h
    → handled h id payload o ≡ ok (u, name)
    → Registered u
handled-Registered h u id payload o name r e = elim (Bool-cases (id == 0)) [
  | inl q ↦ by_handshake o (rw q at e)
  | inr q ↦
      subst Registered (ap (λ p. p.0) (ok-injective (rw q at e)))
        (deliver-Registered h payload (find_name_by_id h.local_extensions id) r)
]
  where
    by_handshake :
        (x : Result HostError ExtendedHandshake)
        → handle_handshake h x ≡ ok (u, name)
        → Registered u
    by_handshake (err x) k = absurd (let y = k in cc)
    by_handshake (ok x) k =
        subst Registered (ap (λ p. p.0) (ok-injective k)) (take_handshake-Registered h x r)

waited-Registered :
    (h : ExtensionHost) (o : Option ExtendedHandshake) → Registered h → Registered (waited h o)
waited-Registered h none r = record {
  numbered = r.numbered;
  next_number = r.next_number;
  limited = r.limited;
  all_new = r.all_new;
  peer_distinct = r.peer_distinct;
}
waited-Registered h (some x) r = record {
  numbered = r.numbered;
  next_number = r.next_number;
  limited = r.limited;
  all_new = r.all_new;
  peer_distinct = r.peer_distinct;
}

pub Step-Registered : (h u : ExtensionHost) → Registered h → Step h u → Registered u
unfolding handle wait_for_peer_handshake close
Step-Registered h u r (registers name e) = use_extension-Registered name h u r e
Step-Registered h u r (sets_field name v e) = set_handshake_field-Registered name v h u r e
Step-Registered h u r (handles encode_text decode_text id payload name e) =
    let (a, t1, e1) =
      >>=-eq-ok (guard (leb (length payload) h.max_payload_length) protocol_error) _ e in
    handled-Registered h u id payload (decode_extended_handshake encode_text decode_text payload)
      name r e1
Step-Registered h u r (waits e) = subst Registered (sym e) (waited-Registered h h.peer_handshake r)
Step-Registered h u r (closes e) = subst Registered (sym e) (record {
  numbered = r.numbered;
  next_number = r.next_number;
  limited = r.limited;
  all_new = r.all_new;
  peer_distinct = r.peer_distinct;
})
