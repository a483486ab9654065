-- ===== src/ExtensionHost/Reachable.antt =====
-- What the IDs of both sides mean, whatever calls came before.
use browsertorrent.Common.{
  ℕ, ◌≤◌, ◌≡◌, refl, sym, ap, ◌∙◌, false, ◌&&◌, Option, none, some, List, [], ◌∷◌, ◌++◌, Result, ok,
  err, guard, >>=-eq-ok, ok-injective, length, leb, le→leb, ◌==◌, arith,
}
use mathlib.Core.Path.{subst}
use browsertorrent.Common.Words.{Number, is_uint, to_nat}
use browsertorrent.Bencode.{Value, max_safe}
use browsertorrent.ExtensionHost.{
  HostError, protocol_error, range_error, lookup, find_name_by_id, ExtendedHandshake,
}
use browsertorrent.ExtensionHost.Parsing.{name_v, name_p, name_reqq, decode_extended_handshake}
use browsertorrent.ExtensionHost.Host.{
  ExtensionHost, ExtensionHostOptions, payload_limit, empty_host, set_if, integer_value, text_value,
  new, on_message, handle_handshake, handle,
}
use browsertorrent.ExtensionHost.Names.{HasDistinct}
use browsertorrent.ExtensionHost.Merging.{
  latest, lookup-merge_ids, decode_extended_handshake-HasDistinct,
}
use browsertorrent.ExtensionHost.Registry.{numbered_from, numbered_below, find-lookup}
use browsertorrent.ExtensionHost.Calls.{
  Registered, Reach, here, then_step, set_handshake_field-Registered, Step-Registered,
}

set_if-Registered :
    (name : List ℕ) (v : Option Value) (h u : ExtensionHost)
    → Registered h
    → set_if name v h ≡ ok u
    → Registered u
set_if-Registered name none h u r e = subst Registered (ok-injective e) r
set_if-Registered name (some v) h u r e = set_handshake_field-Registered name (some v) h u r e

new-Registered :
    (options : ExtensionHostOptions) (h : ExtensionHost) → new options ≡ ok h → Registered h
unfolding new
new-Registered options h e =
    let limit : Number = payload_limit options.max_payload_length in
    let (a, t1, e1) =
      >>=-eq-ok (guard (is_uint max_safe limit && leb 1 (to_nat limit)) range_error) _ e in
    let (h1, t2, e2) =
      >>=-eq-ok (set_if name_v (text_value options.client) (empty_host (to_nat limit))) _ e1 in
    let (h2, t3, e3) = >>=-eq-ok (set_if name_p (integer_value options.port) h1) _ e2 in
    let r0 : Registered (empty_host (to_nat limit)) = record {
      numbered = refl;
      next_number = refl;
      limited = omega arith;
      all_new = tt;
      peer_distinct = tt;
    } in
    let r1 = set_if-Registered name_v (text_value options.client) _ h1 r0 t2 in
    let r2 = set_if-Registered name_p (integer_value options.port) h1 h2 r1 t3 in
    set_if-Registered name_reqq (integer_value options.request_queue) h2 h r2 e3

Reach-Registered : {h u : ExtensionHost} → Registered h → Reach h u → Registered u
Reach-Registered r here = r
Reach-Registered r (then_step {u} {v} k s) = Step-Registered u v (Reach-Registered r k) s

-- Whatever calls follow the construction of a host, the ID of a registered extension is from 1 to
-- 255, and a message under it, within the limit of payloads, goes to that extension and to no
-- other.
pub handle-lookup :
    (options : ExtensionHostOptions) (h0 h : ExtensionHost)
    → new options ≡ ok h0
    → Reach h0 h
    → (encode_text decode_text : List ℕ → List ℕ) (name payload : List ℕ) (id : ℕ)
    → lookup name h.local_extensions ≡ some id
    → length payload ≤ h.max_payload_length
    → (1 ≤ id)
      × (id ≤ 255)
      × (handle encode_text decode_text id payload h
          ≡ ok (record h { effects = h.effects ++ (on_message name payload ∷ []) }, some name))
unfolding handle
handle-lookup options h0 h e k encode_text decode_text name payload id known fits =
    let r = Reach-Registered (new-Registered options h0 e) k in
    let known' : lookup name (numbered_from 1 h.extensions) ≡ some id =
      ap (lookup name) (sym r.numbered) ∙ known in
    let (low, high) = numbered_below name 1 id h.extensions known' in
    let not_zero : (id == 0) ≡ false = ground arith in
    let found : find_name_by_id h.local_extensions id ≡ some name =
      ap (λ ids. find_name_by_id ids id) r.numbered ∙ find-lookup name 1 id h.extensions known' in
    (
      low,
      omega (arith, high, r.limited),
      rw (le→leb (length payload) h.max_payload_length fits, not_zero, found) refl,
    )

-- Whatever calls follow the construction of a host, a handshake of the peer that is taken was
-- parsed, and leaves of every name the ID that it gives, none where that is zero, and what was
-- known before where it does not speak of the name.
pub lookup-handle :
    (options : ExtensionHostOptions) (h0 h u : ExtensionHost)
    → new options ≡ ok h0
    → Reach h0 h
    → (encode_text decode_text : List ℕ → List ℕ) (payload : List ℕ) (out : Option (List ℕ))
    → handle encode_text decode_text 0 payload h ≡ ok (u, out)
    → (x : ExtendedHandshake) × (decode_extended_handshake encode_text decode_text payload ≡ ok x)
      × ((name : List ℕ)
          → lookup name u.peer_extensions
            ≡ latest (lookup name x.extensions) (lookup name h.peer_extensions))
unfolding handle
lookup-handle options h0 h u e k encode_text decode_text payload out taken =
    let r = Reach-Registered (new-Registered options h0 e) k in
    let (a, t1, e1) =
      >>=-eq-ok (guard (leb (length payload) h.max_payload_length) protocol_error) _ taken in
    by_handshake (decode_extended_handshake encode_text decode_text payload) refl r.peer_distinct e1
  where
    by_handshake :
        (o : Result HostError ExtendedHandshake)
        → decode_extended_handshake encode_text decode_text payload ≡ o
        → HasDistinct h.peer_extensions
        → handle_handshake h o ≡ ok (u, out)
        → (x : ExtendedHandshake) × (decode_extended_handshake encode_text decode_text payload
            ≡ ok x)
          × ((name : List ℕ)
              → lookup name u.peer_extensions
                ≡ latest (lookup name x.extensions) (lookup name h.peer_extensions))
    by_handshake (err x) q d e' = absurd (let y = e' in cc)
    by_handshake (ok x) q d e' = (
      x,
      q,
      λ name.
          ap (λ p. lookup name p.0.peer_extensions) (sym (ok-injective e'))
          ∙ lookup-merge_ids name x.extensions h.peer_extensions
              (decode_extended_handshake-HasDistinct encode_text decode_text payload x q) d,
    )
