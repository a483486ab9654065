-- ===== src/Wire/Sent.antt =====
-- What a message has been through by the time it is sent.
use browsertorrent.Common.{
  ℕ, ◌+◌, ◌-◌, ◌≤◌, ◌≡◌, refl, sym, ap, inl, inr, true, false, not, ◌||◌, List, ◌++◌, Result, ok,
  err, guard, >>=-eq-ok, ok-injective, length, leb, leb→le, Bool-cases, arith,
}
use browsertorrent.Common.Words.{uint32_bytes}
use browsertorrent.Message
use browsertorrent.Message.{
  BlockRequest, Payload, PeerMessage, payload, request, encode_payload, encode_message,
  decode_payload,
}
use browsertorrent.Wire.{
  WireError, send, Wire, returned, log, is_closed, is_connected, peer_wire_error, Environment,
}
use browsertorrent.Wire.Checks.{
  fast_negotiated, assert_extension_negotiated, validate_availability_order,
  validate_message_bounds,
}
use browsertorrent.Wire.Writing.{write_frame_lem}
use browsertorrent.Wire.Send.{
  is_keep_alive, check_outgoing, after_write, within_message_limit, written, write_frame,
  send_frame, send_checked, send_message,
}

checks_of :
    (w : Wire) (m : PeerMessage)
    → check_outgoing w m ≡ ok tt
    → (assert_extension_negotiated w m ≡ ok tt)
      × (validate_availability_order (fast_negotiated w) w.local_availability m ≡ ok tt)
      × (validate_message_bounds w.config false m ≡ ok tt)
unfolding check_outgoing
checks_of w m e =
    let (u1, t1, e1) = >>=-eq-ok (guard (not (is_closed w.state)) peer_wire_error) _ e in
    let (u2, t2, e2) =
      >>=-eq-ok (guard (is_connected w.state || is_keep_alive m) peer_wire_error) _ e1 in
    let (u3, t3, e3) = >>=-eq-ok (assert_extension_negotiated w m) _ e2 in
    let (u4, t4, e4) =
      >>=-eq-ok (validate_availability_order (fast_negotiated w) w.local_availability m) _ e3 in
    (t3, t4, e4)

-- What a message that was sent has been through.
pub record Sent (a a' : Wire) (p : Payload) : Type 0 where
  pub bytes : List ℕ
  pub encoded : encode_payload p ≡ ok bytes
  pub known : assert_extension_negotiated a (payload p) ≡ ok tt
  pub ordered :
      validate_availability_order (fast_negotiated a) a.local_availability (payload p) ≡ ok tt
  pub bounded : validate_message_bounds a.config false (payload p) ≡ ok tt
  pub limited : length bytes ≤ a.config.max_message_length
  pub written_so :
      a'
      ≡ after_write
          (log (send (uint32_bytes (length bytes) ++ bytes)) a)
          (payload p)
          (uint32_bytes (length bytes) ++ bytes)

limited_bytes :
    (a : Wire) (bytes frame : List ℕ)
    → within_message_limit a frame ≡ true
    → frame ≡ uint32_bytes (length bytes) ++ bytes
    → length bytes ≤ a.config.max_message_length
limited_bytes a bytes frame limit whole =
    let size = ap (λ x. length x) whole in
    let small = leb→le (length frame - 4) a.config.max_message_length limit in omega arith

module _ (env : Environment) where
  write_returned :
      (a a' : Wire) (m : PeerMessage) (frame : List ℕ)
      → written m frame (write_frame env frame a) ≡ returned a'
      → a' ≡ after_write (log (send frame) a) m frame
  write_returned a a' m frame e =
      elim (Bool-cases
        (leb (a.queued_write_bytes + length frame) a.config.max_queued_write_bytes)) [
          | inr q ↦ absurd (let x = rw (write_frame_lem env frame a, q) at e in cc)
          | inl q ↦ elim (Bool-cases (env.transport_accepts frame)) [
            | inr q' ↦ absurd (let x = rw (write_frame_lem env frame a, q, q') at e in cc)
            | inl q' ↦ let x = rw (write_frame_lem env frame a, q, q') at e in cc
          ]
        ]

  send_frame_returned :
      (a a' : Wire) (m : PeerMessage) (o : Result Message.Error (List ℕ))
      → send_frame env a m o ≡ returned a'
      → (frame : List ℕ) × (o ≡ ok frame)
        × (within_message_limit a frame ≡ true)
        × (a' ≡ after_write (log (send frame) a) m frame)
  unfolding send_frame
  send_frame_returned a a' m (err x) e = absurd (let y = e in cc)
  send_frame_returned a a' m (ok frame) e = elim (Bool-cases (within_message_limit a frame)) [
    | inr q ↦ absurd (let x = rw q at e in cc)
    | inl q ↦ (frame, refl, q, write_returned a a' m frame (rw q at e))
  ]

  encoded_payload :
      (p : Payload) (frame : List ℕ)
      → encode_message (payload p) ≡ ok frame
      → (bytes : List ℕ) × (encode_payload p ≡ ok bytes)
        × (frame ≡ uint32_bytes (length bytes) ++ bytes)
  unfolding encode_message
  encoded_payload p frame e =
      let (bytes, q, e1) = >>=-eq-ok (encode_payload p) _ e in (bytes, q, sym (ok-injective e1))

  pub send_message-Sent :
      (a a' : Wire) (p : Payload) → send_message env (payload p) a ≡ returned a' → Sent a a' p
  unfolding send_message
  send_message-Sent a a' p e = by_check (check_outgoing a (payload p)) refl e
    where
      by_check :
          (o : Result WireError (Unit {0}))
          → check_outgoing a (payload p) ≡ o
          → send_checked env a (payload p) o ≡ returned a'
          → Sent a a' p
      by_check (err x) q r = absurd (let y = r in cc)
      by_check (ok u) q r =
          let (frame, encodes, limit, so) =
            send_frame_returned a a' (payload p) (encode_message (payload p)) r in
          let (bytes, encoded, whole) = encoded_payload p frame encodes in
          let (known, ordered, bounded) = checks_of a (payload p) q in
          record {
            bytes = bytes;
            encoded = encoded;
            known = known;
            ordered = ordered;
            bounded = bounded;
            limited = limited_bytes a bytes frame limit whole;
            written_so = rw whole at so;
          }
