-- ===== src/Wire/Refusals.antt =====
-- What a refused message leaves, and a closed wire.
use browsertorrent.Common.{
  ℕ, ◌+◌, ◌≡◌, refl, sym, ap, ◌∙◌, ◌⊎◌, inl, inr, true, false, none, some, List, Result, ok, err,
  length, leb, Bool-cases, if-false,
}
use browsertorrent.Message
use browsertorrent.Message.{PeerMessage, payload, encode_message}
use browsertorrent.Wire.{
  WireError, peer_wire_error, timeout_error, WireState, handshaking, connected, closed, emit, error,
  Wire, thrown, log, is_closed, Environment,
}
use browsertorrent.Wire.Lifecycle.{
  terminate, destroy, on_handshake_timeout, on_idle_timeout, is_handshaking,
}
use browsertorrent.Wire.Writing.{write_frame_lem}
use browsertorrent.Wire.Send.{
  check_outgoing, of_message_error, within_message_limit, written, write_frame, send_frame,
  send_checked, send_message,
}
use browsertorrent.Wire.Receive.{on_data}
use browsertorrent.Wire.Stability.{on_data_closed, terminate_closed, terminate_closes}

on_handshake_timeout_closed : (w : Wire) → is_closed w.state ≡ true → on_handshake_timeout w ≡ w
unfolding on_handshake_timeout
on_handshake_timeout_closed w e = if-false (is_handshaking w.state) _ _ (only_one w.state e)
  where
    only_one : (s : WireState) → is_closed s ≡ true → is_handshaking s ≡ false
    only_one handshaking h = cc
    only_one connected h = refl
    only_one closed h = refl

module _ (env : Environment) where
  write_refused :
      (m : PeerMessage) (bytes : List ℕ) (w w' : Wire) (e : WireError)
      → written m bytes (write_frame env bytes w) ≡ thrown e w'
      → w' ≡ w
  write_refused m bytes w w' e h =
      elim (Bool-cases
        (leb (w.queued_write_bytes + length bytes) w.config.max_queued_write_bytes)) [
          | inr q ↦ let x = rw (write_frame_lem env bytes w, q) at h in cc
          | inl q ↦ elim (Bool-cases (env.transport_accepts bytes)) [
            | inr q' ↦ let x = rw (write_frame_lem env bytes w, q, q') at h in cc
            | inl q' ↦ absurd (let x = rw (write_frame_lem env bytes w, q, q') at h in cc)
          ]
        ]

  frame_refused :
      (m : PeerMessage) (o : Result Message.Error (List ℕ)) (w w' : Wire) (e : WireError)
      → send_frame env w m o ≡ thrown e w'
      → (w' ≡ w) ⊎ (w' ≡ log (emit (error e)) w)
  unfolding send_frame
  frame_refused m (err x) w w' e h =
      let same : of_message_error x ≡ e = cc in
      let left : log (emit (error (of_message_error x))) w ≡ w' = cc in
      inr (sym left ∙ ap (λ y. log (emit (error y)) w) same)
  frame_refused m (ok bytes) w w' e h = elim (Bool-cases (within_message_limit w bytes)) [
    | inr q ↦ inl (let x = rw q at h in cc)
    | inl q ↦ inl (write_refused m bytes w w' e (rw q at h))
  ]

  -- A message that is refused, by a check, the codec, the queue or the transport, changes nothing
  -- on the wire, but that an error of the codec is also told to the listeners; and a closed wire
  -- refuses every message.
  pub send_message_refused :
      (m : PeerMessage) (w : Wire)
      → ((w' : Wire) (e : WireError)
          → send_message env m w ≡ thrown e w'
          → (w' ≡ w) ⊎ (w' ≡ log (emit (error e)) w))
        × (is_closed w.state ≡ true → send_message env m w ≡ thrown peer_wire_error w)
  unfolding send_message check_outgoing
  send_message_refused m w = (λ w' e. by_check (check_outgoing w m) w' e, λ e. rw e refl)
    where
      by_check :
          (o : Result WireError (Unit {0})) (w' : Wire) (e : WireError)
          → send_checked env w m o ≡ thrown e w'
          → (w' ≡ w) ⊎ (w' ≡ log (emit (error e)) w)
      by_check (err x) w' e h = inl (let y = h in cc)
      by_check (ok u) w' e h = frame_refused m (encode_message m) w w' e h

  -- Once a wire is destroyed, bytes, messages, both timeouts and a second call of `destroy` leave
  -- it as it is.
  pub destroy_final :
      (w : Wire) (chunk : List ℕ) (m : PeerMessage)
      → let u = destroy w in
        (is_closed u.state ≡ true)
        × (on_data env chunk u ≡ u)
        × (send_message env m u ≡ thrown peer_wire_error u)
        × (on_handshake_timeout u ≡ u)
        × (on_idle_timeout u ≡ u)
        × (destroy u ≡ u)
  unfolding destroy on_idle_timeout
  destroy_final w chunk m =
      let u = terminate none w in
      let over = terminate_closes none w in
      (
        over,
        on_data_closed env chunk u over,
        (send_message_refused m u).1 over,
        on_handshake_timeout_closed u over,
        terminate_closed (some timeout_error) u over,
        terminate_closed none u over,
      )
