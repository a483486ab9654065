-- ===== src/Wire/Kept.antt =====
-- A wire that sends keeps its state and the phase of its reader; a handshake can only connect it.
use browsertorrent.Common.{
  ℕ, ◌+◌, ◌≡◌, refl, ap, inl, inr, true, false, not, ◌&&◌, ◌||◌, List, Result, ok, err, length, leb,
  Bool-cases, ◌∙◌, if-true, drop, some,
}
use browsertorrent.Common.Words.{nat}
use browsertorrent.Message
use browsertorrent.Message.{PeerMessage, payload, extended, encode_message}
use browsertorrent.Handshake.{PeerHandshake, handshake_length, extension_protocol}
use browsertorrent.Wire.{
  connected, WireError, send, log, Wire, Outcome, returned, thrown, is_closed, Environment,
}
use browsertorrent.Wire.Checks.{has_negotiated, commit_availability_order}
use browsertorrent.Wire.Lifecycle.{touch_activity}
use browsertorrent.Wire.Writing.{write_frame_lem}
use browsertorrent.Wire.Send.{
  check_outgoing, after_write, within_message_limit, send_frame, send_checked, send_message,
}
use browsertorrent.Wire.Connect.{
  connect, mark_sent, caught_later, send_host_bytes, send_extended_handshake, greet,
  try_transition_to_connected,
}
use browsertorrent.Wire.Receive.{handshake_done, handshake_kept}
use browsertorrent.Wire.Shape.{apply_local_state_shape}

-- What neither a message that is sent nor the extended handshake changes.
abbrev pub Fixed : Wire → Wire → Type 0
Fixed w w' =
    (w'.state ≡ w.state)
    × (w'.handshake_received ≡ w.handshake_received)
    × (w'.buffer ≡ w.buffer)
    × (w'.config ≡ w.config)
    × (w'.remote_handshake ≡ w.remote_handshake)

abbrev FixedOutcome : Wire → Outcome → Type 0
FixedOutcome w (returned w') = Fixed w w'
FixedOutcome w (thrown e w') = Fixed w w'

after_write-Fixed : (w : Wire) (m : PeerMessage) (frame : List ℕ) → Fixed w (after_write w m frame)
unfolding after_write touch_activity
after_write-Fixed w m frame =
    let w0 : Wire = record w {
      local_availability = commit_availability_order w.local_availability m;
    } in
    (
      ap (λ u. u.state) (apply_local_state_shape w0 m),
      ap (λ u. u.handshake_received) (apply_local_state_shape w0 m),
      ap (λ u. u.buffer) (apply_local_state_shape w0 m),
      ap (λ u. u.config) (apply_local_state_shape w0 m),
      ap (λ u. u.remote_handshake) (apply_local_state_shape w0 m),
    )

module _ (env : Environment) where
  send_frame-Fixed :
      (w : Wire) (m : PeerMessage) (o : Result Message.Error (List ℕ))
      → FixedOutcome w (send_frame env w m o)
  unfolding send_frame
  send_frame-Fixed w m (err e) = (refl, refl, refl, refl, refl)
  send_frame-Fixed w m (ok frame) = elim (Bool-cases (within_message_limit w frame)) [
    | inr e ↦ rw e (refl, refl, refl, refl, refl)
    | inl e ↦
        elim (Bool-cases
          (leb (w.queued_write_bytes + length frame) w.config.max_queued_write_bytes)) [
            | inr e' ↦ rw (e, write_frame_lem env frame w, e') (refl, refl, refl, refl, refl)
            | inl e' ↦ elim (Bool-cases (env.transport_accepts frame)) [
              | inr e'' ↦
                  rw (e, write_frame_lem env frame w, e', e'') (refl, refl, refl, refl, refl)
              | inl e'' ↦
                  rw (e, write_frame_lem env frame w, e', e'')
                    (after_write-Fixed (log (send frame) w) m frame)
            ]
          ]
  ]

  pub send_message-Fixed : (w : Wire) (m : PeerMessage) → FixedOutcome w (send_message env m w)
  unfolding send_message
  send_message-Fixed w m = by_check (check_outgoing w m)
    where
      by_check : (o : Result WireError (Unit {0})) → FixedOutcome w (send_checked env w m o)
      by_check (err e) = (refl, refl, refl, refl, refl)
      by_check (ok u) = send_frame-Fixed w m (encode_message m)

  send_host_bytes-Fixed :
      (w : Wire) (o : Result WireError (List ℕ)) → Fixed w (caught_later (send_host_bytes env w o))
  send_host_bytes-Fixed w (err e) = (refl, refl, refl, refl, refl)
  send_host_bytes-Fixed w (ok bs) =
      by_outcome (send_message env (payload (extended (nat 0) bs)) w)
        (send_message-Fixed w (payload (extended (nat 0) bs)))
    where
      by_outcome : (o : Outcome) → FixedOutcome w o → Fixed w (caught_later (mark_sent o))
      by_outcome (returned u) h = h
      by_outcome (thrown e u) h = h

  send_extended_handshake-Fixed :
      (w : Wire) → Fixed w (caught_later (send_extended_handshake env w))
  unfolding send_extended_handshake
  send_extended_handshake-Fixed w =
      elim (Bool-cases (w.extension_handshake_sent || not (has_negotiated w extension_protocol))) [
        | inl e ↦ rw e (refl, refl, refl, refl, refl)
        | inr e ↦ rw e (send_host_bytes-Fixed w env.host_handshake)
      ]

  pub greet-Fixed : (w : Wire) → Fixed w (greet env w)
  greet-Fixed w = elim (Bool-cases (has_negotiated w extension_protocol)) [
    | inr e ↦ rw e (refl, refl, refl, refl, refl)
    | inl e ↦ rw e (send_extended_handshake-Fixed w)
  ]

  -- A wire that is not closed is none after the transition, and the phase is kept.
  pub try_transition_open :
      (w : Wire)
      → is_closed w.state ≡ false
      → (is_closed (try_transition_to_connected env w).state ≡ false)
        × ((try_transition_to_connected env w).handshake_received ≡ w.handshake_received)
  unfolding try_transition_to_connected connect
  try_transition_open w h = elim (Bool-cases (w.handshake_sent && w.handshake_received)) [
    | inr e ↦ rw e (h, refl)
    | inl e ↦
        let (same_state, same_phase, same_buffer, same_config, same_peer) =
          greet-Fixed (connect w) in
        rw e (ap is_closed same_state, same_phase)
  ]

  try_transition_connects :
      (w : Wire)
      → w.handshake_sent ≡ true
      → w.handshake_received ≡ true
      → try_transition_to_connected env w ≡ greet env (connect w)
  unfolding try_transition_to_connected
  try_transition_connects w sent received =
      if-true (w.handshake_sent && w.handshake_received) _ _
        (ap (λ b. b && w.handshake_received) sent ∙ received)

  pub handshake_done_open :
      (w : Wire) (h : PeerHandshake)
      → is_closed w.state ≡ false
      → (is_closed (handshake_done env w h).state ≡ false)
        × ((handshake_done env w h).handshake_received ≡ true)
  unfolding handshake_done
  handshake_done_open w h o = try_transition_open (handshake_kept w h) o

  -- A wire that has sent its handshake is connected by that of the peer.
  pub handshake_done_connects :
      (w : Wire) (h : PeerHandshake)
      → w.handshake_sent ≡ true
      → let d = handshake_done env w h in
        (d.state ≡ connected)
        × (d.handshake_received ≡ true)
        × (d.buffer ≡ drop handshake_length w.buffer)
        × (d.config ≡ w.config)
        × (d.remote_handshake ≡ some h)
  unfolding handshake_done
  handshake_done_connects w h sent =
      let kept : Wire = handshake_kept w h in
      let connects : try_transition_to_connected env kept ≡ greet env (connect kept) =
        try_transition_connects kept sent refl in
      let (same_state, same_phase, same_buffer, same_config, same_peer) =
        greet-Fixed (connect kept) in
      (
        ap (λ u. u.state) connects ∙ same_state ∙ unfold connect in refl,
        ap (λ u. u.handshake_received) connects ∙ same_phase ∙ unfold connect in refl,
        ap (λ u. u.buffer) connects ∙ same_buffer ∙ unfold connect in refl,
        ap (λ u. u.config) connects ∙ same_config ∙ unfold connect in refl,
        ap (λ u. u.remote_handshake) connects ∙ same_peer ∙ unfold connect in refl,
      )
