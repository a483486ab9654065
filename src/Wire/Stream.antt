-- ===== src/Wire/Stream.antt =====
-- `_onData`: a stream of bytes does the same however it is cut into chunks.
use browsertorrent.Common.{
  ℕ, zero, suc, ◌+◌, ◌≡◌, refl, ap, ◌∙◌, inl, inr, List, Result, ok, err, ◌>>=◌, ◌>>◌,
}
use browsertorrent.Message
use browsertorrent.Message.{Payload, payload, PeerMessage, decode_payload, encode_message}
use browsertorrent.Wire.{WireError, Wire, Outcome, returned, thrown, Environment}
use browsertorrent.Wire.Checks.{commit_availability_order}
use browsertorrent.Wire.Transitions.{apply_remote_state}
use browsertorrent.Wire.Lifecycle.{touch_activity}
use browsertorrent.Wire.Receive.{
  Front, incomplete, keep_alive_frame, too_long, frame, front, Round, waiting, next, failed, accept,
  receive_message, on_front, round, process_frames, check_received, round_of, of_codec,
}
use browsertorrent.Wire.Frames.{Round-cases}
use browsertorrent.Wire.Shape.{dispatch_shape, apply_remote_state_shape}

-- The same state of the connection, and the same phase of the reader.
abbrev pub Keeps : Wire → Wire → Type 0
Keeps w w' = (w'.state ≡ w.state) × (w'.handshake_received ≡ w.handshake_received)

abbrev pub KeepsRound : Wire → Round → Type 0
KeepsRound w waiting = Unit {0}
KeepsRound w (next w') = Keeps w w'
KeepsRound w (failed e) = Unit {0}

abbrev pub KeepsOutcome : Wire → Outcome → Type 0
KeepsOutcome w (returned w') = Keeps w w'
KeepsOutcome w (thrown e w') = Keeps w w'

module _ (env : Environment) where
  pub accept-Keeps :
      (w : Wire) (p : Payload) (n : ℕ) (rest : List ℕ) → Keeps w (accept env w p n rest)
  unfolding accept touch_activity
  accept-Keeps w p n rest =
      let w0 : Wire = record w {
        remote_availability = commit_availability_order w.remote_availability (payload p);
      } in
      let w1 : Wire = apply_remote_state w0 (payload p) in
      let w2 : Wire = record w1 { downloaded_bytes = w1.downloaded_bytes + (4 + n) } in
      (
        ap (λ u. u.state) (dispatch_shape env w2 p)
            ∙ ap (λ u. u.state) (apply_remote_state_shape w0 p),
        ap (λ u. u.handshake_received) (dispatch_shape env w2 p)
            ∙ ap (λ u. u.handshake_received) (apply_remote_state_shape w0 p),
      )

  receive_message-Keeps :
      (w : Wire) (n : ℕ) (bytes rest : List ℕ)
      → KeepsRound w (round_of (receive_message env w n bytes rest))
  unfolding receive_message
  receive_message-Keeps w n bytes rest = by_payload (decode_payload bytes)
    where
      checked :
          (p : Payload) (o : Result WireError (Unit {0}))
          → KeepsRound w (round_of (o >> ok (accept env w p n rest)))
      checked p (err e) = tt
      checked p (ok u) = accept-Keeps w p n rest

      by_payload :
          (o : Result Message.Error Payload)
          → KeepsRound w (
              round_of
                (of_codec o >>= λ p. check_received w (payload p) >> ok (accept env w p n rest)))
      by_payload (err e) = tt
      by_payload (ok p) = checked p (check_received w (payload p))

  pub round-Keeps : (w : Wire) → KeepsRound w (round env w)
  unfolding round touch_activity
  round-Keeps w = by_front (front w.config.max_message_length w.buffer)
    where
      by_front : (f : Front) → KeepsRound w (on_front env w f)
      by_front incomplete = tt
      by_front (keep_alive_frame rest) = (refl, refl)
      by_front too_long = tt
      by_front (frame n bytes rest) = receive_message-Keeps w n bytes rest

  KeepsOutcome-trans :
      (w w' : Wire) (o : Outcome) → Keeps w w' → KeepsOutcome w' o → KeepsOutcome w o
  KeepsOutcome-trans w w' (returned u) k h = (h.0 ∙ k.0, h.1 ∙ k.1)
  KeepsOutcome-trans w w' (thrown e u) k h = (h.0 ∙ k.0, h.1 ∙ k.1)

  pub process_frames-Keeps : (n : ℕ) (w : Wire) → KeepsOutcome w (process_frames env n w)
  unfolding process_frames
  process_frames-Keeps zero w = (refl, refl)
  process_frames-Keeps (suc n) w = elim (Round-cases (round env w)) [
    | inl e ↦ rw e (refl, refl)
    | inr (inl (w', e)) ↦
        let kept : Keeps w w' = rw e at (round-Keeps w) in
        rw e (KeepsOutcome-trans w w' (process_frames env n w') kept (process_frames-Keeps n w'))
    | inr (inr (x, e)) ↦ rw e (refl, refl)
  ]
