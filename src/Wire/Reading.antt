-- ===== src/Wire/Reading.antt =====
-- The bytes that arrive keep the invariant.
use browsertorrent.Common.{
  ℕ, zero, suc, ◌≡◌, refl, sym, ap, ◌∙◌, inl, inr, false, some, List, ◌++◌, Result, ok, err, ◌>>=◌,
  ◌>>◌, guard, >>=-eq-ok, ok-injective, length, take, ltb, Bool-cases, arith,
}
use mathlib.Core.Path.{subst}
use browsertorrent.Message
use browsertorrent.Message.{Payload, payload, decode_payload}
use browsertorrent.Handshake.{handshake_length, decode_handshake}
use browsertorrent.Wire.{
  WireError, protocol_error, Event, emit, error, Wire, Outcome, returned, thrown, log, is_closed,
  Environment,
}
use browsertorrent.Wire.Receive.{
  Front, incomplete, keep_alive_frame, too_long, frame, front, Round, waiting, next, failed, accept,
  receive_message, on_front, round, process_frames, check_received, round_of, of_codec,
  of_handshake_codec, matches, receive_handshake, after_handshake, process_buffer, caught, on_data,
}
use browsertorrent.Wire.Chunks.{arrived}
use browsertorrent.Wire.Frames.{Round-cases}
use browsertorrent.Wire.Stream.{Keeps, round-Keeps}
use browsertorrent.Wire.Cutting.{
  process_buffer_frames, process_buffer_short, process_buffer_long, receive_handshake_open,
}
use browsertorrent.Wire.Stability.{on_data_closed, on_data_open}
use browsertorrent.Wire.Invariant.{Inv, touch_activity-Inv}
use browsertorrent.Wire.Accepting.{accept-Inv}
use browsertorrent.Wire.Sending.{log-Inv, InvOutcome}
use browsertorrent.Wire.Connecting.{terminate-Inv, handshake_done-Inv}

-- The buffer stands in no part of the invariant.
buffer-Inv : (w : Wire) (b : List ℕ) → Inv w → Inv (record w { buffer = b })
buffer-Inv w b h = record {
  requests_bounded = h.requests_bounded;
  requests_valid = h.requests_valid;
  pending_valid = h.pending_valid;
  no_queue = h.no_queue;
  remote_order = h.remote_order;
  local_order = h.local_order;
  connected_greeted = h.connected_greeted;
  received_known = h.received_known;
  closed_clear = h.closed_clear;
  keep_alive_live = h.keep_alive_live;
  idle_live = h.idle_live;
  handshake_live = h.handshake_live;
  effects_agreed = h.effects_agreed;
}

abbrev InvRound : Round → Type 0
InvRound waiting = Unit {0}
InvRound (next w) = Inv w
InvRound (failed e) = Unit {0}

module _ (env : Environment) where
  receive_message-Inv :
      (w : Wire) (n : ℕ) (bytes rest : List ℕ)
      → Inv w
      → is_closed w.state ≡ false
      → InvRound (round_of (receive_message env w n bytes rest))
  unfolding receive_message
  receive_message-Inv w n bytes rest h o = by_payload (decode_payload bytes)
    where
      checked :
          (p : Payload) (r : Result WireError (Unit {0}))
          → check_received w (payload p) ≡ r
          → InvRound (round_of (r >> ok (accept env w p n rest)))
      checked p (err e) q = tt
      checked p (ok u) q = accept-Inv env w p n rest h o q

      by_payload :
          (r : Result Message.Error Payload)
          → InvRound (
              round_of
                (of_codec r >>= λ p. check_received w (payload p) >> ok (accept env w p n rest)))
      by_payload (err e) = tt
      by_payload (ok p) = checked p (check_received w (payload p)) refl

  round-Inv : (w : Wire) → Inv w → is_closed w.state ≡ false → InvRound (round env w)
  unfolding round
  round-Inv w h o = by_front (front w.config.max_message_length w.buffer)
    where
      by_front : (f : Front) → InvRound (on_front env w f)
      by_front incomplete = tt
      by_front (keep_alive_frame rest) =
          touch_activity-Inv (log (emit Event.keep_alive) (record w { buffer = rest })) (
            log-Inv (record w { buffer = rest }) (emit Event.keep_alive) refl (buffer-Inv w rest h))
      by_front too_long = tt
      by_front (frame n bytes rest) = receive_message-Inv w n bytes rest h o

  process_frames-Inv :
      (n : ℕ) (w : Wire) → Inv w → is_closed w.state ≡ false → InvOutcome (process_frames env n w)
  unfolding process_frames
  process_frames-Inv zero w h o = h
  process_frames-Inv (suc n) w h o = elim (Round-cases (round env w)) [
    | inl e ↦ rw e h
    | inr (inl (w', e)) ↦
        let kept : Keeps w w' = rw e at (round-Keeps env w) in
        let h' : Inv w' = rw e at (round-Inv w h o) in
        rw e (process_frames-Inv n w' h' (ap is_closed kept.0 ∙ o))
    | inr (inr (x, e)) ↦ rw e h
  ]

  receive_handshake-Inv :
      (w w' : Wire)
      → Inv w
      → w.handshake_received ≡ false
      → receive_handshake env w ≡ ok w'
      → Inv w'
  unfolding receive_handshake
  receive_handshake-Inv w w' inv new e =
      let (h, read, e1) =
        >>=-eq-ok
          (of_handshake_codec (decode_handshake env.decode_text (take handshake_length w.buffer))) _
          e in
      let (u, t1, e2) =
        >>=-eq-ok (guard (matches w.config.expected_info_hash h.info_hash) protocol_error) _ e1 in
      let (v, t2, e3) =
        >>=-eq-ok (guard (matches w.config.expected_peer_id h.peer_id) protocol_error) _ e2 in
      subst Inv (ok-injective e3) (handshake_done-Inv env w h inv new)

  process_buffer-Inv :
      (w : Wire) → Inv w → is_closed w.state ≡ false → InvOutcome (process_buffer env w)
  process_buffer-Inv w h o = elim (Bool-cases w.handshake_received) [
    | inl e ↦
        subst InvOutcome (sym (process_buffer_frames env w e))
          (process_frames-Inv (length w.buffer) w h o)
    | inr e ↦ elim (Bool-cases (ltb (length w.buffer) handshake_length)) [
      | inl e' ↦ subst InvOutcome (sym (process_buffer_short env w e e')) h
      | inr e' ↦ subst InvOutcome (sym (process_buffer_long env w e (ground arith))) (
          by_handshake (receive_handshake env w)
            (λ u q. (receive_handshake-Inv w u h e q, (receive_handshake_open env w u o q).0)))
    ]
  ]
    where
      by_handshake :
          (r : Result WireError Wire)
          → ((u : Wire) → r ≡ ok u → Inv u × (is_closed u.state ≡ false))
          → InvOutcome (after_handshake env w r)
      by_handshake (err e) q = h
      by_handshake (ok u) q =
          let (h', o') = q u refl in process_frames-Inv (length u.buffer) u h' o'

  caught-Inv : (o : Outcome) → InvOutcome o → Inv (caught o)
  caught-Inv (returned w) h = h
  caught-Inv (thrown e w) h =
      terminate-Inv (some e) (log (emit (error e)) w) (log-Inv w (emit (error e)) refl h)

  pub on_data-Inv : (c : List ℕ) (w : Wire) → Inv w → Inv (on_data env c w)
  on_data-Inv c w h = elim (Bool-cases (is_closed w.state)) [
    | inl e ↦ subst Inv (sym (on_data_closed env c w e)) h
    | inr e ↦ subst Inv (sym (on_data_open env c w e)) (
        caught-Inv (process_buffer env (arrived c w))
          (process_buffer-Inv (arrived c w) (buffer-Inv w (w.buffer ++ c) h) e))
  ]
