-- ===== src/Wire/Cutting.antt =====
-- `_onData`: a stream of bytes does the same however it is cut into chunks.
use browsertorrent.Common.{
  ℕ, ◌≤◌, ◌≡◌, refl, sym, ap, ◌∙◌, inl, inr, true, false, List, Result, ok, err, ◌>>=◌, ◌>>◌, guard,
  length, take, ltb, arith, Bool-cases, if-true, if-false, >>=-eq-ok, ok-injective, length-append,
  drop-append_left,
}
use browsertorrent.Handshake
use browsertorrent.Handshake.{PeerHandshake, handshake_length, decode_handshake}
use browsertorrent.Wire.{
  WireError, protocol_error, Wire, Outcome, returned, thrown, is_closed, Environment,
}
use browsertorrent.Wire.Receive.{
  process_frames, of_handshake_codec, matches, handshake_kept, handshake_done, receive_handshake,
  after_handshake, process_buffer,
}
use browsertorrent.Wire.Chunks.{arrived, take-append_left}
use browsertorrent.Wire.Frames.{process_frames-arrived, resumed}
use browsertorrent.Wire.Greeting.{try_transition_to_connected-arrived}
use browsertorrent.Wire.Stream.{KeepsOutcome, process_frames-Keeps}
use browsertorrent.Wire.Kept.{handshake_done_open}

abbrev mapped : (Wire → Wire) → Result WireError Wire → Result WireError Wire
mapped f (err e) = err e
mapped f (ok w) = ok (f w)

module _ (env : Environment) where
  handshake_kept-arrived :
      (c : List ℕ) (w : Wire) (h : PeerHandshake)
      → handshake_length ≤ length w.buffer
      → handshake_kept (arrived c w) h ≡ arrived c (handshake_kept w h)
  handshake_kept-arrived c w h enough =
      rw (drop-append_left handshake_length w.buffer c enough) refl

  handshake_done-arrived :
      (c : List ℕ) (w : Wire) (h : PeerHandshake)
      → handshake_length ≤ length w.buffer
      → handshake_done env (arrived c w) h ≡ arrived c (handshake_done env w h)
  unfolding handshake_done
  handshake_done-arrived c w h enough =
      rw
        (
          handshake_kept-arrived c w h enough,
          try_transition_to_connected-arrived env c (handshake_kept w h),
        )
        refl

  receive_handshake-arrived :
      (c : List ℕ) (w : Wire)
      → handshake_length ≤ length w.buffer
      → receive_handshake env (arrived c w) ≡ mapped (arrived c) (receive_handshake env w)
  unfolding receive_handshake
  receive_handshake-arrived c w enough =
      rw (take-append_left handshake_length w.buffer c enough)
        (by_handshake (decode_handshake env.decode_text (take handshake_length w.buffer)))
    where
      by_tests :
          (h : PeerHandshake) (a b : Result WireError (Unit {0}))
          → (a >> (b >> ok (handshake_done env (arrived c w) h)))
            ≡ mapped (arrived c) (a >> (b >> ok (handshake_done env w h)))
      by_tests h (err e) b = refl
      by_tests h (ok u) (err e) = refl
      by_tests h (ok u) (ok v) = ap ok (handshake_done-arrived c w h enough)

      by_handshake :
          (o : Result Handshake.Error PeerHandshake)
          → (of_handshake_codec o >>= λ h.
              guard (matches w.config.expected_info_hash h.info_hash) protocol_error
              >> (guard (matches w.config.expected_peer_id h.peer_id) protocol_error
                  >> ok (handshake_done env (arrived c w) h)))
            ≡ mapped (arrived c) (
                of_handshake_codec o >>= λ h.
                guard (matches w.config.expected_info_hash h.info_hash) protocol_error
                >> (guard (matches w.config.expected_peer_id h.peer_id) protocol_error
                    >> ok (handshake_done env w h)))
      by_handshake (err e) = refl
      by_handshake (ok h) =
          by_tests h (guard (matches w.config.expected_info_hash h.info_hash) protocol_error)
            (guard (matches w.config.expected_peer_id h.peer_id) protocol_error)

  after_handshake-arrived :
      (c : List ℕ) (w : Wire) (o : Result WireError Wire)
      → after_handshake env (arrived c w) (mapped (arrived c) o)
        ≡ resumed env c (after_handshake env w o)
  after_handshake-arrived c w (err e) = refl
  after_handshake-arrived c w (ok w') =
      process_frames-arrived env (length w'.buffer) w' c (omega arith)

  -- What a call of `_processBuffer` on more bytes comes to, from what it came to before them.
  abbrev pub again : List ℕ → Outcome → Outcome
  again c (returned w) = process_buffer env (arrived c w)
  again c (thrown e w) = thrown e (arrived c w)

  pub process_buffer_frames :
      (w : Wire)
      → w.handshake_received ≡ true
      → process_buffer env w ≡ process_frames env (length w.buffer) w
  unfolding process_buffer
  process_buffer_frames w e = if-true w.handshake_received _ _ e

  pub process_buffer_short :
      (w : Wire)
      → w.handshake_received ≡ false
      → ltb (length w.buffer) handshake_length ≡ true
      → process_buffer env w ≡ returned w
  unfolding process_buffer
  process_buffer_short w e e' =
      if-false w.handshake_received _ _ e ∙ if-true (ltb (length w.buffer) handshake_length) _ _ e'

  pub process_buffer_long :
      (w : Wire)
      → w.handshake_received ≡ false
      → handshake_length ≤ length w.buffer
      → process_buffer env w ≡ after_handshake env w (receive_handshake env w)
  unfolding process_buffer
  process_buffer_long w e h =
      if-false w.handshake_received _ _ e
      ∙ if-false (ltb (length w.buffer) handshake_length) _ _ (ground arith)

  resumed-again :
      (c : List ℕ) (w : Wire) (o : Outcome)
      → w.handshake_received ≡ true
      → KeepsOutcome w o
      → resumed env c o ≡ again c o
  resumed-again c w (returned w') r k = sym (process_buffer_frames (arrived c w') (k.1 ∙ r))
  resumed-again c w (thrown e w') r k = refl

  after_handshake-again :
      (c : List ℕ) (w : Wire) (o : Result WireError Wire)
      → ((w' : Wire) → o ≡ ok w' → w'.handshake_received ≡ true)
      → resumed env c (after_handshake env w o) ≡ again c (after_handshake env w o)
  after_handshake-again c w (err e) r = refl
  after_handshake-again c w (ok w') r =
      resumed-again c w' (process_frames env (length w'.buffer) w') (r w' refl)
        (process_frames-Keeps env (length w'.buffer) w')

  -- A handshake that is taken leaves an open wire in its second phase.
  pub receive_handshake_open :
      (w w' : Wire)
      → is_closed w.state ≡ false
      → receive_handshake env w ≡ ok w'
      → (is_closed w'.state ≡ false) × (w'.handshake_received ≡ true)
  unfolding receive_handshake
  receive_handshake_open w w' o e =
      let (h, read, e1) =
        >>=-eq-ok
          (of_handshake_codec (decode_handshake env.decode_text (take handshake_length w.buffer))) _
          e in
      let (u, t1, e2) =
        >>=-eq-ok (guard (matches w.config.expected_info_hash h.info_hash) protocol_error) _ e1 in
      let (v, t2, e3) =
        >>=-eq-ok (guard (matches w.config.expected_peer_id h.peer_id) protocol_error) _ e2 in
      rw (ok-injective e3) at (handshake_done_open env w h o)

  pub process_buffer-arrived :
      (c : List ℕ) (w : Wire)
      → is_closed w.state ≡ false
      → process_buffer env (arrived c w) ≡ again c (process_buffer env w)
  process_buffer-arrived c w o = elim (Bool-cases w.handshake_received) [
    | inl e ↦
        process_buffer_frames (arrived c w) e
        ∙ process_frames-arrived env (length w.buffer) w c (omega arith)
        ∙ resumed-again c w (process_frames env (length w.buffer) w) e
            (process_frames-Keeps env (length w.buffer) w)
        ∙ ap (again c) (sym (process_buffer_frames w e))
    | inr e ↦ elim (Bool-cases (ltb (length w.buffer) handshake_length)) [
      | inl e' ↦ ap (again c) (sym (process_buffer_short w e e'))
      | inr e' ↦
          let long : handshake_length ≤ length w.buffer = ground arith in
          process_buffer_long (arrived c w) e (omega (arith, length-append w.buffer c))
          ∙ ap (after_handshake env (arrived c w)) (receive_handshake-arrived c w long)
          ∙ after_handshake-arrived c w (receive_handshake env w)
          ∙ after_handshake-again c w (receive_handshake env w)
              (λ w' q. (receive_handshake_open w w' o q).1)
          ∙ ap (again c) (sym (process_buffer_long w e long))
    ]
  ]
