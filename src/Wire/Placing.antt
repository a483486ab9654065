-- ===== src/Wire/Placing.antt =====
-- Effects that came before, and tasks that wait, make no difference to the messages behind the
-- handshake.
use browsertorrent.Common.{
  ℕ, zero, suc, ◌+◌, ◌≡◌, refl, sym, ap, ◌∙◌, inl, inr, Bool, true, Option, some, List, [], ◌∷◌,
  ◌++◌, Result, ok, err, ◌>>=◌, ◌>>◌, length, Bool-cases,
}
use mathlib.Core.List.{append_assoc}
use browsertorrent.Message
use browsertorrent.Message.{
  Payload, choke, unchoke, interested, not_interested, have_all, have_none, have, suggest_piece,
  allowed_fast, port, bitfield, request, cancel, reject_request, piece, extended, unknown,
  hash_request, hash_reject, hashes, PeerMessage, payload, decode_payload,
}
use browsertorrent.Bencode.{Value}
use browsertorrent.Bencode.Decode.{DecodeError}
use browsertorrent.Bencode.Loop.{decode}
use browsertorrent.Wire.{
  handle_extended, Event, close, close_host, close_transport, emit, error, Effect, closed, Task,
  log, WireError, Wire, Outcome, returned, thrown, is_closed, Environment,
}
use browsertorrent.Wire.Receive.{
  Front, incomplete, keep_alive_frame, too_long, frame, front, Round, waiting, next, failed, accept,
  receive_message, on_front, round, check_received, round_of, of_codec, after_round, process_frames,
  caught, on_data, process_buffer,
}
use browsertorrent.Wire.Dispatch.{
  dispatch, dispatch_extended, is_zero, extended_options, emit_handshake,
}
use browsertorrent.Wire.Checks.{commit_availability_order}
use browsertorrent.Wire.Transitions.{apply_remote_state}
use browsertorrent.Wire.Lifecycle.{touch_activity, cleared, terminate, shut}
use browsertorrent.Wire.Greeting.{moved}
use browsertorrent.Wire.Cutting.{process_buffer_frames}
use browsertorrent.Wire.Stability.{on_data_closed, on_data_open, terminate_closed, terminate_open}

-- A wire behind these effects, with these tasks.
abbrev pub placed : List Effect → Bool → List Task → Wire → Wire
placed before sent ts w = record w {
  effects = before ++ w.effects;
  extension_handshake_sent = sent;
  tasks = ts;
}

abbrev placed_round : (Wire → Wire) → Round → Round
placed_round f waiting = waiting
placed_round f (next w) = next (f w)
placed_round f (failed e) = failed e

module _ (before : List Effect) (sent : Bool) (ts : List Task) where
  log-placed :
      (e : Effect) (w : Wire) → log e (placed before sent ts w) ≡ placed before sent ts (log e w)
  log-placed e w =
      ap (λ es. record w { effects = es; extension_handshake_sent = sent; tasks = ts })
        (append_assoc before w.effects (e ∷ []))

  apply_remote_state-placed :
      (p : Payload) (w : Wire)
      → apply_remote_state (placed before sent ts w) (payload p)
        ≡ placed before sent ts (apply_remote_state w (payload p))
  unfolding apply_remote_state
  apply_remote_state-placed choke w = refl
  apply_remote_state-placed unchoke w = refl
  apply_remote_state-placed interested w = refl
  apply_remote_state-placed not_interested w = refl
  apply_remote_state-placed have_all w = refl
  apply_remote_state-placed have_none w = refl
  apply_remote_state-placed (extended id bytes) w = refl
  apply_remote_state-placed (have i) w = refl
  apply_remote_state-placed (suggest_piece i) w = refl
  apply_remote_state-placed (allowed_fast i) w = refl
  apply_remote_state-placed (port p) w = refl
  apply_remote_state-placed (bitfield bits) w = refl
  apply_remote_state-placed (request r) w = refl
  apply_remote_state-placed (cancel r) w = refl
  apply_remote_state-placed (reject_request r) w = refl
  apply_remote_state-placed (piece i b bs) w = refl
  apply_remote_state-placed (unknown id bytes) w = refl
  apply_remote_state-placed (hash_request r) w = refl
  apply_remote_state-placed (hash_reject r) w = refl
  apply_remote_state-placed (hashes r hs) w = refl

  shut-placed :
      (r : Option WireError) (w : Wire)
      → shut r (placed before sent ts w) ≡ placed before sent ts (shut r w)
  unfolding shut
  shut-placed r w =
      let base : Wire = record w { state = closed; timers = cleared w.timers } in
      let told : Wire = record (log (close_host r) base) {
        pending_requests = [];
        peer_requests = [];
      } in
      ap
        (λ u.
          log close_transport
            (log (emit (close r)) (record u { pending_requests = []; peer_requests = [] })))
        (log-placed (close_host r) base)
      ∙ ap (log close_transport) (log-placed (emit (close r)) told)
      ∙ log-placed close_transport (log (emit (close r)) told)

  terminate-placed :
      (r : Option WireError) (w : Wire)
      → terminate r (placed before sent ts w) ≡ placed before sent ts (terminate r w)
  terminate-placed r w = elim (Bool-cases (is_closed w.state)) [
    | inl e ↦
        terminate_closed r (placed before sent ts w) e
        ∙ ap (placed before sent ts) (sym (terminate_closed r w e))
    | inr e ↦
        terminate_open r (placed before sent ts w) e
        ∙ shut-placed r w
        ∙ ap (placed before sent ts) (sym (terminate_open r w e))
  ]

  caught-placed :
      (o : Outcome) → caught (moved (placed before sent ts) o) ≡ placed before sent ts (caught o)
  caught-placed (returned w) = refl
  caught-placed (thrown e w) =
      ap (terminate (some e)) (log-placed (emit (error e)) w)
      ∙ terminate-placed (some e) (log (emit (error e)) w)

module _ (env : Environment) (before : List Effect) (sent : Bool) (ts : List Task) where
  dispatch-placed :
      (p : Payload) (w : Wire)
      → dispatch env p (placed before sent ts w) ≡ placed before sent ts (dispatch env p w)
  unfolding dispatch dispatch_extended
  dispatch-placed (extended id bytes) w = elim (Bool-cases (is_zero id)) [
    | inl e ↦ rw e (by_value (decode env.encode_text env.decode_text extended_options bytes))
    | inr e ↦ rw e (twice (emit (Event.extended id bytes)) (handle_extended id bytes))
  ]
    where
      twice :
          (a b : Effect)
          → log b (log a (placed before sent ts w)) ≡ placed before sent ts (log b (log a w))
      twice a b = ap (log b) (log-placed before sent ts a w) ∙ log-placed before sent ts b (log a w)

      by_value :
          (o : Result DecodeError Value)
          → log (handle_extended id bytes) (emit_handshake (placed before sent ts w) o)
            ≡ placed before sent ts (log (handle_extended id bytes) (emit_handshake w o))
      by_value (err e) = log-placed before sent ts (handle_extended id bytes) w
      by_value (ok v) = twice (emit (Event.extended_handshake v)) (handle_extended id bytes)
  dispatch-placed choke w = log-placed before sent ts (emit Event.choke) w
  dispatch-placed unchoke w = log-placed before sent ts (emit Event.unchoke) w
  dispatch-placed interested w = log-placed before sent ts (emit Event.interested) w
  dispatch-placed not_interested w = log-placed before sent ts (emit Event.not_interested) w
  dispatch-placed have_all w = log-placed before sent ts (emit Event.have_all) w
  dispatch-placed have_none w = log-placed before sent ts (emit Event.have_none) w
  dispatch-placed (have i) w = log-placed before sent ts (emit (Event.have i)) w
  dispatch-placed (suggest_piece i) w = log-placed before sent ts (emit (Event.suggest_piece i)) w
  dispatch-placed (allowed_fast i) w = log-placed before sent ts (emit (Event.allowed_fast i)) w
  dispatch-placed (port p) w = log-placed before sent ts (emit (Event.port p)) w
  dispatch-placed (bitfield bits) w = log-placed before sent ts (emit (Event.bitfield bits)) w
  dispatch-placed (request r) w = log-placed before sent ts (emit (Event.request r)) w
  dispatch-placed (cancel r) w = log-placed before sent ts (emit (Event.cancel r)) w
  dispatch-placed (reject_request r) w = log-placed before sent ts (emit (Event.reject_request r)) w
  dispatch-placed (piece i b bs) w = log-placed before sent ts (emit (Event.piece i b bs)) w
  dispatch-placed (unknown id bytes) w = log-placed before sent ts (emit (Event.unknown id bytes)) w
  dispatch-placed (hash_request r) w = log-placed before sent ts (emit (Event.hash_request r)) w
  dispatch-placed (hash_reject r) w = log-placed before sent ts (emit (Event.hash_reject r)) w
  dispatch-placed (hashes r hs) w = log-placed before sent ts (emit (Event.hashes r hs)) w

  accept-placed :
      (w : Wire) (p : Payload) (n : ℕ) (rest : List ℕ)
      → accept env (placed before sent ts w) p n rest
        ≡ placed before sent ts (accept env w p n rest)
  unfolding accept touch_activity
  accept-placed w p n rest =
      let w0 : Wire = record w {
        remote_availability = commit_availability_order w.remote_availability (payload p);
      } in
      let w1 : Wire = apply_remote_state w0 (payload p) in
      rw
        (
          apply_remote_state-placed before sent ts p w0,
          dispatch-placed p (record w1 { downloaded_bytes = w1.downloaded_bytes + (4 + n) }),
        )
        refl

  receive_message-placed :
      (w : Wire) (n : ℕ) (bytes rest : List ℕ)
      → round_of (receive_message env (placed before sent ts w) n bytes rest)
        ≡ placed_round (placed before sent ts) (round_of (receive_message env w n bytes rest))
  unfolding receive_message check_received
  receive_message-placed w n bytes rest = by_payload (decode_payload bytes)
    where
      checked :
          (p : Payload) (o : Result WireError (Unit {0}))
          → round_of (o >> ok (accept env (placed before sent ts w) p n rest))
            ≡ placed_round (placed before sent ts) (round_of (o >> ok (accept env w p n rest)))
      checked p (err e) = refl
      checked p (ok u) = ap next (accept-placed w p n rest)

      by_payload :
          (o : Result Message.Error Payload)
          → round_of (
              of_codec o >>= λ p.
              check_received (placed before sent ts w) (payload p)
              >> ok (accept env (placed before sent ts w) p n rest))
            ≡ placed_round (placed before sent ts) (
                round_of
                  (of_codec o >>= λ p. check_received w (payload p) >> ok (accept env w p n rest)))
      by_payload (err e) = refl
      by_payload (ok p) = checked p (check_received w (payload p))

  round-placed :
      (w : Wire)
      → round env (placed before sent ts w) ≡ placed_round (placed before sent ts) (round env w)
  unfolding round touch_activity
  round-placed w = by_front (front w.config.max_message_length w.buffer)
    where
      by_front :
          (f : Front)
          → on_front env (placed before sent ts w) f
            ≡ placed_round (placed before sent ts) (on_front env w f)
      by_front incomplete = refl
      by_front (keep_alive_frame rest) =
          ap (λ u. next (touch_activity u))
            (log-placed before sent ts (emit Event.keep_alive) (record w { buffer = rest }))
      by_front too_long = refl
      by_front (frame n bytes rest) = receive_message-placed w n bytes rest

  process_frames-placed :
      (n : ℕ) (w : Wire)
      → process_frames env n (placed before sent ts w)
        ≡ moved (placed before sent ts) (process_frames env n w)
  unfolding process_frames
  process_frames-placed zero w = refl
  process_frames-placed (suc n) w =
      ap (after_round env (process_frames env n) (placed before sent ts w)) (round-placed w)
      ∙ by_round (λ u. process_frames-placed n u) (round env w)
    where
      by_round :
          ((u : Wire)
            → process_frames env n (placed before sent ts u)
              ≡ moved (placed before sent ts) (process_frames env n u))
          → (r : Round)
          → after_round env
              (process_frames env n)
              (placed before sent ts w)
              (placed_round (placed before sent ts) r)
            ≡ moved (placed before sent ts) (after_round env (process_frames env n) w r)
      by_round go waiting = refl
      by_round go (next u) = go u
      by_round go (failed e) = refl

  -- A chunk behind the handshake.
  pub on_data-placed :
      (c : List ℕ) (w : Wire)
      → w.handshake_received ≡ true
      → on_data env c (placed before sent ts w) ≡ placed before sent ts (on_data env c w)
  on_data-placed c w r = elim (Bool-cases (is_closed w.state)) [
    | inl e ↦
        on_data_closed env c (placed before sent ts w) e
        ∙ ap (placed before sent ts) (sym (on_data_closed env c w e))
    | inr e ↦
        let more : Wire = record w { buffer = w.buffer ++ c } in
        on_data_open env c (placed before sent ts w) e
        ∙ ap caught (
            process_buffer_frames env (placed before sent ts more) r
            ∙ process_frames-placed (length more.buffer) more
            ∙ ap (moved (placed before sent ts)) (sym (process_buffer_frames env more r)))
        ∙ caught-placed before sent ts (process_buffer env more)
        ∙ ap (placed before sent ts) (sym (on_data_open env c w e))
  ]
