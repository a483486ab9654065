-- ===== src/Wire/Receive.antt =====
-- `_onData` and `_processBuffer`: the handshake, then messages behind their length, as long as the
-- buffer holds them. Listeners do not call the wire back.
use browsertorrent.Common.{
  ℕ, zero, suc, ◌+◌, Bool, true, not, Option, none, some, List, ◌∷◌, ◌++◌, if◌then◌else◌, Result,
  ok, err, ◌>>=◌, ◌>>◌, guard, length, take, drop, leb, ltb, ◌==◌, list_eq,
}
use browsertorrent.Common.Words.{word32}
use browsertorrent.Message
use browsertorrent.Handshake
use browsertorrent.Message.{Payload, PeerMessage, payload, decode_payload}
use browsertorrent.Handshake.{PeerHandshake, handshake_length, decode_handshake}
use browsertorrent.Hex.{encode_hex}
use browsertorrent.Wire.{
  WireError, protocol_error, Event, emit, error, Wire, Outcome, returned, thrown, log, is_closed,
  Environment,
}
use browsertorrent.Wire.Checks.{
  fast_negotiated, assert_extension_negotiated, validate_availability_order,
  commit_availability_order, validate_incoming,
}
use browsertorrent.Wire.Transitions.{apply_remote_state}
use browsertorrent.Wire.Lifecycle.{touch_activity, terminate}
use browsertorrent.Wire.Send.{of_message_error, of_handshake_error}
use browsertorrent.Wire.Connect.{try_transition_to_connected}
use browsertorrent.Wire.Dispatch.{dispatch}

-- What stands at the front of the buffer.
pub data Front : Type 0 where
  incomplete : Front
  keep_alive_frame : List ℕ → Front
  too_long : Front
  frame : ℕ → List ℕ → List ℕ → Front

abbrev pub split_frame : ℕ → ℕ → List ℕ → Front
split_frame limit n rest =
    if n == 0
    then keep_alive_frame rest
    else if not (leb n limit)
    then too_long
    else if leb n (length rest)
    then frame n (take n rest) (drop n rest)
    else incomplete

unfoldable pub front : ℕ → List ℕ → Front
front limit (a ∷ b ∷ c ∷ d ∷ rest) = split_frame limit (word32 a b c d) rest
front limit _ = incomplete

abbrev pub matches : Option (List ℕ) → List ℕ → Bool
matches none actual = true
matches (some expected) actual = list_eq actual expected

-- What a round of the loop comes to.
pub data Round : Type 0 where
  waiting : Round
  next : Wire → Round
  failed : WireError → Round

abbrev pub keep_alive_received : Wire → List ℕ → Wire
keep_alive_received w rest =
    touch_activity (log (emit Event.keep_alive) (record w { buffer = rest }))

abbrev pub round_of : Result WireError Wire → Round
round_of (err e) = failed e
round_of (ok w) = next w

abbrev pub of_codec {ℓ} : {A : Type ℓ} → Result Message.Error A → Result WireError A
of_codec (err e) = err (of_message_error e)
of_codec (ok a) = ok a

abbrev pub of_handshake_codec {ℓ} : {A : Type ℓ} → Result Handshake.Error A → Result WireError A
of_handshake_codec (err e) = err (of_handshake_error e)
of_handshake_codec (ok a) = ok a

-- The checks of a message before it is applied.
unfoldable pub check_received : Wire → PeerMessage → Result WireError (Unit {0})
unfolding assert_extension_negotiated validate_availability_order validate_incoming
check_received w m = do
  assert_extension_negotiated w m
  validate_availability_order (fast_negotiated w) w.remote_availability m
  validate_incoming w m

abbrev pub handshake_kept : Wire → PeerHandshake → Wire
handshake_kept w h = record w {
  buffer = drop handshake_length w.buffer;
  handshake_received = true;
  remote_handshake = some h;
  peer_id_buffer = some h.peer_id;
  peer_id = some (encode_hex h.peer_id);
}

-- The `catch` of `_onData`.
abbrev pub caught : Outcome → Wire
caught (returned w) = w
caught (thrown e w) = terminate (some e) (log (emit (error e)) w)

module _ (env : Environment) where
  -- The round from the commitment of the order on, for a message of `n` bytes before `rest`.
  unfoldable pub accept : Wire → Payload → ℕ → List ℕ → Wire
  unfolding commit_availability_order apply_remote_state dispatch touch_activity
  accept w p n rest =
      let w1 =
        apply_remote_state
          (record w {
            remote_availability = commit_availability_order w.remote_availability (payload p);
          })
          (payload p) in
      let w2 = dispatch env p (record w1 { downloaded_bytes = w1.downloaded_bytes + (4 + n) }) in
      touch_activity (record w2 { buffer = rest })

  unfoldable pub receive_message : Wire → ℕ → List ℕ → List ℕ → Result WireError Wire
  unfolding check_received accept
  receive_message w n bytes rest = do
    p ← of_codec (decode_payload bytes)
    check_received w (payload p)
    ok (accept w p n rest)

  abbrev pub on_front : Wire → Front → Round
  on_front w incomplete = waiting
  on_front w (keep_alive_frame rest) = next (keep_alive_received w rest)
  on_front w too_long = failed protocol_error
  on_front w (frame n bytes rest) = round_of (receive_message w n bytes rest)

  unfoldable pub round : Wire → Round
  unfolding front receive_message
  round w = on_front w (front w.config.max_message_length w.buffer)

  abbrev pub after_round : (Wire → Outcome) → Wire → Round → Outcome
  after_round go w waiting = returned w
  after_round go w (next w') = go w'
  after_round go w (failed e) = thrown e w

  -- The second phase, on fuel; a round takes four bytes at least.
  unfoldable pub process_frames : ℕ → Wire → Outcome
  unfolding round
  process_frames zero w = returned w
  process_frames (suc fuel) w = after_round (process_frames fuel) w (round w)

  unfoldable pub handshake_done : Wire → PeerHandshake → Wire
  handshake_done w h =
      log (emit (Event.handshake h)) (try_transition_to_connected env (handshake_kept w h))

  unfoldable pub receive_handshake : Wire → Result WireError Wire
  receive_handshake w = do
    h ← of_handshake_codec (decode_handshake env.decode_text (take handshake_length w.buffer))
    guard (matches w.config.expected_info_hash h.info_hash) protocol_error
    guard (matches w.config.expected_peer_id h.peer_id) protocol_error
    ok (handshake_done w h)

  abbrev pub after_handshake : Wire → Result WireError Wire → Outcome
  after_handshake w (err e) = thrown e w
  after_handshake w (ok w') = process_frames (length w'.buffer) w'

  unfoldable pub process_buffer : Wire → Outcome
  unfolding receive_handshake process_frames
  process_buffer w =
      if w.handshake_received
      then process_frames (length w.buffer) w
      else if ltb (length w.buffer) handshake_length
      then returned w
      else after_handshake w (receive_handshake w)

  unfoldable pub on_data : List ℕ → Wire → Wire
  unfolding process_buffer terminate
  on_data chunk w =
      if is_closed w.state
      then w
      else caught (process_buffer (record w { buffer = w.buffer ++ chunk }))
