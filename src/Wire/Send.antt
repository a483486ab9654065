-- ===== src/Wire/Send.antt =====
-- `sendHandshake`, `_sendMessage` and what they call, and the callback of the keepalive timer.
use browsertorrent.Common.{
  ℕ, ◌+◌, ◌-◌, Bool, true, false, not, ◌||◌, List, if◌then◌else◌, Result, ok, err, ◌>>◌, guard,
  length, leb,
}
use browsertorrent.Message
use browsertorrent.Handshake
use browsertorrent.Message.{extended, PeerMessage, keep_alive, payload, encode_message}
use browsertorrent.Handshake.{extension_protocol, bytes, encode_handshake}
use browsertorrent.Wire.{
  WireError, peer_wire_error, protocol_error, range_error, transport_error, error, emit, send, Wire,
  Outcome, returned, thrown, log, is_closed, is_connected, Environment,
}
use browsertorrent.Wire.Checks.{
  fast_negotiated, assert_extension_negotiated, validate_availability_order,
  commit_availability_order, validate_message_bounds,
}
use browsertorrent.Wire.Transitions.{apply_local_state}
use browsertorrent.Wire.Lifecycle.{touch_activity}

-- The classes of the codecs' errors.
abbrev pub of_message_error : Message.Error → WireError
of_message_error Message.range_error = range_error
of_message_error Message.protocol_error = protocol_error

abbrev pub of_handshake_error : Handshake.Error → WireError
of_handshake_error Handshake.range_error = range_error
of_handshake_error Handshake.protocol_error = protocol_error

abbrev pub is_keep_alive : PeerMessage → Bool
is_keep_alive keep_alive = true
is_keep_alive (payload p) = false

-- What `_sendMessage` checks before it encodes.
unfoldable pub check_outgoing : Wire → PeerMessage → Result WireError (Unit {0})
unfolding assert_extension_negotiated validate_availability_order validate_message_bounds
check_outgoing w m = do
  guard (not (is_closed w.state)) peer_wire_error
  guard (is_connected w.state || is_keep_alive m) peer_wire_error
  assert_extension_negotiated w m
  validate_availability_order (fast_negotiated w) w.local_availability m
  validate_message_bounds w.config false m

-- The state after a frame was written.
unfoldable pub after_write : Wire → PeerMessage → List ℕ → Wire
unfolding commit_availability_order apply_local_state touch_activity
after_write w m frame =
    let w1 =
      apply_local_state
        (record w { local_availability = commit_availability_order w.local_availability m }) m in
    touch_activity (record w1 { uploaded_bytes = w1.uploaded_bytes + length frame })

abbrev pub within_message_limit : Wire → List ℕ → Bool
within_message_limit w frame = leb (length frame - 4) w.config.max_message_length

abbrev pub written : PeerMessage → List ℕ → Outcome → Outcome
written m frame (thrown e w) = thrown e w
written m frame (returned w) = returned (after_write w m frame)

-- The bytes of a frame are counted before the transport's `send`, and not any more after it.
abbrev pub enqueued : ℕ → Wire → Wire
enqueued n w = record w { queued_write_bytes = w.queued_write_bytes + n }

abbrev pub dequeued : ℕ → Wire → Wire
dequeued n w = record w { queued_write_bytes = w.queued_write_bytes - n }

module _ (env : Environment) where
  -- `_writeFrame`
  unfoldable pub write_frame : List ℕ → Wire → Outcome
  write_frame frame w =
      if not (leb (w.queued_write_bytes + length frame) w.config.max_queued_write_bytes)
      then thrown peer_wire_error w
      else if env.transport_accepts frame
      then returned (dequeued (length frame) (log (send frame) (enqueued (length frame) w)))
      else thrown transport_error (dequeued (length frame) (enqueued (length frame) w))

  unfoldable pub send_frame : Wire → PeerMessage → Result Message.Error (List ℕ) → Outcome
  unfolding write_frame
  send_frame w m (err e) = thrown (of_message_error e) (log (emit (error (of_message_error e))) w)
  send_frame w m (ok frame) =
      if within_message_limit w frame
      then written m frame (write_frame frame w)
      else thrown range_error w

  abbrev pub send_checked : Wire → PeerMessage → Result WireError (Unit {0}) → Outcome
  send_checked w m (err e) = thrown e w
  send_checked w m (ok passed) = send_frame w m (encode_message m)

  unfoldable pub send_message : PeerMessage → Wire → Outcome
  unfolding check_outgoing
  send_message m w = send_checked w m (check_outgoing w m)
