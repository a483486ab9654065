-- ===== src/Wire/Connect.antt =====
-- The end of the handshake, `sendHandshake`, `sendExtendedHandshake`, the guards of `use`, the
-- public senders and the callback of the keepalive timer. What follows an `await` is a task, which
-- `run_tasks` does once the code that runs has returned.
use browsertorrent.Common.{
  ℕ, true, false, not, ◌>>◌, guard, ◌&&◌, ◌||◌, Option, List, [], ◌∷◌, if◌then◌else◌, Result, ok,
  err, length, ◌==◌,
}
use browsertorrent.Common.Words.{Number, nat}
use browsertorrent.Handshake
use browsertorrent.Message.{
  BlockRequest, HashRequestFields, choke, unchoke, interested, not_interested, have_all, have_none,
  have, suggest_piece, allowed_fast, port, bitfield, request, cancel, reject_request, piece,
  extended, hash_request, hash_reject, hashes, keep_alive, payload,
}
use browsertorrent.Handshake.{extension_protocol, EncodeHandshakeOptions, bytes, encode_handshake}
use browsertorrent.Wire.{
  WireError, peer_wire_error, range_error, transport_error, connected, warning, emit, send, Task,
  handshake_marked, warned, Wire, Outcome, returned, thrown, log, defer, is_connected, Environment,
}
use browsertorrent.Wire.Checks.{has, has_negotiated}
use browsertorrent.Wire.Lifecycle.{
  is_handshaking, reset_keep_alive, reset_idle_timeout, start_speed_tracking,
}
use browsertorrent.Wire.Send.{of_handshake_error, send_message}

-- The wire as `_tryTransitionToConnected` leaves it before the extended handshake.
unfoldable pub connect : Wire → Wire
connect w = start_speed_tracking (
    reset_idle_timeout (
      reset_keep_alive
        (record w { state = connected; timers = record w.timers { handshake_timer = false } })))

-- The rest of `sendExtendedHandshake` behind its `await`.
abbrev pub mark_sent : Outcome → Outcome
mark_sent (thrown e w) = thrown e w
mark_sent (returned w) = returned (defer handshake_marked w)

-- `catch` of the promise, which is rejected where the extended handshake is not sent.
abbrev pub caught_later : Outcome → Wire
caught_later (returned w) = w
caught_later (thrown e w) = defer (warned e) w

abbrev pub run_task : Task → Wire → Wire
run_task handshake_marked w = record w { extension_handshake_sent = true }
run_task (warned e) w = log (emit (warning e)) w

abbrev pub run_each : List Task → Wire → Wire
run_each [] w = w
run_each (t ∷ ts) w = run_each ts (run_task t w)

-- The tasks that wait, in their order.
unfoldable pub run_tasks : Wire → Wire
run_tasks w = run_each w.tasks (record w { tasks = [] })

-- `catch {}`
abbrev pub ignored : Outcome → Wire
ignored (returned w) = w
ignored (thrown e w) = w

-- The guards of `use`, before it calls the extension host.
unfoldable pub check_use : Wire → Result WireError (Unit {0})
check_use w = do
  guard (is_handshaking w.state) peer_wire_error
  guard (has w.config.local_extensions extension_protocol) peer_wire_error

module _ (env : Environment) where
  abbrev pub send_host_bytes : Wire → Result WireError (List ℕ) → Outcome
  send_host_bytes w (err e) = thrown e w
  send_host_bytes w (ok bs) = mark_sent (send_message env (payload (extended (nat 0) bs)) w)

  -- `thrown` is a promise that is rejected.
  unfoldable pub send_extended_handshake : Wire → Outcome
  send_extended_handshake w =
      if w.extension_handshake_sent || not (has_negotiated w extension_protocol)
      then returned w
      else send_host_bytes w env.host_handshake

  abbrev pub greet : Wire → Wire
  greet w =
      if has_negotiated w extension_protocol then caught_later (send_extended_handshake w) else w

  unfoldable pub try_transition_to_connected : Wire → Wire
  unfolding connect send_extended_handshake
  try_transition_to_connected w =
      if w.handshake_sent && w.handshake_received then greet (connect w) else w

  abbrev pub send_handshake_bytes : Wire → Result Handshake.Error (List ℕ) → Outcome
  send_handshake_bytes w (err e) = thrown (of_handshake_error e) w
  send_handshake_bytes w (ok bs) =
      if env.transport_accepts bs
      then returned
          (try_transition_to_connected (record (log (send bs) w) { handshake_sent = true }))
      else thrown transport_error w

  abbrev pub handshake_options : Wire → List ℕ → List ℕ → Option (List ℕ) → EncodeHandshakeOptions
  handshake_options w info_hash peer_id reserved = record {
    info_hash = info_hash;
    peer_id = bytes peer_id;
    reserved = reserved;
    extensions = w.config.local_extensions;
  }

  unfoldable pub send_handshake : List ℕ → List ℕ → Option (List ℕ) → Wire → Outcome
  send_handshake info_hash peer_id reserved w =
      if (length info_hash == 20) && (length peer_id == 20)
      then send_handshake_bytes w
          (encode_handshake env.encode_text (handshake_options w info_hash peer_id reserved))
      else thrown range_error w

  -- The public senders.
  unfoldable pub send_choke : Wire → Outcome
  send_choke = send_message env (payload choke)

  unfoldable pub send_unchoke : Wire → Outcome
  send_unchoke = send_message env (payload unchoke)

  unfoldable pub send_interested : Wire → Outcome
  send_interested = send_message env (payload interested)

  unfoldable pub send_not_interested : Wire → Outcome
  send_not_interested = send_message env (payload not_interested)

  unfoldable pub send_have : Number → Wire → Outcome
  send_have i = send_message env (payload (have i))

  unfoldable pub send_bitfield : List ℕ → Wire → Outcome
  send_bitfield bits = send_message env (payload (bitfield bits))

  -- A wire that the peer chokes sends no request, and reports nothing.
  unfoldable pub send_request : BlockRequest → Wire → Outcome
  send_request r w = if w.peer_choking then returned w else send_message env (payload (request r)) w

  unfoldable pub send_piece : Number → Number → List ℕ → Wire → Outcome
  send_piece i offset block = send_message env (payload (piece i offset block))

  unfoldable pub send_cancel : BlockRequest → Wire → Outcome
  send_cancel r = send_message env (payload (cancel r))

  unfoldable pub send_port : Number → Wire → Outcome
  send_port p = send_message env (payload (port p))

  unfoldable pub send_suggest_piece : Number → Wire → Outcome
  send_suggest_piece i = send_message env (payload (suggest_piece i))

  unfoldable pub send_have_all : Wire → Outcome
  send_have_all = send_message env (payload have_all)

  unfoldable pub send_have_none : Wire → Outcome
  send_have_none = send_message env (payload have_none)

  unfoldable pub send_reject_request : BlockRequest → Wire → Outcome
  send_reject_request r = send_message env (payload (reject_request r))

  unfoldable pub send_allowed_fast : Number → Wire → Outcome
  send_allowed_fast i = send_message env (payload (allowed_fast i))

  unfoldable pub send_extended : Number → List ℕ → Wire → Outcome
  send_extended id bs = send_message env (payload (extended id bs))

  unfoldable pub send_hash_request : HashRequestFields → Wire → Outcome
  send_hash_request r = send_message env (payload (hash_request r))

  unfoldable pub send_hashes : HashRequestFields → List ℕ → Wire → Outcome
  send_hashes r hs = send_message env (payload (hashes r hs))

  unfoldable pub send_hash_reject : HashRequestFields → Wire → Outcome
  send_hash_reject r = send_message env (payload (hash_reject r))

  abbrev pub keep_alive_fired : Wire → Wire
  keep_alive_fired w = record w { timers = record w.timers { keep_alive_timer = false } }

  unfoldable pub on_keep_alive_timer : Wire → Wire
  on_keep_alive_timer w =
      if is_connected w.state
      then ignored (send_message env keep_alive (keep_alive_fired w))
      else keep_alive_fired w
