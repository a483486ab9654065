-- ===== src/Wire/Tests.antt =====
-- Two wires before and past the handshake, a chunked stream and the steps of a new wire.
use browsertorrent.Common.{
  ℕ, ◌-◌, ◌≡◌, refl, ◌⊎◌, true, false, none, some, List, [], ◌∷◌, ◌++◌, ◌&&◌, ok, err, length,
  replicate, arith,
}
use browsertorrent.Common.Words.{nat}
use browsertorrent.Message.{
  BlockRequest, interested, request, payload, encode_message, encode_payload, encode_body,
  encode_block_request, as_uint32,
}
use browsertorrent.Handshake.{
  PeerHandshake, HandshakeExtension, fast, extension_protocol, bittorrent_protocol,
  encode_handshake, assert_twenty_bytes, set_extensions, set_extension,
}
use browsertorrent.Handshake.RoundTrip.{DecodesAscii}
use browsertorrent.Wire.{
  Event, warning, WireError, connected, emit, error, send, WireConfig, Wire, returned, thrown, log,
  is_closed, peer_wire_error, Environment,
}
use browsertorrent.Wire.Options.{WireOptions, initial, new, positive_option, non_negative_option}
use browsertorrent.Wire.Checks.{
  validate_incoming, has, has_negotiated, assert_extension_negotiated, validate_availability_order,
  validate_message_bounds, validate_block, validate_piece_index, commit_availability_order,
}
use browsertorrent.Wire.Transitions.{apply_remote_state, apply_local_state, set_block}
use browsertorrent.Wire.Lifecycle.{touch_activity, destroy, on_handshake_timeout, on_idle_timeout}
use browsertorrent.Wire.Send.{check_outgoing, after_write, write_frame, send_frame, send_message}
use browsertorrent.Wire.Receive.{
  process_buffer, round, front, receive_message, check_received, receive_handshake, handshake_done,
  process_frames, accept, on_data,
}
use browsertorrent.Wire.Dispatch.{dispatch}
use browsertorrent.Handshake.{decode_handshake, enabled_among, has_extension}
use browsertorrent.Message.{decode_id, known_id, decode_body, assert_length, decode_payload}
use browsertorrent.Wire.Frames.{IsQuiet, process_frames-IsQuiet}
use browsertorrent.Wire.Tasks.{IsAlike}
use browsertorrent.Wire.Feeding.{join, turn, feed, feed-join}
use browsertorrent.Wire.Invariant.{Inv}
use browsertorrent.Wire.Reachable.{data_received, destroyed, here, then_step, reachable-Inv}
use browsertorrent.Wire.Refusals.{send_message_refused, destroy_final}
use browsertorrent.Wire.Pair.{Paired}
use browsertorrent.Wire.Exchange.{send_message-on_data}
use browsertorrent.Wire.Handshakes.{IsFresh, send_handshake-on_data}
use browsertorrent.Wire.Connect.{
  send_extended_handshake, connect, run_tasks, send_handshake, try_transition_to_connected,
}

abbrev own_bytes : List ℕ → List ℕ
own_bytes text = text

abbrev env : Environment
env = record {
  transport_accepts = λ bs. true;
  host_handshake = ok (100 ∷ 101 ∷ []);
  encode_text = own_bytes;
  decode_text = own_bytes;
}

abbrev options : WireOptions
options = record {
  expected_info_hash = none;
  expected_peer_id = none;
  extensions = [];
  piece_count = some 10;
  piece_length = some 32768;
  total_length = none;
  max_message_length = none;
  max_block_length = none;
  max_pending_requests = some (nat 2);
  max_queued_write_bytes = none;
  handshake_timeout_ms = none;
  idle_timeout_ms = none;
  keep_alive_interval_ms = none;
}

abbrev config : WireConfig
config = record {
  expected_info_hash = none;
  expected_peer_id = none;
  local_extensions = [];
  piece_count = some 10;
  piece_length = some 32768;
  total_length = none;
  max_message_length = 2097152;
  max_block_length = 16384;
  max_pending_requests = 2;
  max_queued_write_bytes = 4194304;
  handshake_timeout_ms = 30000;
  idle_timeout_ms = 0;
}

abbrev fresh : Wire
fresh = initial config 0

new-fresh : new options ≡ ok fresh
unfolding new positive_option non_negative_option
new-fresh = refl

abbrev peer : PeerHandshake
peer = record {
  info_hash = replicate 20 1;
  peer_id = replicate 20 2;
  reserved = replicate 8 0;
  extensions = [];
}

-- A wire past both handshakes.
abbrev ready : Wire
ready = record fresh {
  state = connected;
  handshake_sent = true;
  handshake_received = true;
  remote_handshake = some peer;
}

abbrev loaded : Wire
loaded = record ready { buffer = 0 ∷ 0 ∷ 0 ∷ 1 ∷ 1 ∷ 0 ∷ [] }

process_frames-IsQuiet_example : IsQuiet env (process_frames env 6 loaded)
process_frames-IsQuiet_example = process_frames-IsQuiet env 6 loaded (omega arith)

reachable-Inv_example : Inv (destroy (on_data env (0 ∷ 0 ∷ []) fresh))
reachable-Inv_example =
    reachable-Inv options fresh (destroy (on_data env (0 ∷ 0 ∷ []) fresh)) new-fresh
      (then_step (then_step here (data_received env (0 ∷ 0 ∷ []) refl)) (destroyed refl))

send_message_refused_example :
    ((w' : Wire) (e : WireError)
      → send_message env (payload interested) fresh ≡ thrown e w'
      → (w' ≡ fresh) ⊎ (w' ≡ log (emit (error e)) fresh))
    × (is_closed fresh.state ≡ true
        → send_message env (payload interested) fresh ≡ thrown peer_wire_error fresh)
send_message_refused_example = send_message_refused env (payload interested) fresh

destroy_final_example :
    let u = destroy ready in
    (is_closed u.state ≡ true)
    × (on_data env (0 ∷ 0 ∷ []) u ≡ u)
    × (send_message env (payload interested) u ≡ thrown peer_wire_error u)
    × (on_handshake_timeout u ≡ u)
    × (on_idle_timeout u ≡ u)
    × (destroy u ≡ u)
destroy_final_example = destroy_final env ready (0 ∷ 0 ∷ []) (payload interested)

abbrev block : BlockRequest
block = record { piece_index = nat 3; begin = nat 16384; length = nat 16384 }

abbrev block_frame : List ℕ
block_frame = 0 ∷ 0 ∷ 0 ∷ 13 ∷ 6 ∷ 0 ∷ 0 ∷ 0 ∷ 3 ∷ 0 ∷ 0 ∷ 64 ∷ 0 ∷ 0 ∷ 0 ∷ 64 ∷ 0 ∷ []

abbrev after_request : Wire
after_request = record ready {
  uploaded_bytes = 17;
  local_availability = record { is_open = false; declared = false };
  pending_requests = block ∷ [];
  effects = send block_frame ∷ [];
}

request_sends : send_message env (payload (request block)) ready ≡ returned after_request
unfolding send_message check_outgoing send_frame write_frame after_write touch_activity
    assert_extension_negotiated validate_availability_order validate_message_bounds validate_block
    validate_piece_index commit_availability_order apply_local_state set_block encode_message
    encode_payload encode_body encode_block_request as_uint32
request_sends = refl

ready-Paired : Paired ready ready
ready-Paired = record {
  matching = record {
    same_count = refl;
    same_length = refl;
    same_total = refl;
    same_block = refl;
    accepts = omega arith;
    same_extensions = λ e. refl;
  };
  same_order = refl;
  mirrored = (refl, refl, refl);
}

send_message-on_data_example :
    (bytes : List ℕ) × (encode_message (payload (request block)) ≡ ok bytes)
    × (after_request ≡ after_write (log (send bytes) ready) (payload (request block)) bytes)
    × (on_data env bytes ready
        ≡ accept env (record ready { buffer = bytes }) (request block) (length bytes - 4) [])
    × Paired after_request (on_data env bytes ready)
send_message-on_data_example =
    send_message-on_data env env ready after_request ready (request block) ready-Paired tt
      (omega arith) refl refl refl (λ e. omega arith) request_sends

-- A wire that has the Fast extension and one that has that and the extension protocol.
abbrev fast_wire : Wire
fast_wire = initial (record config { local_extensions = fast ∷ [] }) 0

abbrev both_wire : Wire
both_wire =
    initial
      (record config {
        local_extensions = extension_protocol ∷ fast ∷ [];
        expected_info_hash = some (replicate 20 7);
      })
      0

abbrev hash : List ℕ
hash = replicate 20 7

abbrev fast_id : List ℕ
fast_id = replicate 20 1

abbrev both_id : List ℕ
both_id = replicate 20 2

abbrev frame_of : ℕ → ℕ → List ℕ → List ℕ
frame_of b5 b7 peer_id =
    19 ∷ (bittorrent_protocol ++ (0 ∷ 0 ∷ 0 ∷ 0 ∷ 0 ∷ b5 ∷ 0 ∷ b7 ∷ (hash ++ peer_id)))

abbrev greeted : Wire → List ℕ → Wire
greeted w bytes = record w { handshake_sent = true; effects = send bytes ∷ [] }

fast_sends :
    send_handshake env hash fast_id none fast_wire
    ≡ returned (greeted fast_wire (frame_of 0 4 fast_id))
unfolding send_handshake encode_handshake assert_twenty_bytes set_extensions set_extension
    try_transition_to_connected
fast_sends = refl

both_sends :
    send_handshake env hash both_id none both_wire
    ≡ returned (greeted both_wire (frame_of 16 4 both_id))
unfolding send_handshake encode_handshake assert_twenty_bytes set_extensions set_extension
    try_transition_to_connected
both_sends = refl

fast-IsFresh : IsFresh fast_wire hash both_id
fast-IsFresh = record {
  live = refl;
  not_received = refl;
  empty = refl;
  this_hash = refl;
  this_peer = refl;
}

both-IsFresh : IsFresh both_wire hash fast_id
both-IsFresh = record {
  live = refl;
  not_received = refl;
  empty = refl;
  this_hash = refl;
  this_peer = refl;
}

own_bytes-DecodesAscii : DecodesAscii own_bytes
own_bytes-DecodesAscii = record { forth = λ bs h. refl; back = λ bs t h l e. e }

send_handshake-on_data_example :
    let a = greeted fast_wire (frame_of 0 4 fast_id) in
    let b = greeted both_wire (frame_of 16 4 both_id) in
    (bytes bytes' : List ℕ) × (a.effects ≡ fast_wire.effects ++ (send bytes ∷ []))
    × (b.effects ≡ both_wire.effects ++ (send bytes' ∷ []))
    × ((on_data env bytes' a).state ≡ connected)
    × ((on_data env bytes b).state ≡ connected)
    × ((e : HandshakeExtension)
        → (has_negotiated (on_data env bytes' a) e
            ≡ (has (fast ∷ []) e && has (extension_protocol ∷ fast ∷ []) e))
          × (has_negotiated (on_data env bytes b) e
              ≡ (has (fast ∷ []) e && has (extension_protocol ∷ fast ∷ []) e)))
send_handshake-on_data_example =
    send_handshake-on_data env env own_bytes-DecodesAscii own_bytes-DecodesAscii fast_wire
      (greeted fast_wire (frame_of 0 4 fast_id)) both_wire
      (greeted both_wire (frame_of 16 4 both_id)) hash fast_id both_id fast-IsFresh both-IsFresh
      fast_sends both_sends

-- A wire that awaits a handshake and a host that cannot send its own. The handshake of the peer
-- comes with an "unchoke" behind it.
abbrev refusing : Environment
refusing = record env { host_handshake = err peer_wire_error }

abbrev awaiting : Wire
awaiting = greeted both_wire (frame_of 16 4 both_id)

abbrev peer_frame : List ℕ
peer_frame = frame_of 16 4 fast_id

abbrev unchoke_frame : List ℕ
unchoke_frame = 0 ∷ 0 ∷ 0 ∷ 1 ∷ 1 ∷ []

feed-join_example :
    IsAlike
      (feed refusing (peer_frame ∷ unchoke_frame ∷ []) awaiting)
      (turn refusing (join (peer_frame ∷ unchoke_frame ∷ [])) awaiting)
feed-join_example = feed-join refusing peer_frame (unchoke_frame ∷ []) awaiting refl

abbrev greeting : PeerHandshake
greeting = record {
  info_hash = hash;
  peer_id = fast_id;
  reserved = 0 ∷ 0 ∷ 0 ∷ 0 ∷ 0 ∷ 16 ∷ 0 ∷ 4 ∷ [];
  extensions = fast ∷ extension_protocol ∷ [];
}

-- In one chunk the warning comes behind the "unchoke", as the tasks run after the chunk.
warned_last :
    (turn refusing (peer_frame ++ unchoke_frame) awaiting).effects
    ≡ send (frame_of 16 4 both_id)
      ∷ emit (Event.handshake greeting)
      ∷ emit Event.unchoke
      ∷ emit (warning peer_wire_error)
      ∷ []
unfolding on_data run_tasks process_buffer process_frames receive_handshake handshake_done
    decode_handshake has_extension enabled_among try_transition_to_connected connect
    send_extended_handshake round front receive_message check_received decode_payload
    assert_extension_negotiated validate_availability_order validate_incoming accept
    commit_availability_order apply_remote_state dispatch touch_activity decode_id known_id
    decode_body assert_length
warned_last = refl
