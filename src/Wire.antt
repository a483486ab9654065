-- ===== src/Wire.antt =====
-- packages/core/src/core/wire.ts: the state of one end of a peer connection, what it hands to the
-- transport, to the listeners and to the extension host, and the errors it throws. Texts of
-- errors, times and the measured speeds are left out; a timer is the flag that it is armed.
pub mod Options
pub mod Checks
pub mod Transitions
pub mod Lifecycle
pub mod Send
pub mod Writing
pub mod Connect
pub mod Dispatch
pub mod Receive
mod Chunks
pub mod Frames
pub mod Shape
pub mod Greeting
pub mod Stream
pub mod Kept
pub mod Cutting
pub mod Stability
mod Placing
pub mod Tasks
mod Turns
pub mod Feeding
pub mod Blocks
pub mod Invariant
pub mod Requests
pub mod Accepting
pub mod Outstanding
pub mod Sending
pub mod Connecting
pub mod Reading
pub mod Reachable
pub mod Refusals
pub mod Pair
pub mod Sent
pub mod Exchange
pub mod Meeting
pub mod Handshakes
mod Tests
use browsertorrent.Common.{ℕ, Bool, true, false, Option, List, ◌++◌, [], ◌∷◌, Result}
use browsertorrent.Common.Words.{Number}
use browsertorrent.Message.{BlockRequest, HashRequestFields}
use browsertorrent.Handshake.{HandshakeExtension, PeerHandshake}
use browsertorrent.Bencode.{Value}

-- `PeerWireError`, `ProtocolError`, `RangeError`, `TimeoutError`, and what the transport throws.
pub data WireError : Type 0 where
  peer_wire_error protocol_error range_error timeout_error transport_error : WireError

pub data WireState : Type 0 where
  handshaking connected closed : WireState

-- The members of `WireEvents` with their details.
pub data Event : Type 0 where
  handshake : PeerHandshake → Event
  choke unchoke interested not_interested have_all have_none keep_alive : Event
  have suggest_piece allowed_fast port : Number → Event
  bitfield : List ℕ → Event
  request cancel reject_request : BlockRequest → Event
  piece : Number → Number → List ℕ → Event
  extended_handshake : Value → Event
  extended unknown : Number → List ℕ → Event
  hash_request hash_reject : HashRequestFields → Event
  hashes : HashRequestFields → List ℕ → Event
  error warning : WireError → Event
  close : Option WireError → Event

-- What the wire does to others: the listeners, the transport and the extension host.
pub data Effect : Type 0 where
  emit : Event → Effect
  send : List ℕ → Effect
  close_transport : Effect
  handle_extended : Number → List ℕ → Effect
  close_host : Option WireError → Effect

-- What waits for the code that runs to return: the continuation of `sendExtendedHandshake` behind its
-- `await`, and that of its caller's `catch`.
pub data Task : Type 0 where
  handshake_marked : Task
  warned : WireError → Task

-- The read-only fields. The geometry of a torrent is given in natural numbers.
pub record WireConfig : Type 0 where
  pub expected_info_hash : Option (List ℕ)
  pub expected_peer_id : Option (List ℕ)
  pub local_extensions : List HandshakeExtension
  pub piece_count : Option ℕ
  pub piece_length : Option ℕ
  pub total_length : Option ℕ
  pub max_message_length : ℕ
  pub max_block_length : ℕ
  pub max_pending_requests : ℕ
  pub max_queued_write_bytes : ℕ
  pub handshake_timeout_ms : ℕ
  pub idle_timeout_ms : ℕ

-- `localAvailabilityOpen` with `localAvailabilityDeclared`, or the two of the remote side.
pub record Availability : Type 0 where
  pub is_open : Bool
  pub declared : Bool

-- The timers that are armed, whether `_speedInterval` is set, and how many intervals run.
pub record Timers : Type 0 where
  pub handshake_timer : Bool
  pub keep_alive_timer : Bool
  pub idle_timer : Bool
  pub speed_interval : Bool
  pub running_intervals : ℕ

pub record Wire : Type 0 where
  pub config : WireConfig
  pub am_choking : Bool
  pub am_interested : Bool
  pub peer_choking : Bool
  pub peer_interested : Bool
  pub peer_id : Option (List ℕ)
  pub peer_id_buffer : Option (List ℕ)
  pub state : WireState
  pub remote_handshake : Option PeerHandshake
  pub uploaded_bytes : ℕ
  pub downloaded_bytes : ℕ
  pub local_allowed_fast : List Number
  pub remote_allowed_fast : List Number
  pub buffer : List ℕ
  pub handshake_sent : Bool
  pub handshake_received : Bool
  pub extension_handshake_sent : Bool
  pub local_availability : Availability
  pub remote_availability : Availability
  pub pending_requests : List BlockRequest
  pub peer_requests : List BlockRequest
  pub queued_write_bytes : ℕ
  pub keep_alive_interval_ms : ℕ
  pub timers : Timers
  pub tasks : List Task
  pub effects : List Effect

-- A call that returns, or throws and leaves the wire as it is by then.
pub data Outcome : Type 0 where
  returned : Wire → Outcome
  thrown : WireError → Wire → Outcome

-- One more effect, behind those that were.
abbrev pub log : Effect → Wire → Wire
log e w = record w { effects = w.effects ++ (e ∷ []) }

-- One more task, behind those that wait.
abbrev pub defer : Task → Wire → Wire
defer t w = record w { tasks = w.tasks ++ (t ∷ []) }

abbrev pub is_closed : WireState → Bool
is_closed closed = true
is_closed _ = false

abbrev pub is_connected : WireState → Bool
is_connected connected = true
is_connected _ = false

-- What the wire relies on: whether the transport's `send` returns for a byte array or throws, what
-- `ExtensionHost.sendHandshake` hands to the sender it was given, or throws, and the text codecs.
pub record Environment : Type 0 where
  pub transport_accepts : List ℕ → Bool
  pub host_handshake : Result WireError (List ℕ)
  pub encode_text : List ℕ → List ℕ
  pub decode_text : List ℕ → List ℕ
