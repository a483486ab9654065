-- ===== src/Wire/Options.antt =====
-- The constructor of `Wire`, with the checks of its options.
use browsertorrent.Common.{
  ℕ, ◌*◌, ◌^◌, ◌-◌, true, false, ◌&&◌, Option, none, some, List, [], Result, ok, ◌>>=◌, ◌>>◌, guard,
  leb, ltb,
}
use browsertorrent.Common.Words.{Number, nat, is_uint, to_nat}
use browsertorrent.Handshake.{HandshakeExtension}
use browsertorrent.Wire.{WireError, range_error, handshaking, WireConfig, Wire}

-- `Number.MAX_SAFE_INTEGER`
abbrev pub max_safe_integer : ℕ
max_safe_integer = 2 ^ 53 - 1

abbrev pub resolved : Option Number → ℕ → Number
resolved none fallback = nat fallback
resolved (some value) fallback = value

unfoldable pub positive_option : Option Number → ℕ → Result WireError ℕ
positive_option value fallback = do
  guard
      (is_uint max_safe_integer (resolved value fallback)
        && leb 1 (to_nat (resolved value fallback)))
      range_error
  ok (to_nat (resolved value fallback))

unfoldable pub non_negative_option : Option Number → ℕ → Result WireError ℕ
non_negative_option value fallback = do
  guard (is_uint max_safe_integer (resolved value fallback)) range_error
  ok (to_nat (resolved value fallback))

pub record WireOptions : Type 0 where
  pub expected_info_hash : Option (List ℕ)
  pub expected_peer_id : Option (List ℕ)
  pub extensions : List HandshakeExtension
  pub piece_count : Option ℕ
  pub piece_length : Option ℕ
  pub total_length : Option ℕ
  pub max_message_length : Option Number
  pub max_block_length : Option Number
  pub max_pending_requests : Option Number
  pub max_queued_write_bytes : Option Number
  pub handshake_timeout_ms : Option Number
  pub idle_timeout_ms : Option Number
  pub keep_alive_interval_ms : Option Number

-- The fields as they are declared, with the timeout of the handshake started.
abbrev pub initial : WireConfig → ℕ → Wire
initial config keep_alive = record {
  config = config;
  am_choking = true;
  am_interested = false;
  peer_choking = true;
  peer_interested = false;
  peer_id = none;
  peer_id_buffer = none;
  state = handshaking;
  remote_handshake = none;
  uploaded_bytes = 0;
  downloaded_bytes = 0;
  local_allowed_fast = [];
  remote_allowed_fast = [];
  buffer = [];
  handshake_sent = false;
  handshake_received = false;
  extension_handshake_sent = false;
  tasks = [];
  local_availability = record { is_open = true; declared = false };
  remote_availability = record { is_open = true; declared = false };
  pending_requests = [];
  peer_requests = [];
  queued_write_bytes = 0;
  keep_alive_interval_ms = keep_alive;
  timers = record {
    handshake_timer = ltb 0 config.handshake_timeout_ms;
    keep_alive_timer = false;
    idle_timer = false;
    speed_interval = false;
    running_intervals = 0;
  };
  effects = [];
}

unfoldable pub new : WireOptions → Result WireError Wire
unfolding positive_option non_negative_option
new options = do
  message_length ← positive_option options.max_message_length (2 * 1024 * 1024)
  block_length ← positive_option options.max_block_length (16 * 1024)
  pending ← positive_option options.max_pending_requests 250
  queued ← positive_option options.max_queued_write_bytes (4 * 1024 * 1024)
  handshake_timeout ← non_negative_option options.handshake_timeout_ms 30000
  idle_timeout ← non_negative_option options.idle_timeout_ms 0
  keep_alive ← non_negative_option options.keep_alive_interval_ms 0
  ok (
      initial
        (record {
          expected_info_hash = options.expected_info_hash;
          expected_peer_id = options.expected_peer_id;
          local_extensions = options.extensions;
          piece_count = options.piece_count;
          piece_length = options.piece_length;
          total_length = options.total_length;
          max_message_length = message_length;
          max_block_length = block_length;
          max_pending_requests = pending;
          max_queued_write_bytes = queued;
          handshake_timeout_ms = handshake_timeout;
          idle_timeout_ms = idle_timeout;
        })
        keep_alive)
