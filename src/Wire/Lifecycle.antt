-- ===== src/Wire/Lifecycle.antt =====
-- The timers, `_terminate` and the callbacks that end a wire.
use browsertorrent.Common.{
  ℕ, suc, ◌-◌, Bool, true, false, ◌&&◌, Option, none, some, [], if◌then◌else◌, ltb, Result, ok, err,
}
use browsertorrent.Common.Words.{Number}
use browsertorrent.Wire.{
  WireError, timeout_error, WireState, handshaking, closed, close, emit, close_transport,
  close_host, Timers, Wire, Outcome, returned, thrown, log, is_closed, is_connected,
}
use browsertorrent.Wire.Options.{non_negative_option}

abbrev pub reset_keep_alive : Wire → Wire
reset_keep_alive w = record w {
  timers = record w.timers {
    keep_alive_timer = ltb 0 w.keep_alive_interval_ms && is_connected w.state;
  };
}

abbrev pub reset_idle_timeout : Wire → Wire
reset_idle_timeout w = record w {
  timers = record w.timers { idle_timer = ltb 0 w.config.idle_timeout_ms && is_connected w.state };
}

unfoldable pub touch_activity : Wire → Wire
touch_activity w = reset_idle_timeout (reset_keep_alive w)

-- `_startSpeedTracking`: the interval that ran before, if any, is not cleared.
abbrev pub start_speed_tracking : Wire → Wire
start_speed_tracking w = record w {
  timers = record w.timers {
    speed_interval = true;
    running_intervals = suc w.timers.running_intervals;
  };
}

abbrev pub cleared : Timers → Timers
cleared t = record {
  handshake_timer = false;
  keep_alive_timer = false;
  idle_timer = false;
  speed_interval = false;
  running_intervals = if t.speed_interval then t.running_intervals - 1 else t.running_intervals;
}

-- `_terminate` from its second line on.
unfoldable pub shut : Option WireError → Wire → Wire
shut reason w = log close_transport (
    log (emit (close reason))
      (record (log (close_host reason) (record w { state = closed; timers = cleared w.timers })) {
        pending_requests = [];
        peer_requests = [];
      }))

unfoldable pub terminate : Option WireError → Wire → Wire
unfolding shut
terminate reason w = if is_closed w.state then w else shut reason w

unfoldable pub destroy : Wire → Wire
unfolding terminate shut
destroy w = terminate none w

abbrev pub is_handshaking : WireState → Bool
is_handshaking handshaking = true
is_handshaking _ = false

-- The callbacks of the handshake timer and of the idle timer.
unfoldable pub on_handshake_timeout : Wire → Wire
unfolding terminate shut
on_handshake_timeout w = if is_handshaking w.state then terminate (some timeout_error) w else w

unfoldable pub on_idle_timeout : Wire → Wire
unfolding terminate shut
on_idle_timeout w = terminate (some timeout_error) w

-- `setKeepAlive`: its argument is a Boolean or a number.
pub data Interval : Type 0 where
  switch : Bool → Interval
  milliseconds : Number → Interval

unfoldable pub interval_value : Interval → Result WireError ℕ
interval_value (switch false) = ok 0
interval_value (switch true) = ok 120000
interval_value (milliseconds n) = non_negative_option (some n) 0

abbrev pub set_interval : Wire → Result WireError ℕ → Outcome
set_interval w (err e) = thrown e w
set_interval w (ok n) = returned (reset_keep_alive (record w { keep_alive_interval_ms = n }))

unfoldable pub set_keep_alive : Interval → Wire → Outcome
unfolding interval_value
set_keep_alive i w = set_interval w (interval_value i)
