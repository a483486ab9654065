-- ===== src/Wire/Connecting.antt =====
-- The handshake, the timers and the end of a wire keep the invariant.
use browsertorrent.Common.{
  ℕ, ◌≡◌, refl, sym, ◌∙◌, inl, inr, true, false, not, ◌&&◌, ◌||◌, Option, none, some, List, [], ◌∷◌,
  ◌++◌, Bool, Result, ok, err, length, Bool-cases, &&-eq-true, if-true, if-false, ◌==◌, arith,
}
use mathlib.Core.Path.{subst}
use browsertorrent.Common.Words.{nat}
use browsertorrent.Message.{payload, extended}
use browsertorrent.Handshake
use browsertorrent.Handshake.{
  HandshakeExtension, PeerHandshake, extension_protocol, encode_handshake,
}
use browsertorrent.Wire.{
  Task, handshake_marked, WireError, Event, emit, warning, close, send, close_host, close_transport,
  closed, Wire, Outcome, returned, thrown, log, is_closed, Environment,
}
use browsertorrent.Wire.Checks.{has, has_negotiated}
use browsertorrent.Wire.Lifecycle.{cleared, shut, terminate}
use browsertorrent.Wire.Connect.{
  connect, mark_sent, caught_later, run_task, run_each, run_tasks, ignored, send_host_bytes,
  send_extended_handshake, greet, try_transition_to_connected, send_handshake_bytes, send_handshake,
  handshake_options,
}
use browsertorrent.Wire.Receive.{handshake_kept, handshake_done}
use browsertorrent.Wire.Send.{send_message}
use browsertorrent.Wire.Blocks.{All, All-map}
use browsertorrent.Wire.Invariant.{IsAgreed, agreed, required_effect, is_known, Inv}
use browsertorrent.Wire.Sending.{log-Inv, InvOutcome, send_message-Inv}

shut-Inv : (r : Option WireError) (w : Wire) → Inv w → Inv (shut r w)
unfolding shut
shut-Inv r w h =
    let base : Wire = record w {
      state = closed;
      timers = cleared w.timers;
      pending_requests = [];
      peer_requests = [];
    } in
    let told : Wire = log (close_host r) base in
    let announced : Wire = log (emit (close r)) told in
    log-Inv announced close_transport refl (
      log-Inv told (emit (close r)) refl (
        log-Inv base (close_host r) refl (record {
          requests_bounded = omega arith;
          requests_valid = tt;
          pending_valid = tt;
          no_queue = h.no_queue;
          remote_order = h.remote_order;
          local_order = h.local_order;
          connected_greeted = λ c. absurd cc;
          received_known = h.received_known;
          closed_clear = λ c. (refl, refl);
          keep_alive_live = λ c. absurd cc;
          idle_live = λ c. absurd cc;
          handshake_live = λ c. absurd cc;
          effects_agreed = h.effects_agreed;
        })))

connect-Inv :
    (w : Wire) → Inv w → w.handshake_sent ≡ true → w.handshake_received ≡ true → Inv (connect w)
unfolding connect
connect-Inv w h sent received = record {
  requests_bounded = h.requests_bounded;
  requests_valid = h.requests_valid;
  pending_valid = h.pending_valid;
  no_queue = h.no_queue;
  remote_order = h.remote_order;
  local_order = h.local_order;
  connected_greeted = λ c. (sent, received);
  received_known = h.received_known;
  closed_clear = λ c. absurd cc;
  keep_alive_live = λ c. refl;
  idle_live = λ c. refl;
  handshake_live = λ c. absurd cc;
  effects_agreed = h.effects_agreed;
}

-- The two fields that the tasks touch do not matter to it.
pending-Inv :
    (ts : List Task) (sent : Bool) (w : Wire)
    → Inv w
    → Inv (record w { tasks = ts; extension_handshake_sent = sent })
pending-Inv ts sent w h = record {
  requests_bounded = h.requests_bounded;
  requests_valid = h.requests_valid;
  pending_valid = h.pending_valid;
  no_queue = h.no_queue;
  remote_order = h.remote_order;
  local_order = h.local_order;
  connected_greeted = h.connected_greeted;
  received_known = h.received_known;
  closed_clear = h.closed_clear;
  keep_alive_live = h.keep_alive_live;
  idle_live = h.idle_live;
  handshake_live = h.handshake_live;
  effects_agreed = h.effects_agreed;
}

mark_sent-Inv : (o : Outcome) → InvOutcome o → InvOutcome (mark_sent o)
mark_sent-Inv (returned w) h =
    pending-Inv (w.tasks ++ (handshake_marked ∷ [])) w.extension_handshake_sent w h
mark_sent-Inv (thrown e w) h = h

caught_later-Inv : (o : Outcome) → InvOutcome o → Inv (caught_later o)
caught_later-Inv (returned w) h = h
caught_later-Inv (thrown e w) h =
    pending-Inv (w.tasks ++ (Task.warned e ∷ [])) w.extension_handshake_sent w h

run_each-Inv : (ts : List Task) (w : Wire) → Inv w → Inv (run_each ts w)
run_each-Inv [] w h = h
run_each-Inv (handshake_marked ∷ ts) w h =
    run_each-Inv ts (run_task handshake_marked w) (pending-Inv w.tasks true w h)
run_each-Inv (Task.warned e ∷ ts) w h =
    run_each-Inv ts (run_task (Task.warned e) w) (log-Inv w (emit (warning e)) refl h)

pub run_tasks-Inv : (w : Wire) → Inv w → Inv (run_tasks w)
unfolding run_tasks
run_tasks-Inv w h =
    run_each-Inv w.tasks (record w { tasks = [] }) (pending-Inv [] w.extension_handshake_sent w h)

pub ignored-Inv : (o : Outcome) → InvOutcome o → Inv (ignored o)
ignored-Inv (returned w) h = h
ignored-Inv (thrown e w) h = h

agreed_later :
    (local : List HandshakeExtension) (h : PeerHandshake) (o : Option HandshakeExtension)
    → agreed local none o ≡ true
    → agreed local (some h) o ≡ true
agreed_later local h none e = refl
agreed_later local h (some x) e =
    absurd (let none_agreed = (&&-eq-true (has local x) false e).1 in cc)

unknown : (o : Option PeerHandshake) → is_known o ≡ false → o ≡ none
unknown none e = refl
unknown (some h) e = cc

handshake_kept-Inv :
    (w : Wire) (h : PeerHandshake) → Inv w → w.handshake_received ≡ false → Inv (handshake_kept w h)
handshake_kept-Inv w h inv new = record {
  requests_bounded = inv.requests_bounded;
  requests_valid = inv.requests_valid;
  pending_valid = inv.pending_valid;
  no_queue = inv.no_queue;
  remote_order = inv.remote_order;
  local_order = inv.local_order;
  connected_greeted = λ c. ((inv.connected_greeted c).0, refl);
  received_known = refl;
  closed_clear = inv.closed_clear;
  keep_alive_live = inv.keep_alive_live;
  idle_live = inv.idle_live;
  handshake_live = inv.handshake_live;
  effects_agreed =
      All-map (IsAgreed w.config.local_extensions none)
        (IsAgreed w.config.local_extensions (some h)) w.effects
        (λ e. agreed_later w.config.local_extensions h (required_effect e))
        (subst (λ o. All (IsAgreed w.config.local_extensions o) w.effects)
          (unknown w.remote_handshake (sym inv.received_known ∙ new)) inv.effects_agreed);
}

pub terminate-Inv : (r : Option WireError) (w : Wire) → Inv w → Inv (terminate r w)
unfolding terminate
terminate-Inv r w h = elim (Bool-cases (is_closed w.state)) [
  | inl e ↦ subst Inv (sym (if-true (is_closed w.state) w (shut r w) e)) h
  | inr e ↦ subst Inv (sym (if-false (is_closed w.state) w (shut r w) e)) (shut-Inv r w h)
]

module _ (env : Environment) where
  send_host_bytes-Inv :
      (w : Wire) (o : Result WireError (List ℕ)) → Inv w → InvOutcome (send_host_bytes env w o)
  send_host_bytes-Inv w (err e) h = h
  send_host_bytes-Inv w (ok bs) h =
      mark_sent-Inv (send_message env (payload (extended (nat 0) bs)) w)
        (send_message-Inv env w (payload (extended (nat 0) bs)) h)

  pub send_extended_handshake-Inv : (w : Wire) → Inv w → InvOutcome (send_extended_handshake env w)
  unfolding send_extended_handshake
  send_extended_handshake-Inv w h =
      elim (Bool-cases (w.extension_handshake_sent || not (has_negotiated w extension_protocol))) [
        | inl e ↦ rw e h
        | inr e ↦ rw e (send_host_bytes-Inv w env.host_handshake h)
      ]

  greet-Inv : (w : Wire) → Inv w → Inv (greet env w)
  greet-Inv w h = elim (Bool-cases (has_negotiated w extension_protocol)) [
    | inl e ↦
        rw e (caught_later-Inv (send_extended_handshake env w) (send_extended_handshake-Inv w h))
    | inr e ↦ rw e h
  ]

  try_transition-Inv : (w : Wire) → Inv w → Inv (try_transition_to_connected env w)
  unfolding try_transition_to_connected
  try_transition-Inv w h = elim (Bool-cases (w.handshake_sent && w.handshake_received)) [
    | inl e ↦
        let (sent, received) = &&-eq-true w.handshake_sent w.handshake_received e in
        rw e (greet-Inv (connect w) (connect-Inv w h sent received))
    | inr e ↦ rw e h
  ]

  pub handshake_done-Inv :
      (w : Wire) (h : PeerHandshake)
      → Inv w
      → w.handshake_received ≡ false
      → Inv (handshake_done env w h)
  unfolding handshake_done
  handshake_done-Inv w h inv new =
      log-Inv (try_transition_to_connected env (handshake_kept w h)) (emit (Event.handshake h)) refl
        (try_transition-Inv (handshake_kept w h) (handshake_kept-Inv w h inv new))

  sent_handshake-Inv :
      (w : Wire) (bs : List ℕ) → Inv w → Inv (record (log (send bs) w) { handshake_sent = true })
  sent_handshake-Inv w bs h =
      let logged = log-Inv w (send bs) refl h in
      record {
        requests_bounded = h.requests_bounded;
        requests_valid = h.requests_valid;
        pending_valid = h.pending_valid;
        no_queue = h.no_queue;
        remote_order = h.remote_order;
        local_order = h.local_order;
        connected_greeted = λ c. (refl, (h.connected_greeted c).1);
        received_known = h.received_known;
        closed_clear = h.closed_clear;
        keep_alive_live = h.keep_alive_live;
        idle_live = h.idle_live;
        handshake_live = h.handshake_live;
        effects_agreed = logged.effects_agreed;
      }

  send_handshake_bytes-Inv :
      (w : Wire) (o : Result Handshake.Error (List ℕ))
      → Inv w
      → InvOutcome (send_handshake_bytes env w o)
  send_handshake_bytes-Inv w (err e) h = h
  send_handshake_bytes-Inv w (ok bs) h = elim (Bool-cases (env.transport_accepts bs)) [
    | inl e ↦ rw e (
        try_transition-Inv (record (log (send bs) w) { handshake_sent = true })
          (sent_handshake-Inv w bs h))
    | inr e ↦ rw e h
  ]

  pub send_handshake-Inv :
      (info_hash peer_id : List ℕ) (reserved : Option (List ℕ)) (w : Wire)
      → Inv w
      → InvOutcome (send_handshake env info_hash peer_id reserved w)
  unfolding send_handshake
  send_handshake-Inv info_hash peer_id reserved w h =
      elim (Bool-cases ((length info_hash == 20) && (length peer_id == 20))) [
        | inl e ↦ rw e (
            send_handshake_bytes-Inv w
              (encode_handshake env.encode_text
                (handshake_options env w info_hash peer_id reserved))
              h)
        | inr e ↦ rw e h
      ]
