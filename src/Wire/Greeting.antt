-- ===== src/Wire/Greeting.antt =====
-- The handshake phase, and what arrives behind it.
use browsertorrent.Common.{
  ℕ, ◌+◌, ◌≡◌, refl, ap, inl, inr, not, ◌&&◌, ◌||◌, List, Result, ok, err, length, Bool-cases, leb,
}
use browsertorrent.Message
use browsertorrent.Message.{
  Payload, choke, unchoke, interested, not_interested, have_all, have_none, have, suggest_piece,
  allowed_fast, port, bitfield, request, cancel, reject_request, piece, extended, unknown,
  hash_request, hash_reject, hashes, PeerMessage, keep_alive, payload, encode_message,
}
use browsertorrent.Common.Words.{nat}
use browsertorrent.Handshake.{extension_protocol}
use browsertorrent.Wire.{send, log, WireError, Wire, Outcome, returned, thrown, Environment}
use browsertorrent.Wire.Checks.{has_negotiated, commit_availability_order}
use browsertorrent.Wire.Transitions.{apply_local_state}
use browsertorrent.Wire.Lifecycle.{touch_activity}
use browsertorrent.Wire.Writing.{write_frame_lem}
use browsertorrent.Wire.Send.{
  check_outgoing, after_write, within_message_limit, send_frame, send_checked, send_message,
}
use browsertorrent.Wire.Connect.{
  connect, mark_sent, caught_later, send_host_bytes, send_extended_handshake, greet,
  try_transition_to_connected,
}
use browsertorrent.Wire.Chunks.{arrived}

apply_local_state-arrived :
    (c : List ℕ) (w : Wire) (m : PeerMessage)
    → apply_local_state (arrived c w) m ≡ arrived c (apply_local_state w m)
unfolding apply_local_state
apply_local_state-arrived c w keep_alive = refl
apply_local_state-arrived c w (payload choke) = refl
apply_local_state-arrived c w (payload unchoke) = refl
apply_local_state-arrived c w (payload interested) = refl
apply_local_state-arrived c w (payload not_interested) = refl
apply_local_state-arrived c w (payload have_all) = refl
apply_local_state-arrived c w (payload have_none) = refl
apply_local_state-arrived c w (payload (have i)) = refl
apply_local_state-arrived c w (payload (suggest_piece i)) = refl
apply_local_state-arrived c w (payload (allowed_fast i)) = refl
apply_local_state-arrived c w (payload (port p)) = refl
apply_local_state-arrived c w (payload (bitfield bits)) = refl
apply_local_state-arrived c w (payload (request r)) = refl
apply_local_state-arrived c w (payload (cancel r)) = refl
apply_local_state-arrived c w (payload (reject_request r)) = refl
apply_local_state-arrived c w (payload (piece i b bs)) = refl
apply_local_state-arrived c w (payload (extended id bytes)) = refl
apply_local_state-arrived c w (payload (unknown id bytes)) = refl
apply_local_state-arrived c w (payload (hash_request r)) = refl
apply_local_state-arrived c w (payload (hash_reject r)) = refl
apply_local_state-arrived c w (payload (hashes r hs)) = refl

after_write-arrived :
    (c : List ℕ) (w : Wire) (m : PeerMessage) (frame : List ℕ)
    → after_write (arrived c w) m frame ≡ arrived c (after_write w m frame)
unfolding after_write touch_activity
after_write-arrived c w m frame =
    let w0 : Wire = record w {
      local_availability = commit_availability_order w.local_availability m;
    } in
    rw (apply_local_state-arrived c w0 m) refl

abbrev pub moved : (Wire → Wire) → Outcome → Outcome
moved f (returned w) = returned (f w)
moved f (thrown e w) = thrown e (f w)

module _ (env : Environment) where
  send_frame-arrived :
      (c : List ℕ) (w : Wire) (m : PeerMessage) (o : Result Message.Error (List ℕ))
      → send_frame env (arrived c w) m o ≡ moved (arrived c) (send_frame env w m o)
  unfolding send_frame
  send_frame-arrived c w m (err e) = refl
  send_frame-arrived c w m (ok frame) = elim (Bool-cases (within_message_limit w frame)) [
    | inr e ↦ rw e refl
    | inl e ↦
        elim (Bool-cases
          (leb (w.queued_write_bytes + length frame) w.config.max_queued_write_bytes)) [
            | inr e' ↦
                rw (e, write_frame_lem env frame (arrived c w), write_frame_lem env frame w, e')
                  refl
            | inl e' ↦ elim (Bool-cases (env.transport_accepts frame)) [
              | inr e'' ↦
                  rw
                    (
                      e,
                      write_frame_lem env frame (arrived c w),
                      write_frame_lem env frame w,
                      e',
                      e'',
                    )
                    refl
              | inl e'' ↦
                  rw
                    (
                      e,
                      write_frame_lem env frame (arrived c w),
                      write_frame_lem env frame w,
                      e',
                      e'',
                    )
                    (ap returned (after_write-arrived c (log (send frame) w) m frame))
            ]
          ]
  ]

  pub send_message-arrived :
      (c : List ℕ) (w : Wire) (m : PeerMessage)
      → send_message env m (arrived c w) ≡ moved (arrived c) (send_message env m w)
  unfolding send_message check_outgoing
  send_message-arrived c w m = by_check (check_outgoing w m)
    where
      by_check :
          (o : Result WireError (Unit {0}))
          → send_checked env (arrived c w) m o ≡ moved (arrived c) (send_checked env w m o)
      by_check (err e) = refl
      by_check (ok u) = send_frame-arrived c w m (encode_message m)

  send_host_bytes-arrived :
      (c : List ℕ) (w : Wire) (o : Result WireError (List ℕ))
      → send_host_bytes env (arrived c w) o ≡ moved (arrived c) (send_host_bytes env w o)
  send_host_bytes-arrived c w (err e) = refl
  send_host_bytes-arrived c w (ok bs) =
      rw (send_message-arrived c w (payload (extended (nat 0) bs)))
        (by_outcome (send_message env (payload (extended (nat 0) bs)) w))
    where
      by_outcome : (o : Outcome) → mark_sent (moved (arrived c) o) ≡ moved (arrived c) (mark_sent o)
      by_outcome (returned u) = refl
      by_outcome (thrown e u) = refl

  send_extended_handshake-arrived :
      (c : List ℕ) (w : Wire)
      → send_extended_handshake env (arrived c w)
        ≡ moved (arrived c) (send_extended_handshake env w)
  unfolding send_extended_handshake
  send_extended_handshake-arrived c w =
      elim (Bool-cases (w.extension_handshake_sent || not (has_negotiated w extension_protocol))) [
        | inl e ↦ rw e refl
        | inr e ↦ rw e (send_host_bytes-arrived c w env.host_handshake)
      ]

  greet-arrived : (c : List ℕ) (w : Wire) → greet env (arrived c w) ≡ arrived c (greet env w)
  greet-arrived c w = elim (Bool-cases (has_negotiated w extension_protocol)) [
    | inl e ↦
        rw (e, send_extended_handshake-arrived c w) (by_outcome (send_extended_handshake env w))
    | inr e ↦ rw e refl
  ]
    where
      by_outcome : (o : Outcome) → caught_later (moved (arrived c) o) ≡ arrived c (caught_later o)
      by_outcome (returned u) = refl
      by_outcome (thrown e u) = refl

  pub try_transition_to_connected-arrived :
      (c : List ℕ) (w : Wire)
      → try_transition_to_connected env (arrived c w)
        ≡ arrived c (try_transition_to_connected env w)
  unfolding try_transition_to_connected connect
  try_transition_to_connected-arrived c w =
      elim (Bool-cases (w.handshake_sent && w.handshake_received)) [
        | inl e ↦ rw e (greet-arrived c (connect w))
        | inr e ↦ rw e refl
      ]
