-- ===== src/Wire/Writing.antt =====
-- `_writeFrame`: no bytes of a frame stay counted.
use browsertorrent.Common.{
  ℕ, ◌+◌, ◌-◌, ◌≡◌, refl, ap, inl, inr, not, if◌then◌else◌, List, length, leb, arith, Bool-cases,
}
use browsertorrent.Wire.{
  peer_wire_error, transport_error, send, log, Wire, Outcome, returned, thrown, Environment,
}
use browsertorrent.Wire.Send.{write_frame}

-- What a frame comes to where nothing is counted.
abbrev pub written_uncounted : Environment → List ℕ → Wire → Outcome
written_uncounted env frame w =
    if not (leb (w.queued_write_bytes + length frame) w.config.max_queued_write_bytes)
    then thrown peer_wire_error w
    else if env.transport_accepts frame
    then returned (log (send frame) w)
    else thrown transport_error w

pub write_frame_lem :
    (env : Environment) (frame : List ℕ) (w : Wire)
    → write_frame env frame w ≡ written_uncounted env frame w
unfolding write_frame
write_frame_lem env frame w =
    let n : ℕ = length frame in
    let same : (w.queued_write_bytes + n) - n ≡ w.queued_write_bytes = omega arith in
    elim (Bool-cases (leb (w.queued_write_bytes + n) w.config.max_queued_write_bytes)) [
      | inr e ↦ rw e refl
      | inl e ↦ elim (Bool-cases (env.transport_accepts frame)) [
        | inl e' ↦
            rw (e, e')
              (ap (λ q. returned (record (log (send frame) w) { queued_write_bytes = q })) same)
        | inr e' ↦
            rw (e, e') (ap (λ q. thrown transport_error (record w { queued_write_bytes = q })) same)
      ]
    ]
