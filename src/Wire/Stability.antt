-- ===== src/Wire/Stability.antt =====
-- `_onData`: the outcome of a stream does not depend on the chunks it comes in.
use browsertorrent.Common.{
  ℕ, ◌≡◌, refl, sym, ap, ◌∙◌, inl, inr, true, false, Option, some, List, [], ◌++◌, if◌then◌else◌,
  Result, ok, err, length, ltb, Bool-cases, if-true, if-false, arith,
}
use mathlib.Core.List.{append_assoc}
use browsertorrent.Handshake.{handshake_length}
use browsertorrent.Wire.{
  WireError, emit, error, log, Wire, Outcome, returned, thrown, is_closed, Environment,
}
use browsertorrent.Wire.Lifecycle.{terminate, shut}
use browsertorrent.Wire.Receive.{
  process_frames, receive_handshake, after_handshake, process_buffer, caught, on_data,
}
use browsertorrent.Wire.Chunks.{arrived}
use browsertorrent.Wire.Stream.{KeepsOutcome, process_frames-Keeps}
use browsertorrent.Wire.Cutting.{
  again, process_buffer_frames, process_buffer_short, process_buffer_long, receive_handshake_open,
  process_buffer-arrived,
}

abbrev pub wire_of : Outcome → Wire
wire_of (returned w) = w
wire_of (thrown e w) = w

-- The wire without the bytes that a closed one still holds, which nothing reads.
abbrev pub settled : Wire → Wire
settled w = if is_closed w.state then record w { buffer = [] } else w

pub terminate_closed :
    (r : Option WireError) (w : Wire) → is_closed w.state ≡ true → terminate r w ≡ w
unfolding terminate
terminate_closed r w e = if-true (is_closed w.state) _ _ e

pub terminate_open :
    (r : Option WireError) (w : Wire) → is_closed w.state ≡ false → terminate r w ≡ shut r w
unfolding terminate
terminate_open r w e = if-false (is_closed w.state) _ _ e

pub terminate_closes : (r : Option WireError) (w : Wire) → is_closed (terminate r w).state ≡ true
terminate_closes r w = elim (Bool-cases (is_closed w.state)) [
  | inl e ↦ ap (λ u. is_closed u.state) (terminate_closed r w e) ∙ e
  | inr e ↦ ap (λ u. is_closed u.state) (terminate_open r w e) ∙ unfold shut in refl
]

module _ (env : Environment) where
  kept_open :
      (w : Wire) (o : Outcome)
      → is_closed w.state ≡ false
      → KeepsOutcome w o
      → is_closed (wire_of o).state ≡ false
  kept_open w (returned u) h k = ap is_closed k.0 ∙ h
  kept_open w (thrown e u) h k = ap is_closed k.0 ∙ h

  -- Only `_onData` itself closes the wire.
  process_buffer_open :
      (w : Wire)
      → is_closed w.state ≡ false
      → is_closed (wire_of (process_buffer env w)).state ≡ false
  process_buffer_open w o = elim (Bool-cases w.handshake_received) [
    | inl e ↦
        ap (λ x. is_closed (wire_of x).state) (process_buffer_frames env w e)
        ∙ kept_open w (process_frames env (length w.buffer) w) o
            (process_frames-Keeps env (length w.buffer) w)
    | inr e ↦ elim (Bool-cases (ltb (length w.buffer) handshake_length)) [
      | inl e' ↦ ap (λ x. is_closed (wire_of x).state) (process_buffer_short env w e e') ∙ o
      | inr e' ↦
          ap (λ x. is_closed (wire_of x).state) (process_buffer_long env w e (ground arith))
          ∙ by_handshake (receive_handshake env w) (λ u q. (receive_handshake_open env w u o q).0)
    ]
  ]
    where
      by_handshake :
          (r : Result WireError Wire)
          → ((u : Wire) → r ≡ ok u → is_closed u.state ≡ false)
          → is_closed (wire_of (after_handshake env w r)).state ≡ false
      by_handshake (err e) q = o
      by_handshake (ok u) q =
          kept_open u (process_frames env (length u.buffer) u) (q u refl)
            (process_frames-Keeps env (length u.buffer) u)

  pub on_data_closed : (c : List ℕ) (w : Wire) → is_closed w.state ≡ true → on_data env c w ≡ w
  unfolding on_data
  on_data_closed c w e = if-true (is_closed w.state) _ _ e

  pub on_data_open :
      (c : List ℕ) (w : Wire)
      → is_closed w.state ≡ false
      → on_data env c w ≡ caught (process_buffer env (arrived c w))
  unfolding on_data
  on_data_open c w e = if-false (is_closed w.state) _ _ e

  resumes :
      (c : List ℕ) (o : Outcome)
      → is_closed (wire_of o).state ≡ false
      → settled (on_data env c (caught o)) ≡ settled (caught (again env c o))
  resumes c (returned w) h = ap settled (on_data_open c w h)
  resumes c (thrown e w) h =
      ap (λ u. settled (on_data env c u)) (terminate_open (some e) (log (emit (error e)) w) h)
      ∙ ap settled (on_data_closed c (shut (some e) (log (emit (error e)) w)) (unfold shut in refl))
      ∙ unfold shut in
        refl ∙ ap settled (sym (terminate_open (some e) (log (emit (error e)) (arrived c w)) h))

  -- Whatever state a wire is in, two chunks that arrive one after the other leave it as one chunk
  -- with the bytes of both does: its state, its counters, its buffer unless it is closed, and what
  -- it has handed to the listeners, the transport and the extension host by then.
  pub on_data-append :
      (first second : List ℕ) (w : Wire)
      → settled (on_data env second (on_data env first w))
        ≡ settled (on_data env (first ++ second) w)
  on_data-append first second w = elim (Bool-cases (is_closed w.state)) [
    | inl e ↦
        ap (λ u. settled (on_data env second u)) (on_data_closed first w e)
        ∙ ap settled (on_data_closed second w e ∙ sym (on_data_closed (first ++ second) w e))
    | inr e ↦
        let w1 : Wire = arrived first w in
        let both : arrived (first ++ second) w ≡ arrived second w1 =
          ap (λ b. record w { buffer = b }) (sym (append_assoc w.buffer first second)) in
        ap (λ u. settled (on_data env second u)) (on_data_open first w e)
        ∙ resumes second (process_buffer env w1) (process_buffer_open w1 e)
        ∙ ap (λ o. settled (caught o))
            (sym (process_buffer-arrived env second w1 e) ∙ ap (process_buffer env) (sym both))
        ∙ ap settled (sym (on_data_open (first ++ second) w e))
  ]
