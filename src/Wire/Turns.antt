-- ===== src/Wire/Turns.antt =====
-- The tasks of a wire and the chunks that arrive: what is done at the end of a turn comes to the same
-- as what is done at the end of a later one, but for the place of the warnings.
use browsertorrent.Common.{
  ℕ, ◌≡◌, refl, sym, ap, ◌∙◌, ◌⊎◌, inl, inr, Bool, true, Option, List, [], ◌++◌, Result, ok, err,
  length, ltb, arith, Bool-cases,
}
use mathlib.Core.Path.{subst}
use mathlib.Core.List.{append-nil}
use browsertorrent.Handshake.{handshake_length}
use browsertorrent.Wire.{
  emit, error, Effect, WireError, Wire, Outcome, returned, thrown, log, is_closed, Environment,
}
use browsertorrent.Wire.Connect.{run_tasks}
use browsertorrent.Wire.Lifecycle.{shut}
use browsertorrent.Wire.Receive.{
  process_frames, receive_handshake, after_handshake, caught, on_data,
}
use browsertorrent.Wire.Stream.{KeepsOutcome, process_frames-Keeps}
use browsertorrent.Wire.Cutting.{
  process_buffer_frames, process_buffer_short, process_buffer_long, receive_handshake_open,
}
use browsertorrent.Wire.Stability.{
  wire_of, settled, on_data_closed, on_data_open, terminate_closed, terminate_open,
}
use browsertorrent.Wire.Placing.{placed, on_data-placed}
use browsertorrent.Wire.Tasks.{
  IsAlike, settled-IsAlike, ran, warnings, marks, run_tasks_lem, run_tasks_none, late_IsAlike,
  silent,
}

caught-kept :
    (o : Outcome)
    → ((caught o).handshake_received ≡ (wire_of o).handshake_received)
      × ((caught o).tasks ≡ (wire_of o).tasks)
caught-kept (returned w) = (refl, refl)
caught-kept (thrown e w) =
    let u : Wire = log (emit (error e)) w in
    elim (Bool-cases (is_closed u.state)) [
      | inl q ↦
          let same = terminate_closed (Option.some e) u q in
          (ap (λ x. x.handshake_received) same, ap (λ x. x.tasks) same)
      | inr q ↦
          let same = terminate_open (Option.some e) u q in
          (
            ap (λ x. x.handshake_received) same ∙ unfold shut in refl,
            ap (λ x. x.tasks) same ∙ unfold shut in refl,
          )
    ]

Kept_received :
    (w : Wire) (o : Outcome)
    → KeepsOutcome w o
    → (wire_of o).handshake_received ≡ w.handshake_received
Kept_received w (returned u) k = k.1
Kept_received w (thrown e u) k = k.1

module _ (env : Environment) where
  frames_received :
      (n : ℕ) (w : Wire)
      → w.handshake_received ≡ true
      → (caught (process_frames env n w)).handshake_received ≡ true
  frames_received n w r =
      (caught-kept (process_frames env n w)).0
      ∙ Kept_received w (process_frames env n w) (process_frames-Keeps env n w)
      ∙ r

  -- Only the end of the handshake leaves tasks.
  pub on_data-tasks :
      (c : List ℕ) (w : Wire)
      → w.tasks ≡ []
      → ((on_data env c w).handshake_received ≡ true) ⊎ ((on_data env c w).tasks ≡ [])
  on_data-tasks c w none = elim (Bool-cases (is_closed w.state)) [
    | inl e ↦ inr (ap (λ u. u.tasks) (on_data_closed env c w e) ∙ none)
    | inr e ↦
        let more : Wire = record w { buffer = w.buffer ++ c } in
        let opened = on_data_open env c w e in
        elim (Bool-cases w.handshake_received) [
          | inl r ↦ inl (
              ap (λ u. u.handshake_received) (opened ∙ ap caught (process_buffer_frames env more r))
              ∙ frames_received (length more.buffer) more r)
          | inr r ↦ elim (Bool-cases (ltb (length more.buffer) handshake_length)) [
            | inl short ↦ inr (
                ap (λ u. u.tasks) (opened ∙ ap caught (process_buffer_short env more r short))
                ∙ none)
            | inr long ↦
                let steps = opened ∙ ap caught (process_buffer_long env more r (ground arith)) in
                elim (by_handshake more (receive_handshake env more)
                  (λ u q. (receive_handshake_open env more u e q).1)) [
                    | inl known ↦ inl (ap (λ u. u.handshake_received) steps ∙ known)
                    | inr left ↦ inr (ap (λ u. u.tasks) steps ∙ left ∙ none)
                  ]
          ]
        ]
  ]
    where
      by_handshake :
          (more : Wire) (o : Result WireError Wire)
          → ((u : Wire) → o ≡ ok u → u.handshake_received ≡ true)
          → ((caught (after_handshake env more o)).handshake_received ≡ true)
            ⊎ ((caught (after_handshake env more o)).tasks ≡ more.tasks)
      by_handshake more (err e) q = inr (caught-kept (thrown e more)).1
      by_handshake more (ok u) q = inl (frames_received (length u.buffer) u (q u refl))

  -- The tasks of a turn may as well wait for the end of the next.
  pub on_data-late :
      (c : List ℕ) (w : Wire)
      → (w.handshake_received ≡ true) ⊎ (w.tasks ≡ [])
      → IsAlike (run_tasks (on_data env c (run_tasks w))) (run_tasks (on_data env c w))
  on_data-late c w (inr none) =
      settled-IsAlike (run_tasks (on_data env c (run_tasks w))) (run_tasks (on_data env c w))
        (ap (λ u. settled (run_tasks (on_data env c u))) (run_tasks_none w none))
  on_data-late c w (inl r) =
      let base : Wire = silent w in
      let before : List Effect = w.effects in
      let sent : Bool = w.extension_handshake_sent in
      let after : List Effect = before ++ warnings w.tasks in
      let p : Wire = on_data env c base in
      let now : w ≡ placed before sent w.tasks base =
        ap (λ es. record w { effects = es }) (sym (append-nil before)) in
      let later : run_tasks w ≡ placed after (marks sent w.tasks) [] base =
        run_tasks_lem w ∙ ap (λ es. record (ran w) { effects = es }) (sym (append-nil after)) in
      let left : run_tasks (on_data env c (run_tasks w))
          ≡ ran (placed after (marks sent w.tasks) [] p) =
        ap (λ u. run_tasks (on_data env c u)) later
        ∙ ap run_tasks (on_data-placed env after (marks sent w.tasks) [] c base r)
        ∙ run_tasks_lem (placed after (marks sent w.tasks) [] p) in
      let right : run_tasks (on_data env c w) ≡ ran (placed before sent w.tasks p) =
        ap (λ u. run_tasks (on_data env c u)) now
        ∙ ap run_tasks (on_data-placed env before sent w.tasks c base r)
        ∙ run_tasks_lem (placed before sent w.tasks p) in
      subst (λ u. IsAlike u (run_tasks (on_data env c w))) (sym left)
        (subst (λ u. IsAlike (ran (placed after (marks sent w.tasks) [] p)) u) (sym right)
          (late_IsAlike before sent w.tasks p))
