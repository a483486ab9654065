-- ===== src/Wire/Feeding.antt =====
-- `_onData`, called with one chunk after the other, each in a turn of its own.
use browsertorrent.Common.{ℕ, ◌≡◌, sym, ap, List, [], ◌∷◌, ◌++◌}
use mathlib.Core.List.{append-nil}
use browsertorrent.Wire.{Wire, Environment}
use browsertorrent.Wire.Connect.{run_tasks}
use browsertorrent.Wire.Receive.{on_data}
use browsertorrent.Wire.Stability.{settled, on_data-append}
use browsertorrent.Wire.Tasks.{
  IsAlike, IsAlike-trans, settled-IsAlike, run_tasks-empty, run_tasks-congruent,
}
use browsertorrent.Wire.Turns.{on_data-tasks, on_data-late}

abbrev pub join : List (List ℕ) → List ℕ
join [] = []
join (c ∷ cs) = c ++ join cs

module _ (env : Environment) where
  -- A chunk, and the tasks that it leaves.
  abbrev pub turn : List ℕ → Wire → Wire
  turn c w = run_tasks (on_data env c w)

  abbrev pub feed : List (List ℕ) → Wire → Wire
  feed [] w = w
  feed (c ∷ cs) w = feed cs (turn c w)

  -- Whatever state a wire without waiting tasks is in, a stream that arrives in any chunks at all,
  -- one at least, with the tasks done after every chunk, leaves it as one chunk with all the bytes
  -- does: in the same state, with the same counters, the same buffer unless it is closed, and the
  -- same effects on the listeners, the transport and the extension host, in the same order but for
  -- the place of warnings.
  pub feed-join :
      (chunk : List ℕ) (chunks : List (List ℕ)) (w : Wire)
      → w.tasks ≡ []
      → IsAlike (feed (chunk ∷ chunks) w) (turn (join (chunk ∷ chunks)) w)
  feed-join chunk [] w none =
      settled-IsAlike (turn chunk w) (turn (chunk ++ []) w)
        (ap (λ c. settled (turn c w)) (sym (append-nil chunk)))
  feed-join chunk (c ∷ cs) w none =
      let rest : List ℕ = join (c ∷ cs) in
      let first : Wire = on_data env chunk w in
      let last : Wire = turn rest (run_tasks first) in
      let whole : Wire = turn (chunk ++ rest) w in
      IsAlike-trans (feed (c ∷ cs) (run_tasks first)) last whole
        (feed-join c cs (run_tasks first) (run_tasks-empty first))
        (IsAlike-trans last (turn rest first) whole
          (on_data-late env rest first (on_data-tasks env chunk w none))
          (settled-IsAlike (turn rest first) whole (
            run_tasks-congruent (on_data env rest first) (on_data env (chunk ++ rest) w)
              (on_data-append env chunk rest w))))
