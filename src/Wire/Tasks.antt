-- ===== src/Wire/Tasks.antt =====
-- The tasks of a wire: what they come to, and when two wires have done the same but for the place of
-- the warnings.
use browsertorrent.Common.{
  ◌≡◌, refl, sym, ap, ◌∙◌, inl, inr, Bool, true, List, [], ◌∷◌, ◌++◌, Bool-cases,
}
use mathlib.Core.Path.{subst}
use mathlib.Core.List.{append_assoc, append-nil, Perm}
use mathlib.Core.List.Perm
use browsertorrent.Wire.{warning, emit, Effect, Task, handshake_marked, warned, Wire, is_closed}
use browsertorrent.Wire.Connect.{run_task, run_each, run_tasks}
use browsertorrent.Wire.Stability.{settled}
use browsertorrent.Wire.Placing.{placed}

-- The effects but the warnings.
abbrev pub others : List Effect → List Effect
others [] = []
others (emit (warning e) ∷ es) = others es
others (e ∷ es) = e ∷ others es

others-append : (es fs : List Effect) → others (es ++ fs) ≡ others es ++ others fs
others-append [] fs = refl
others-append (emit (warning e) ∷ es) fs = others-append es fs
others-append (e ∷ es) fs = ap (◌∷◌ e) (others-append es fs)

abbrev pub silent : Wire → Wire
silent w = record w { effects = [] }

-- Two wires in the same state, the bytes aside that a closed one still holds, with the same
-- effects; those that are no warnings came in the same order.
pub record IsAlike (u v : Wire) : Type 0 where
  pub same_effects : Perm u.effects v.effects
  pub same_order : others u.effects ≡ others v.effects
  pub same_state : settled (silent u) ≡ settled (silent v)

pub IsAlike-trans : (u v w : Wire) → IsAlike u v → IsAlike v w → IsAlike u w
IsAlike-trans u v w h k = record {
  same_effects = Perm.trans h.same_effects k.same_effects;
  same_order = h.same_order ∙ k.same_order;
  same_state = h.same_state ∙ k.same_state;
}

settled-shape : (w : Wire) → settled w ≡ record w { buffer = (settled w).buffer }
settled-shape w = elim (Bool-cases (is_closed w.state)) [ inl e ↦ rw e refl | inr e ↦ rw e refl ]

settled-silent : (w : Wire) → settled (silent w) ≡ silent (settled w)
settled-silent w = elim (Bool-cases (is_closed w.state)) [ inl e ↦ rw e refl | inr e ↦ rw e refl ]

pub settled-IsAlike : (u v : Wire) → settled u ≡ settled v → IsAlike u v
settled-IsAlike u v e =
    let effects : u.effects ≡ v.effects =
      sym (ap (λ x. x.effects) (settled-shape u))
      ∙ ap (λ x. x.effects) e
      ∙ ap (λ x. x.effects) (settled-shape v) in
    record {
      same_effects = subst (λ es. Perm u.effects es) effects Perm.rfl;
      same_order = ap others effects;
      same_state = settled-silent u ∙ ap silent e ∙ sym (settled-silent v);
    }

-- What the tasks come to.
abbrev pub warnings : List Task → List Effect
warnings [] = []
warnings (handshake_marked ∷ ts) = warnings ts
warnings (warned e ∷ ts) = emit (warning e) ∷ warnings ts

abbrev pub marks : Bool → List Task → Bool
marks sent [] = sent
marks sent (handshake_marked ∷ ts) = marks true ts
marks sent (warned e ∷ ts) = marks sent ts

others-warnings : (ts : List Task) → others (warnings ts) ≡ []
others-warnings [] = refl
others-warnings (handshake_marked ∷ ts) = others-warnings ts
others-warnings (warned e ∷ ts) = others-warnings ts

run_each_lem :
    (ts : List Task) (w : Wire)
    → run_each ts w ≡ record w {
      effects = w.effects ++ warnings ts;
      extension_handshake_sent = marks w.extension_handshake_sent ts;
    }
run_each_lem [] w = ap (λ es. record w { effects = es }) (sym (append-nil w.effects))
run_each_lem (handshake_marked ∷ ts) w = run_each_lem ts (run_task handshake_marked w)
run_each_lem (warned e ∷ ts) w =
    run_each_lem ts (run_task (warned e) w)
    ∙ ap
        (λ es. record w {
          effects = es;
          extension_handshake_sent = marks w.extension_handshake_sent ts;
        })
        (append_assoc w.effects (emit (warning e) ∷ []) (warnings ts))

abbrev pub ran : Wire → Wire
ran w = record w {
  effects = w.effects ++ warnings w.tasks;
  extension_handshake_sent = marks w.extension_handshake_sent w.tasks;
  tasks = [];
}

pub run_tasks_lem : (w : Wire) → run_tasks w ≡ ran w
unfolding run_tasks
run_tasks_lem w = run_each_lem w.tasks (record w { tasks = [] })

pub run_tasks-empty : (w : Wire) → (run_tasks w).tasks ≡ []
run_tasks-empty w = ap (λ u. u.tasks) (run_tasks_lem w)

pub run_tasks_none : (w : Wire) → w.tasks ≡ [] → run_tasks w ≡ w
unfolding run_tasks
run_tasks_none w e =
    ap (λ ts. run_each ts (record w { tasks = [] })) e ∙ ap (λ ts. record w { tasks = ts }) (sym e)

ran-settled : (w : Wire) → settled (ran w) ≡ ran (settled w)
ran-settled w = elim (Bool-cases (is_closed w.state)) [ inl e ↦ rw e refl | inr e ↦ rw e refl ]

pub run_tasks-congruent :
    (u v : Wire) → settled u ≡ settled v → settled (run_tasks u) ≡ settled (run_tasks v)
run_tasks-congruent u v e =
    ap settled (run_tasks_lem u)
    ∙ ran-settled u
    ∙ ap ran e
    ∙ sym (ran-settled v)
    ∙ ap settled (sym (run_tasks_lem v))

middle {ℓ} : {A : Type ℓ} (x : A) (xs ys : List A) → Perm (x ∷ (ys ++ xs)) (ys ++ (x ∷ xs))
middle x xs [] = Perm.rfl
middle x xs (y ∷ ys) = Perm.trans (Perm.swap y x (ys ++ xs)) (Perm.cons y (middle x xs ys))

append_comm {ℓ} : {A : Type ℓ} (xs ys : List A) → Perm (xs ++ ys) (ys ++ xs)
append_comm [] ys = subst (λ zs. Perm ys zs) (sym (append-nil ys)) Perm.rfl
append_comm (x ∷ xs) ys = Perm.trans (Perm.cons x (append_comm xs ys)) (middle x xs ys)

-- Warnings before or behind the effects of a chunk.
late_Perm :
    (before ws es : List Effect) → Perm (((before ++ ws) ++ es) ++ []) ((before ++ es) ++ ws)
late_Perm before ws es =
    subst (λ l. Perm l ((before ++ es) ++ ws))
      (sym (append-nil ((before ++ ws) ++ es) ∙ append_assoc before ws es))
      (subst (λ l. Perm (before ++ (ws ++ es)) l) (sym (append_assoc before es ws))
        (Perm.append_left before (append_comm ws es)))

late_others :
    (before es : List Effect) (ts : List Task)
    → others (((before ++ warnings ts) ++ es) ++ []) ≡ others ((before ++ es) ++ warnings ts)
late_others before es ts =
    let ws : List Effect = warnings ts in
    ap others (append-nil ((before ++ ws) ++ es))
    ∙ others-append (before ++ ws) es
    ∙ ap (λ l. l ++ others es)
        (others-append before ws
          ∙ ap (λ l. others before ++ l) (others-warnings ts)
          ∙ append-nil (others before))
    ∙ sym (
        others-append (before ++ es) ws
        ∙ ap (λ l. others (before ++ es) ++ l) (others-warnings ts)
        ∙ append-nil (others (before ++ es))
        ∙ others-append before es)

pub late_IsAlike :
    (before : List Effect) (sent : Bool) (ts : List Task) (p : Wire)
    → IsAlike
        (ran (placed (before ++ warnings ts) (marks sent ts) [] p))
        (ran (placed before sent ts p))
late_IsAlike before sent ts p = record {
  same_effects = late_Perm before (warnings ts) p.effects;
  same_order = late_others before p.effects ts;
  same_state = refl;
}
