-- ===== src/Supervisor/History.antt =====
-- What a supervisor of crates/mega-runtime/src/supervisor.rs records of its transitions.
use stalky.Prelude.Text.{Text}
use stalky.Prelude.{
  Bool, false, none, some, Option, Result, ok, err, true, ◌>>◌, Bool-cases, List, inl, ◌∷◌, [], inr,
  ◌++◌, ◌≡◌, ap, refl, subst, sym,
}
use stalky.Lifecycle.{
  LifecycleTransitionError, starting, running, stopping, failed, LifecycleState, stopped, apply,
  can_transition_to, LifecycleTransition,
}
use stalky.Lifecycle.Paths.{Chain, Chain-snoc}
use stalky.Supervisor.{
  awaits_worker, cancels_child, starts_worker, finish, moving, note, report, Outcome,
  SupervisionReport, run, application_cancelled, worker_finished, Supervisor, Subsystem, new,
  transition, SupervisorTransition,
}

abbrev pub steps : List SupervisorTransition → List LifecycleTransition
steps [] = []
steps (t ∷ ts) = t.transition ∷ steps ts

steps-snoc :
    (ts : List SupervisorTransition) (t : SupervisorTransition)
    → steps (ts ++ t ∷ []) ≡ steps ts ++ t.transition ∷ []
steps-snoc [] t = refl
steps-snoc (x ∷ ts) t = ap (◌∷◌ x.transition) (steps-snoc ts t)

transition-Chain :
    (s : Supervisor) (next : LifecycleState)
    → Chain stopped (steps s.transitions) s.state
    → let s' = (transition s next).0 in Chain stopped (steps s'.transitions) s'.state
transition-Chain s next h = elim (Bool-cases (can_transition_to s.state next)) [
  | inl e ↦
      unfold transition apply in
      rw (e, apply)
        (subst (λ xs. Chain stopped xs next) (sym (steps-snoc s.transitions _))
          (Chain-snoc stopped (steps s.transitions) s.state next h e))
  | inr e ↦ unfold transition apply in rw (e, apply) h
]

unfoldable pub transition_all : Supervisor → List LifecycleState → Supervisor
transition_all s [] = s
transition_all s (next ∷ rest) = transition_all (transition s next).0 rest

from_Chain :
    (s : Supervisor) (nexts : List LifecycleState)
    → Chain stopped (steps s.transitions) s.state
    → let t = transition_all s nexts in Chain stopped (steps t.transitions) t.state
unfolding transition_all
from_Chain s [] h = h
from_Chain s (next ∷ rest) h = from_Chain (transition s next).0 rest (transition-Chain s next h)

-- What the supervisor has recorded leads from `stopped` to its state.
abbrev IsTraced : Supervisor → Type 0
IsTraced s = Chain stopped (steps s.transitions) s.state

-- A report, if there is one, has such a record too.
abbrev pub IsReported : Result SupervisionReport LifecycleTransitionError → Type 0
IsReported (err e) = Unit
IsReported (ok r) = Chain stopped (steps r.transitions) r.final_state

moving-IsReported :
    (s : Supervisor) (next : LifecycleState)
    (k : Supervisor → Result SupervisionReport LifecycleTransitionError)
    → IsTraced s
    → ((t : Supervisor) → IsTraced t → IsReported (k t))
    → IsReported (moving s next k)
moving-IsReported s next k h f =
    let t = transition-Chain s next h in
    elim (transition s next).1 as (λ r. IsReported (r >> k (transition s next).0)) [
      | err e ↦ tt
      | ok u ↦ f (transition s next).0 t
    ]

-- A last transition, after which the report has no other.
ends-IsReported :
    (s : Supervisor) (next : LifecycleState) (acted : Supervisor → Supervisor) (b : Bool)
    (e : Option Text)
    → IsTraced s
    → ((t : Supervisor) → IsTraced t → IsTraced (acted t))
    → IsReported (moving s next λ t. ok (report (acted t) b e))
unfolding report
ends-IsReported s next acted b e h f = moving-IsReported s next (λ t. ok (report (acted t) b e)) h f

finish-IsReported : (o : Outcome) (s : Supervisor) → IsTraced s → IsReported (finish o s)
unfolding finish note
finish-IsReported application_cancelled s h =
    let cancelled = λ (t : Supervisor). note awaits_worker (note cancels_child t) in
    moving-IsReported s stopping (λ t. moving (cancelled t) stopped λ u. ok (report u true none)) h
      λ t k. ends-IsReported (cancelled t) stopped (λ u. u) true none k λ u l. l
finish-IsReported (worker_finished (ok r)) s h =
    moving-IsReported s stopping
      (λ t. moving (note cancels_child t) stopped λ u. ok (report u false none)) h
      λ t k. ends-IsReported (note cancels_child t) stopped (λ u. u) false none k λ u l. l
finish-IsReported (worker_finished (err e)) s h =
    ends-IsReported s (failed true e) (note cancels_child) false (some e) h λ u l. l

run-IsReported : (s : Supervisor) (o : Outcome) → IsTraced s → IsReported (run s o)
unfolding run note
run-IsReported s o h =
    let started = λ (t : Supervisor). finish o (note starts_worker t) in
    moving-IsReported s starting (λ t. moving t running started) h
      λ t k.
        moving-IsReported t running started k λ u l. finish-IsReported o (note starts_worker u) l

-- Whatever states are asked for, refused ones included, the recorded transitions lead from
-- `stopped` to the supervisor's state, each allowed and each from where the last one led. The same
-- holds of the report, if there is one, of a run that starts then, whatever its outcome.
pub transition_all-Chain :
    (subsystem : Subsystem) (nexts : List LifecycleState)
    → let s = transition_all (new subsystem) nexts in
      Chain stopped (steps s.transitions) s.state × ((o : Outcome) → IsReported (run s o))
transition_all-Chain subsystem nexts =
    let h = from_Chain (new subsystem) nexts (unfold new in refl) in
    (h, λ o. run-IsReported (transition_all (new subsystem) nexts) o h)
