-- ===== src/Supervisor/Tests.antt =====
-- Runs of a supervisor.
use stalky.Lifecycle.Paths.{Chain}
use stalky.Supervisor.History.{IsReported, transition_all, transition_all-Chain, steps}
use stalky.Supervisor.{
  Action, Outcome, SupervisionReport, application_cancelled, audio, awaits_worker, cancels_child,
  enters, new, run, starts_worker, transition,
}
use stalky.Prelude.{List, ◌∷◌, ◌≡◌, ok, [], refl}
use stalky.Lifecycle.{
  can_transition_to, LifecycleState, starting, apply, stopped, running, stopping,
}

abbrev asked : List LifecycleState
asked = starting ∷ stopped ∷ running ∷ stopping ∷ []

transition_all_test : (transition_all (new audio) asked).state ≡ stopping
unfolding transition_all new transition apply can_transition_to
transition_all_test = refl

-- A refused state is not recorded.
transition_all-Chain_example :
    let s = transition_all (new audio) asked in
    Chain stopped (steps s.transitions) s.state × ((o : Outcome) → IsReported (run s o))
transition_all-Chain_example = transition_all-Chain audio asked

abbrev cancelled_actions : List Action
cancelled_actions =
    enters starting
    ∷ enters running
    ∷ starts_worker
    ∷ enters stopping
    ∷ cancels_child
    ∷ awaits_worker
    ∷ enters stopped
    ∷ []

run_test :
    (r : SupervisionReport) × (run (new audio) application_cancelled ≡ ok r)
    × (r.actions ≡ cancelled_actions)
unfolding run new transition apply can_transition_to
run_test = (_, refl, refl)
