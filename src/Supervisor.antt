-- ===== src/Supervisor.antt =====
-- crates/mega-runtime/src/supervisor.rs: one worker and the lifecycle of its subsystem. The worker
-- and the cancellation token are tokio's: `run` takes what `select!` sees of them.
pub mod History
mod Tests
use stalky.Prelude.Text.{Text}
use stalky.Prelude.{
  Bool, List, Result, [], ◌++◌, Option, err, ok, ◌>>◌, ◌∷◌, true, none, false, some,
}
use stalky.Lifecycle.{
  LifecycleState, stopped, starting, running, stopping, failed, LifecycleTransition,
  LifecycleTransitionError, apply,
}

-- crates/mega-core/src/subsystem.rs
pub data Subsystem : Type 0 where
  runtime screen_capture accessibility audio permissions ipc : Subsystem

pub record SupervisorTransition : Type 0 where
  pub subsystem : Subsystem
  pub transition : LifecycleTransition

-- What the supervisor does, in order: it changes its state, starts the worker, cancels the child
-- token, and waits for the worker to finish.
pub data Action : Type 0 where
  enters : LifecycleState → Action
  starts_worker cancels_child awaits_worker : Action

pub record Supervisor : Type 0 where
  pub subsystem : Subsystem
  pub state : LifecycleState
  pub transitions : List SupervisorTransition
  pub actions : List Action

pub record SupervisionReport : Type 0 where
  pub subsystem : Subsystem
  pub final_state : LifecycleState
  pub cancelled : Bool
  pub worker_error : Option Text
  pub transitions : List SupervisorTransition
  pub actions : List Action

-- Which branch of the biased `select!` completes: the application's cancellation, or the worker
-- with its result.
pub data Outcome : Type 0 where
  application_cancelled : Outcome
  worker_finished : Result (Unit {0}) Text → Outcome

unfoldable pub new : Subsystem → Supervisor
new subsystem = record { subsystem = subsystem; state = stopped; transitions = []; actions = [] }

unfoldable note : Action → Supervisor → Supervisor
note a s = record s { actions = s.actions ++ a ∷ [] }

noted :
    Supervisor
    → LifecycleState × Result LifecycleTransition LifecycleTransitionError
    → Supervisor × Result (Unit {0}) LifecycleTransitionError
noted s (state, err e) = (record s { state = state }, err e)
noted s (state, ok t) = (
  record s {
    state = state;
    transitions = s.transitions ++ record { subsystem = s.subsystem; transition = t } ∷ [];
    actions = s.actions ++ enters state ∷ [];
  },
  ok tt,
)

unfoldable pub transition :
    Supervisor → LifecycleState → Supervisor × Result (Unit {0}) LifecycleTransitionError
unfolding noted
transition s next = noted s (apply s.state next)

-- `self.transition(next)?`, and the code after it.
abbrev moving :
    Supervisor
    → LifecycleState
    → (Supervisor → Result SupervisionReport LifecycleTransitionError)
    → Result SupervisionReport LifecycleTransitionError
moving s next k = let (s', r) = transition s next in r >> k s'

unfoldable report : Supervisor → Bool → Option Text → SupervisionReport
report s cancelled worker_error = record {
  subsystem = s.subsystem;
  final_state = s.state;
  cancelled = cancelled;
  worker_error = worker_error;
  transitions = s.transitions;
  actions = s.actions;
}

unfoldable finish : Outcome → Supervisor → Result SupervisionReport LifecycleTransitionError
unfolding note report
finish application_cancelled s =
    moving s stopping
      λ s. moving (note awaits_worker (note cancels_child s)) stopped λ s. ok (report s true none)
finish (worker_finished (ok _)) s =
    moving s stopping λ s. moving (note cancels_child s) stopped λ s. ok (report s false none)
finish (worker_finished (err error)) s =
    moving s (failed true error) λ s. ok (report (note cancels_child s) false (some error))

unfoldable pub run : Supervisor → Outcome → Result SupervisionReport LifecycleTransitionError
unfolding finish note
run s outcome = moving s starting λ s. moving s running λ s. finish outcome (note starts_worker s)
