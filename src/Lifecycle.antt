-- ===== src/Lifecycle.antt =====
-- crates/mega-core/src/lifecycle.rs: the states of the application and of each subsystem.
pub mod Paths
use stalky.Prelude.Text.{Text}
use stalky.Prelude.{Bool, true, false, Result, ok, err, if◌then◌else◌}

pub data LifecycleState : Type 0 where
  stopped starting running : LifecycleState
  degraded : Text → LifecycleState
  stopping : LifecycleState
  failed : Bool → Text → LifecycleState

unfoldable pub can_transition_to : LifecycleState → LifecycleState → Bool
can_transition_to stopped starting = true
can_transition_to starting running = true
can_transition_to starting (degraded r) = true
can_transition_to starting (failed b r) = true
can_transition_to starting stopping = true
can_transition_to running (degraded r) = true
can_transition_to running (failed b r) = true
can_transition_to running stopping = true
can_transition_to (degraded q) running = true
can_transition_to (degraded q) (failed b r) = true
can_transition_to (degraded q) stopping = true
can_transition_to (failed b r) starting = true
can_transition_to (failed b r) stopping = true
can_transition_to (failed b r) stopped = true
can_transition_to stopping stopped = true
can_transition_to stopping (failed b r) = true
can_transition_to _ _ = false

unfoldable pub is_active : LifecycleState → Bool
is_active starting = true
is_active running = true
is_active (degraded r) = true
is_active _ = false

pub record LifecycleTransition : Type 0 where
  pub from : LifecycleState
  pub to : LifecycleState

pub record LifecycleTransitionError : Type 0 where
  pub from : LifecycleState
  pub to : LifecycleState

-- `LifecycleTransition::apply` returns the state that it leaves in `current`, too.
unfoldable pub apply :
    LifecycleState
    → LifecycleState
    → LifecycleState × Result LifecycleTransition LifecycleTransitionError
apply current next =
    if can_transition_to current next
    then (next, ok (record { from = current; to = next }))
    else (current, err (record { from = current; to = next }))
