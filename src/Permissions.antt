-- ===== src/Permissions.antt =====
-- crates/mega-permissions/src/lib.rs: the permission state of each protected capability, the request
-- policy, and the registry of the machines. A `BTreeMap` is a list of pairs.
pub mod Machines
pub mod Events
mod Tests
use stalky.Prelude.{
  Bool, true, false, Option, none, some, List, Result, ok, err, if◌then◌else◌, ◌∷◌, [], same,
}

pub data PermissionCapability : Type 0 where
  screen_recording accessibility microphone launch_at_login : PermissionCapability

unfoldable pub PermissionCapability-discrete : Discrete PermissionCapability
PermissionCapability-discrete = hlevel

pub data PermissionState : Type 0 where
  unknown not_requested requesting granted denied : PermissionState
  restricted restart_required revoked unsupported : PermissionState

unfoldable pub PermissionState-discrete : Discrete PermissionState
PermissionState-discrete = hlevel

unfoldable pub is_granted : PermissionState → Bool
is_granted granted = true
is_granted _ = false

unfoldable pub needs_user_action : PermissionState → Bool
needs_user_action not_requested = true
needs_user_action denied = true
needs_user_action restricted = true
needs_user_action revoked = true
needs_user_action _ = false

pub data PermissionRequestDecision : Type 0 where
  request already_granted already_requesting open_settings unsupported : PermissionRequestDecision

unfoldable pub permission_request_decision : PermissionState → Bool → PermissionRequestDecision
permission_request_decision granted has_requested = already_granted
permission_request_decision requesting has_requested = already_requesting
permission_request_decision PermissionState.unsupported has_requested =
    PermissionRequestDecision.unsupported
permission_request_decision restricted has_requested = open_settings
permission_request_decision revoked has_requested = open_settings
permission_request_decision denied true = open_settings
permission_request_decision unknown has_requested = request
permission_request_decision not_requested has_requested = request
permission_request_decision denied false = request
permission_request_decision restart_required has_requested = open_settings

pub data PermissionChangeReason : Type 0 where
  initial_observation user_requested os_observation : PermissionChangeReason
  user_revoked restart_required_by_os : PermissionChangeReason

pub record PermissionEvent : Type 0 where
  pub capability : PermissionCapability
  pub from : PermissionState
  pub to : PermissionState
  pub reason : PermissionChangeReason

pub data PermissionAction : Type 0 where
  begin_request : PermissionAction
  observe : PermissionState → PermissionAction
  mark_revoked : PermissionAction

pub data PermissionTransitionError : Type 0 where
  request_not_allowed revoke_not_allowed : PermissionState → PermissionTransitionError
  invalid_observation : PermissionTransitionError

pub record PermissionMachine : Type 0 where
  pub capability : PermissionCapability
  pub state : PermissionState

unfoldable pub new_machine : PermissionCapability → PermissionMachine
new_machine c = record { capability = c; state = unknown }

may_request : PermissionState → Bool
may_request unknown = true
may_request not_requested = true
may_request denied = true
may_request revoked = true
may_request _ = false

is_requesting : PermissionState → Bool
is_requesting requesting = true
is_requesting _ = false

-- The `match` on the action in `apply`.
target :
    PermissionState
    → PermissionAction
    → Result (PermissionState × PermissionChangeReason) PermissionTransitionError
unfolding may_request is_requesting is_granted
target state begin_request =
    if may_request state then ok (requesting, user_requested) else err (request_not_allowed state)
target state (observe next) =
    if is_requesting next then err invalid_observation else ok (next, os_observation)
target state mark_revoked =
    if is_granted state then ok (revoked, user_revoked) else err (revoke_not_allowed state)

-- The rest of `apply`.
move_to :
    PermissionMachine
    → PermissionState
    → PermissionChangeReason
    → PermissionMachine × Option PermissionEvent
move_to m next reason = if same PermissionState-discrete m.state next then (m, none) else (
  record m { state = next },
  some (record { capability = m.capability; from = m.state; to = next; reason = reason }),
)

unfoldable pub apply :
    PermissionMachine
    → PermissionAction
    → PermissionMachine × Result (Option PermissionEvent) PermissionTransitionError
unfolding target move_to
apply m action = elim (target m.state action) [
  | err e ↦ (m, err e)
  | ok (next, reason) ↦ let (m', event) = move_to m next reason in (m', ok event)
]

-- `begin_request`: no event from `apply` is an error, too.
pub must_change :
    PermissionMachine × Result (Option PermissionEvent) PermissionTransitionError
    → PermissionMachine × Result PermissionEvent PermissionTransitionError
must_change (m, err e) = (m, err e)
must_change (m, ok none) = (m, err (request_not_allowed m.state))
must_change (m, ok (some event)) = (m, ok event)

unfoldable pub request_access :
    PermissionMachine → PermissionMachine × Result PermissionEvent PermissionTransitionError
unfolding must_change
request_access m = must_change (apply m begin_request)

abbrev pub Registry : Type 0
Registry = List (PermissionCapability × PermissionMachine)

unfoldable pub new_registry : Registry
unfolding new_machine
new_registry =
    (screen_recording, new_machine screen_recording)
    ∷ (accessibility, new_machine accessibility)
    ∷ (microphone, new_machine microphone)
    ∷ (launch_at_login, new_machine launch_at_login)
    ∷ []

unfoldable pub find : PermissionCapability → Registry → Option PermissionMachine
find c [] = none
find c ((k, m) ∷ r) = if same PermissionCapability-discrete k c then some m else find c r

-- What a `&mut` into the map leaves there.
unfoldable pub put : PermissionCapability → PermissionMachine → Registry → Registry
put c m [] = []
put c m ((k, n) ∷ r) =
    if same PermissionCapability-discrete k c then (k, m) ∷ r else (k, n) ∷ put c m r

pub or_unknown : Option PermissionMachine → PermissionState
or_unknown none = unknown
or_unknown (some m) = m.state

unfoldable pub state_in : Registry → PermissionCapability → PermissionState
unfolding or_unknown
state_in r c = or_unknown (find c r)

module _ {A : Type 0}
    (call : PermissionMachine → PermissionMachine × Result A PermissionTransitionError) where
  -- `self.machine_mut(capability)?` and a call on it.
  unfoldable pub on_machine :
      Registry → PermissionCapability → Registry × Result A PermissionTransitionError
  on_machine r c = elim (find c r) [
    | none ↦ (r, err (request_not_allowed unknown))
    | some m ↦ let (m', result) = call m in (put c m' r, result)
  ]

unfoldable pub observe_in :
    Registry
    → PermissionCapability
    → PermissionState
    → Registry × Result (Option PermissionEvent) PermissionTransitionError
unfolding on_machine
observe_in r c s = on_machine (λ m. apply m (observe s)) r c

unfoldable pub request_in :
    Registry → PermissionCapability → Registry × Result PermissionEvent PermissionTransitionError
unfolding on_machine
request_in r c = on_machine request_access r c
