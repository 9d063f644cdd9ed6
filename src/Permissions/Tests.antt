-- ===== src/Permissions/Tests.antt =====
-- A session of permission calls.
use stalky.Prelude.{List, ◌∷◌, ◌≡◌, [], map, refl}
use stalky.Permissions.Events.{run, Call, step, observes, replay, requests, replay-state_in}
use stalky.Permissions.{
  requesting, PermissionState, apply, PermissionMachine, PermissionState-discrete, granted,
  new_registry, denied, microphone, observe_in, request_access, state_in, request_in, find,
  accessibility, put, unknown, PermissionCapability-discrete,
}

abbrev session : List Call
session =
    observes microphone denied
    ∷ requests microphone
    ∷ requests microphone
    ∷ observes microphone granted
    ∷ observes accessibility requesting
    ∷ []

session_test : map (λ e. e.to) (run new_registry session).1 ≡ denied ∷ requesting ∷ granted ∷ []
unfolding run step new_registry observe_in request_in find put apply request_access
    PermissionState-discrete PermissionCapability-discrete
session_test = refl

replay-state_in_example :
    let (r, events) = run new_registry session in
    state_in r microphone ≡ replay microphone unknown events
replay-state_in_example = replay-state_in session microphone

abbrev mic : PermissionState → PermissionMachine
mic s = record { capability = microphone; state = s }
