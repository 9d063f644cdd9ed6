-- ===== src/Permissions/Machines.antt =====
-- One permission machine of crates/mega-permissions/src/lib.rs, and the registry seen through the
-- events that its calls return.
use stalky.Prelude.{
  All, Bool, Result, arith, ◌≡◌, Option, ok, some, ◌⊎◌, err, if◌then◌else◌, inr, refl, same, ◌≢◌,
  none, [], ◌∷◌,
}
use stalky.Permissions.{
  PermissionCapability, requesting, request, PermissionAction, begin_request, observe, mark_revoked,
  PermissionEvent, PermissionMachine, PermissionTransitionError, apply, request_access,
  permission_request_decision, Registry, find, put, user_requested, PermissionCapability-discrete,
}

-- What a call says of the machine it leaves: an error or no event leaves it as it was; an event is
-- about its capability, and leads from the state before to another one, which it now has.
abbrev pub Tells :
    PermissionMachine
    → PermissionMachine × Result (Option PermissionEvent) PermissionTransitionError
    → Type 0
Tells m (m', err e) = m' ≡ m
Tells m (m', ok none) = m' ≡ m
Tells m (m', ok (some e)) =
    (e.capability ≡ m.capability)
    × (m'.capability ≡ m.capability)
    × (e.from ≡ m.state)
    × (e.to ≡ m'.state)
    × (e.from ≢ e.to)

-- Every action, accepted or not, tells the truth about the machine.
pub apply-Tells : (m : PermissionMachine) (a : PermissionAction) → Tells m (apply m a)
unfolding apply
apply-Tells m begin_request = ground arith
apply-Tells m (observe s) = ground arith
apply-Tells m mark_revoked = ground arith

-- A machine gets into `requesting` by an explicit request alone, never by an observation.
pub requesting_needs_request :
    (m : PermissionMachine) (a : PermissionAction)
    → (apply m a).0.state ≡ requesting
    → (m.state ≡ requesting) ⊎ (a ≡ begin_request)
unfolding apply
requesting_needs_request m begin_request h = inr refl
requesting_needs_request m (observe s) h = ground arith
requesting_needs_request m mark_revoked h = ground arith

-- When the request policy says to request, the machine accepts the request: it is then requesting,
-- and the event says so.
pub request_access-accepted :
    (m : PermissionMachine) (has_requested : Bool)
    → permission_request_decision m.state has_requested ≡ request
    → (e : PermissionEvent) × (request_access m ≡ (record m { state = requesting }, ok e))
      × (e.capability ≡ m.capability)
      × (e.from ≡ m.state)
      × (e.to ≡ requesting)
unfolding request_access apply permission_request_decision
request_access-accepted m has_requested h = (
  record { capability = m.capability; from = m.state; to = requesting; reason = user_requested },
  ground arith,
  refl,
  refl,
  refl,
)

pub find-put :
    (c d : PermissionCapability) (m m' : PermissionMachine) (r : Registry)
    → find c r ≡ some m
    → find d (put c m' r) ≡ (if same PermissionCapability-discrete c d then some m' else find d r)
unfolding find put
find-put c d m m' [] h = cc
find-put c d m m' ((k, n) ∷ r) h = ground (arith, find-put c d m m' r)

-- Each machine stands under its own capability.
abbrev pub Keyed : Registry → Type 0
Keyed r = All (λ e. e.1.capability ≡ e.0) r

pub find-Keyed :
    (c : PermissionCapability) (m : PermissionMachine) (r : Registry)
    → Keyed r
    → find c r ≡ some m
    → m.capability ≡ c
unfolding find
find-Keyed c m [] k h = cc
find-Keyed c m ((d, n) ∷ r) k h = ground (arith, find-Keyed c m r k.1)

pub put-Keyed :
    (c : PermissionCapability) (m : PermissionMachine) (r : Registry)
    → m.capability ≡ c
    → Keyed r
    → Keyed (put c m r)
unfolding put
put-Keyed c m [] e k = tt
put-Keyed c m ((d, n) ∷ r) e k = ground (arith, put-Keyed c m r e k.1)
