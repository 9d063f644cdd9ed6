-- ===== src/Permissions/Events.antt =====
-- The registry of crates/mega-permissions/src/lib.rs against the events that its calls return.
use stalky.Permissions.Machines.{Keyed, Tells, put-Keyed, find-Keyed, find-put, apply-Tells}
use stalky.Prelude.{
  List, Result, Option, err, ◌++◌, ◌∷◌, [], if◌then◌else◌, ◌≡◌, ok, refl, same, some, none,
  Option-cases, inl, inr, arith, ◌∙◌, ◌⊎◌, ap, same→eq, sym,
}
use stalky.Permissions.{
  PermissionCapability, PermissionState, unknown, PermissionEvent, PermissionMachine, Registry,
  new_registry, find, put, state_in, observe_in, request_in, apply, request_access, on_machine,
  PermissionTransitionError, PermissionCapability-discrete, observe, screen_recording,
  accessibility, must_change, begin_request, microphone, launch_at_login,
}

pub data Call : Type 0 where
  observes : PermissionCapability → PermissionState → Call
  requests : PermissionCapability → Call

abbrev event_of : {E : Type 0} → Result (Option PermissionEvent) E → List PermissionEvent
event_of (err e) = []
event_of (ok none) = []
event_of (ok (some e)) = e ∷ []

abbrev request_event_of : {E : Type 0} → Result PermissionEvent E → List PermissionEvent
request_event_of (err e) = []
request_event_of (ok e) = e ∷ []

unfoldable pub step : Registry → Call → Registry × List PermissionEvent
step r (observes c s) = let (r', result) = observe_in r c s in (r', event_of result)
step r (requests c) = let (r', result) = request_in r c in (r', request_event_of result)

unfoldable pub run : Registry → List Call → Registry × List PermissionEvent
run r [] = (r, [])
run r (c ∷ cs) = let (r', events) = step r c in let (r'', more) = run r' cs in (r'', events ++ more)

-- The state of a capability, as told by events from a state on.
unfoldable pub replay :
    PermissionCapability → PermissionState → List PermissionEvent → PermissionState
replay c s [] = s
replay c s (e ∷ es) =
    replay c (if same PermissionCapability-discrete e.capability c then e.to else s) es

replay-append :
    (c : PermissionCapability) (s : PermissionState) (xs ys : List PermissionEvent)
    → replay c s (xs ++ ys) ≡ replay c (replay c s xs) ys
unfolding replay PermissionCapability-discrete
replay-append c s [] ys = refl
replay-append c s (e ∷ xs) ys = replay-append c _ xs ys

new_registry-Keyed : Keyed new_registry
unfolding new_registry
new_registry-Keyed = (refl, (refl, (refl, (refl, tt))))

new_registry-unknown : (d : PermissionCapability) → state_in new_registry d ≡ unknown
unfolding new_registry state_in find PermissionCapability-discrete
new_registry-unknown screen_recording = refl
new_registry-unknown accessibility = refl
new_registry-unknown microphone = refl
new_registry-unknown launch_at_login = refl

-- The registry after a call shows what the events say.
abbrev Shows : Registry → Registry × List PermissionEvent → Type 0
Shows r (r', events) =
    Keyed r' × ((d : PermissionCapability) → state_in r' d ≡ replay d (state_in r d) events)

-- A call on a machine returns at most one event, about its new state.
abbrev Honest : PermissionMachine → PermissionMachine × List PermissionEvent → Type 0
Honest m (m', events) =
    (m'.capability ≡ m.capability)
    × (((events ≡ []) × (m' ≡ m))
        ⊎ ((e : PermissionEvent) × (events ≡ e ∷ [])
            × (e.capability ≡ m.capability)
            × (e.to ≡ m'.state)))

put_same-state_in :
    (r : Registry) (c d : PermissionCapability) (m : PermissionMachine)
    → find c r ≡ some m
    → state_in (put c m r) d ≡ state_in r d
unfolding state_in
put_same-state_in r c d m f =
    ground (arith, find-put c d m m r f, same→eq PermissionCapability-discrete c d)

put-Shows :
    (r : Registry) (c : PermissionCapability) (m m' : PermissionMachine)
    (events : List PermissionEvent)
    → Keyed r
    → find c r ≡ some m
    → Honest m (m', events)
    → Shows r (put c m' r, events)
put-Shows r c m m' events k f (q, inl (e, s)) =
    rw (e, s)
      (put-Keyed c m r (find-Keyed c m r k f) k, λ d. unfold replay in put_same-state_in r c d m f)
put-Shows r c m m' events k f (q, inr (e, l, ec, et)) = rw l (
  put-Keyed c m' r (q ∙ find-Keyed c m r k f) k,
  λ d. unfold state_in replay in ground (arith, find-put c d m m' r f, find-Keyed c m r k f),
)

observe-Honest :
    (m : PermissionMachine) (s : PermissionState)
    → let (m', r) = apply m (observe s) in Honest m (m', event_of r)
observe-Honest m s = told (apply m (observe s)) (apply-Tells m (observe s))
  where
    told :
        (x : PermissionMachine × Result (Option PermissionEvent) PermissionTransitionError)
        → Tells m x
        → Honest m (x.0, event_of x.1)
    told (m', err e) h = (ap (λ n. n.capability) h, inl (refl, h))
    told (m', ok none) h = (ap (λ n. n.capability) h, inl (refl, h))
    told (m', ok (some e)) h = (h.1, inr (e, refl, h.0, h.3))

request-Honest :
    (m : PermissionMachine) → let (m', r) = request_access m in Honest m (m', request_event_of r)
unfolding request_access
request-Honest m = told (apply m begin_request) (apply-Tells m begin_request)
  where
    told :
        (x : PermissionMachine × Result (Option PermissionEvent) PermissionTransitionError)
        → Tells m x
        → let (m', r) = must_change x in Honest m (m', request_event_of r)
    told (m', err e) h = (ap (λ n. n.capability) h, inl (refl, h))
    told (m', ok none) h = (ap (λ n. n.capability) h, inl (refl, h))
    told (m', ok (some e)) h = (h.1, inr (e, refl, h.0, h.3))

step-Shows : (r : Registry) (c : Call) → Keyed r → Shows r (step r c)
unfolding step observe_in request_in
step-Shows r (observes c s) k = elim (Option-cases (find c r)) [
  | inl e ↦ rw (e, on_machine) (k, λ d. unfold replay in refl)
  | inr (m, e) ↦ rw (e, on_machine) (put-Shows r c m _ _ k e (observe-Honest m s))
]
step-Shows r (requests c) k = elim (Option-cases (find c r)) [
  | inl e ↦ rw (e, on_machine) (k, λ d. unfold replay in refl)
  | inr (m, e) ↦ rw (e, on_machine) (put-Shows r c m _ _ k e (request-Honest m))
]

run-Shows : (r : Registry) (cs : List Call) → Keyed r → Shows r (run r cs)
unfolding run
run-Shows r [] k = (k, λ d. unfold replay in refl)
run-Shows r (c ∷ cs) k =
    let here = step-Shows r c k in
    let later = run-Shows (step r c).0 cs here.0 in
    (
      later.0,
      λ d.
          later.1 d
          ∙ ap (λ s. replay d s (run (step r c).0 cs).1) (here.1 d)
          ∙ sym (replay-append d (state_in r d) (step r c).1 (run (step r c).0 cs).1),
    )

-- After any observations and requests on a new registry, the state of every capability is the one
-- that the events returned so far lead to from `unknown`.
pub replay-state_in :
    (cs : List Call) (d : PermissionCapability)
    → let (r, events) = run new_registry cs in state_in r d ≡ replay d unknown events
replay-state_in cs d =
    (run-Shows new_registry cs new_registry-Keyed).1 d
    ∙ ap (λ s. replay d s (run new_registry cs).1) (new_registry-unknown d)
