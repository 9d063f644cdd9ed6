-- ===== src/Accessibility/Service.antt =====
-- crates/stalky-accessibility/src/service.rs, and the records of its status in model.rs: the service
-- that starts and stops the observation, and the callbacks of the native observer. The lifecycle lock
-- keeps the calls apart; the inner lock is free while the backend starts or stops, so callbacks come
-- between a call's sections. `S` is the backend's session, `F` is `f64`; `display` is the derived text
-- of an error. The weak reference of a callback is that of a service that is there.
pub mod Calls
pub mod Idle
pub mod Recent
pub mod Revoked
pub mod Sessions
pub mod Stops
pub mod Untouched
use stalky.Prelude.Words.{saturating_add, wrapping_add}
use stalky.Prelude.Text.{Text}
use stalky.Prelude.Int.{ℤ}
use stalky.Prelude.{
  Bool, List, Option, ℕ, [], drop, false, if◌then◌else◌, length, none, some, take, ◌++◌, ◌==◌, ◌∷◌,
}
use stalky.Permissions.{PermissionState, unknown}
use stalky.Accessibility.{AccessibilityElementId, ActionPolicyError}
use stalky.Accessibility.Normalizer.{AccessibilityNode}

abbrev pub max_recent_events : ℕ
max_recent_events = 100

abbrev pub max_diagnostic_chars : ℕ
max_diagnostic_chars = 256

pub data AccessibilityState : Type 0 where
  stopped starting running failed : AccessibilityState

unfoldable pub AccessibilityState-discrete : Discrete AccessibilityState
AccessibilityState-discrete = hlevel

pub data AccessibilityError : Type 0 where
  not_trusted unsupported_target already_running not_running : AccessibilityError
  native : Text → ℤ → AccessibilityError
  timeout : Text → AccessibilityError
  action_rejected : ActionPolicyError → AccessibilityError
  worker_stopped worker_start : AccessibilityError

pub record AccessibilityApplication : Type 0 where
  pub pid : ℤ
  pub name : Option Text
  pub bundle_identifier : Option Text

pub data AccessibilityEventKind : Type 0 where
  focused_application focused_window focused_element window_created value_changed selection_changed
        title_changed element_destroyed :
      AccessibilityEventKind

pub record AccessibilityEvent : Type 0 where
  pub sequence : ℕ
  pub kind : AccessibilityEventKind
  pub element : Option AccessibilityElementId
  pub observed_at_millis : ℕ

pub record AccessibilityMetrics : Type 0 where
  pub observed_events : ℕ
  pub dropped_events : ℕ
  pub errors : ℕ
  pub stale_events : ℕ
  pub unsupported_notifications : ℕ

pub record AccessibilitySnapshot (F : Type 0) : Type 0 where
  pub generation : ℕ
  pub observed_at_millis : ℕ
  pub application : Option AccessibilityApplication
  pub focused_window : Option (AccessibilityNode F)
  pub focused_element : Option (AccessibilityNode F)
  pub tree : Option (AccessibilityNode F)

pub record AccessibilityStatus (F : Type 0) : Type 0 where
  pub state : AccessibilityState
  pub permission : PermissionState
  pub snapshot : Option (AccessibilitySnapshot F)
  pub recent_events : List AccessibilityEvent
  pub metrics : AccessibilityMetrics
  pub last_error : Option Text

pub record CallbackMetrics : Type 0 where
  pub observed : ℕ
  pub dropped : ℕ
  pub errors : ℕ
  pub stale : ℕ
  pub unsupported : ℕ

-- The fields under the inner lock. The callbacks' counters are atomic and stand beside it.
pub record ServiceInner (S F : Type 0) : Type 0 where
  pub state : AccessibilityState
  pub permission : PermissionState
  pub snapshot : Option (AccessibilitySnapshot F)
  pub recent_events : List AccessibilityEvent
  pub metrics : AccessibilityMetrics
  pub last_error : Option Text
  pub sequence : ℕ
  pub session : Option S

-- The service, and whether its two locks are poisoned.
pub record AccessibilityService (S F : Type 0) : Type 0 where
  pub inner : ServiceInner S F
  pub callback_metrics : CallbackMetrics
  pub is_poisoned : Bool
  pub is_lifecycle_poisoned : Bool

unfoldable pub with_backend : {S F : Type 0} → AccessibilityService S F
with_backend = record {
  inner = record {
    state = stopped;
    permission = unknown;
    snapshot = none;
    recent_events = [];
    metrics = record {
      observed_events = 0;
      dropped_events = 0;
      errors = 0;
      stale_events = 0;
      unsupported_notifications = 0;
    };
    last_error = none;
    sequence = 0;
    session = none;
  };
  callback_metrics = record { observed = 0; dropped = 0; errors = 0; stale = 0; unsupported = 0 };
  is_poisoned = false;
  is_lifecycle_poisoned = false;
}

unfoldable pub status_from_inner : {S F : Type 0} → AccessibilityService S F → AccessibilityStatus F
status_from_inner s =
    let m = s.inner.metrics in
    let c = s.callback_metrics in
    record {
      state = s.inner.state;
      permission = s.inner.permission;
      snapshot = s.inner.snapshot;
      recent_events = s.inner.recent_events;
      metrics = record {
        observed_events = saturating_add m.observed_events c.observed;
        dropped_events = saturating_add m.dropped_events c.dropped;
        errors = saturating_add m.errors c.errors;
        stale_events = saturating_add m.stale_events c.stale;
        unsupported_notifications = saturating_add m.unsupported_notifications c.unsupported;
      };
      last_error = s.inner.last_error;
    }

unfoldable pub diagnostic : (AccessibilityError → Text) → AccessibilityError → Text
diagnostic display e = take max_diagnostic_chars (display e)

-- Whether the `try_lock` of a callback finds the inner lock free.
pub data Lock : Type 0 where
  free busy : Lock

-- The calls of `ServiceEventSink`; that of `record_event` with the time at which it reads the clock.
pub data Event (F : Type 0) : Type 0 where
  publishes : Lock → AccessibilitySnapshot F → Event F
  records : Lock → AccessibilityEventKind → Option AccessibilityElementId → ℕ → Event F
  errs : Lock → AccessibilityError → Event F
  finds_stale finds_unsupported : Event F

module _ {S F : Type 0} where
  -- A poisoned lock is not taken either.
  unfoldable pub with_inner :
      AccessibilityService S F
      → Lock
      → (ServiceInner S F → ServiceInner S F)
      → AccessibilityService S F
  with_inner s busy update =
      let c = s.callback_metrics in
      record s { callback_metrics = record c { dropped = wrapping_add c.dropped 1 } }
  with_inner s free update =
      let c = s.callback_metrics in
      if s.is_poisoned
      then record s { callback_metrics = record c { dropped = wrapping_add c.dropped 1 } }
      else record s { inner = update s.inner }

  -- The ring of the newest events.
  unfoldable pub push_event :
      AccessibilityEventKind
      → Option AccessibilityElementId
      → ℕ
      → ServiceInner S F
      → ServiceInner S F
  push_event kind element now inner =
      let sequence = saturating_add inner.sequence 1 in
      let kept =
        if length inner.recent_events == max_recent_events
        then drop 1 inner.recent_events
        else inner.recent_events in
      record inner {
        sequence = sequence;
        recent_events =
            kept
            ++ record {
              sequence = sequence;
              kind = kind;
              element = element;
              observed_at_millis = now;
            }
              ∷ [];
      }

  module _ (display : AccessibilityError → Text) where
    unfoldable pub on_event : AccessibilityService S F → Event F → AccessibilityService S F
    on_event s (publishes lock snapshot) =
        with_inner s lock λ inner. record inner { snapshot = some snapshot }
    on_event s (records lock kind element now) =
        let c = s.callback_metrics in
        with_inner
          (record s { callback_metrics = record c { observed = wrapping_add c.observed 1 } }) lock
          (push_event kind element now)
    on_event s (errs lock e) =
        let c = s.callback_metrics in
        with_inner (record s { callback_metrics = record c { errors = wrapping_add c.errors 1 } })
          lock (λ inner. record inner { last_error = some (diagnostic display e) })
    on_event s finds_stale =
        let c = s.callback_metrics in
        record s { callback_metrics = record c { stale = wrapping_add c.stale 1 } }
    on_event s finds_unsupported =
        let c = s.callback_metrics in
        record s { callback_metrics = record c { unsupported = wrapping_add c.unsupported 1 } }

    unfoldable pub on_events : AccessibilityService S F → List (Event F) → AccessibilityService S F
    on_events s [] = s
    on_events s (e ∷ es) = on_events (on_event s e) es
