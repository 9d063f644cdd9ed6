-- ===== src/Capture/Service.antt =====
-- crates/mega-capture/src/service.rs: the capture service, its start and stop, and the callbacks of
-- the running stream. Each section under the inner lock is a step; the lifecycle lock keeps other
-- starts and stops out, so only events come between the two sections of a call. The backend is what
-- it returns, and `display` is the derived text of an error. Weak references are those of a service
-- that is there.
pub mod Calls
pub mod Rest
pub mod Sessions
pub mod Stops
use stalky.Prelude.Words.{saturating_add, wrapping_add}
use stalky.Prelude.Text.{Text}
use stalky.Prelude.{
  List, Option, take, ℕ, Bool, get_elem?, ◌∷◌, Result, [], false, if◌then◌else◌, err, none, not, ok,
  suc, ◌||◌, some, true, zero, ◌&&◌, same, length, ◌++◌,
}
use stalky.Capture.{
  CaptureState, CaptureError, CaptureSource, stopped, invalid_start_state, invalid_stop_state,
  failed, CaptureState-discrete, running, starting, stopping, already_active,
}
use mathlib.Core.Option
use stalky.Capture.Frame.{
  FrameInput, BgraFrame, FrameMetrics, FrameIngest, new_ingest, ingest, ingest_owned,
  record_stream_error, clear_latest,
}

pub record CaptureStatus : Type 0 where
  pub state : CaptureState
  pub source : Option CaptureSource
  pub metrics : FrameMetrics
  pub last_error : Option Text

-- `callback_drops` is the place of the shared counter among those of the service.
pub record ServiceInner (S : Type 0) : Type 0 where
  pub state : CaptureState
  pub source : Option CaptureSource
  pub metrics : FrameIngest
  pub session : Option S
  pub last_error : Option Text
  pub callback_drops : ℕ

-- The service with the counters it has made, and whether its two locks are poisoned.
pub record CaptureService (S : Type 0) : Type 0 where
  pub inner : ServiceInner S
  pub counters : List ℕ
  pub is_poisoned : Bool
  pub is_lifecycle_poisoned : Bool

-- Whether `try_lock` of a callback takes the lock.
pub data Lock : Type 0 where
  taken busy : Lock

-- The callbacks of `ServiceEvents`.
pub data Event : Type 0 where
  ingests : Lock → FrameInput → Event
  ingests_owned : Lock → BgraFrame → Event
  drops : Event
  errs : Text → Event

-- `fetch_add(1)` on the counter at a place.
unfoldable pub fetch_add : List ℕ → ℕ → List ℕ
fetch_add [] i = []
fetch_add (n ∷ ns) zero = wrapping_add n 1 ∷ ns
fetch_add (n ∷ ns) (suc i) = n ∷ fetch_add ns i

abbrev pub load : List ℕ → ℕ → ℕ
load ns i = elim (get_elem? ns i) [ none ↦ 0 | some n ↦ n ]

unfoldable pub bounded_diagnostic : Text → Text
bounded_diagnostic message = take 256 message

unfoldable pub new_service : {S : Type 0} → CaptureService S
new_service = record {
  inner = record {
    state = stopped;
    source = none;
    metrics = new_ingest;
    session = none;
    last_error = none;
    callback_drops = 0;
  };
  counters = 0 ∷ [];
  is_poisoned = false;
  is_lifecycle_poisoned = false;
}

unfoldable pub status_from_inner : {S : Type 0} → CaptureService S → CaptureStatus
status_from_inner s =
    let m = s.inner.metrics.metrics in
    record {
      state = s.inner.state;
      source = s.inner.source;
      metrics = record m {
        dropped_frames = saturating_add m.dropped_frames (load s.counters s.inner.callback_drops);
      };
      last_error = s.inner.last_error;
    }

-- `ServiceEvents::record_drop`, on the counter of the events.
unfoldable pub count_drop : {S : Type 0} → CaptureService S → ℕ → CaptureService S
count_drop s counter = record s { counters = fetch_add s.counters counter }

module _ {S : Type 0} (hash : List ℕ → ℕ) (display : CaptureError → Text) where
  -- The `if let Err(error)` after an ingest.
  unfoldable pub ingested :
      CaptureService S → FrameIngest × Result (Unit {0}) CaptureError → CaptureService S
  ingested s (m, ok _) = record s { inner = record (s.inner) { metrics = m } }
  ingested s (m, err e) = record s {
    inner = record (s.inner) { metrics = m; last_error = some (bounded_diagnostic (display e)) };
  }

  -- Whether a frame gets past the early returns of `ingest` and `ingest_owned`.
  unfoldable pub is_admitted : CaptureService S → Lock → Bool
  is_admitted s busy = false
  is_admitted s taken = not s.is_poisoned && same CaptureState-discrete s.inner.state running

  -- A panic under the lock poisons it.
  unfoldable pub on_event : CaptureService S → ℕ → Event → CaptureService S
  on_event s counter (ingests lock input) =
      if is_admitted s lock
      then elim (ingest hash s.inner.metrics input) [
        | none ↦ record s { is_poisoned = true }
        | some r ↦ ingested s r
      ]
      else count_drop s counter
  on_event s counter (ingests_owned lock frame) =
      if is_admitted s lock
      then ingested s (ingest_owned hash s.inner.metrics frame)
      else count_drop s counter
  on_event s counter drops = count_drop s counter
  on_event s counter (errs message) = record s {
    inner = record (s.inner) {
      metrics = record_stream_error s.inner.metrics;
      last_error = some (bounded_diagnostic message);
      state = if same CaptureState-discrete s.inner.state running then failed else s.inner.state;
    };
  }

  unfoldable pub on_events : CaptureService S → ℕ → List Event → CaptureService S
  on_events s counter [] = s
  on_events s counter (e ∷ es) = on_events (on_event s counter e) counter es
