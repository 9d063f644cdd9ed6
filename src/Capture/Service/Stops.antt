-- ===== src/Capture/Service/Stops.antt =====
-- What `stop` of crates/mega-capture/src/service.rs leaves behind.
use stalky.Capture.Frame.{clear_latest}
use stalky.Capture.Service.Calls.{finish_stop, stop, begin_stop, halt_session}
use stalky.Prelude.Text.{Text}
use stalky.Capture.Service.Rest.{is_some, IsSettled, quiet-events}
use stalky.Prelude.{List, Result, ℕ, ok, ◌≡◌, false, err, refl, ◌∙◌, ap, none, ◌||◌}
use stalky.Capture.Service.{CaptureService, CaptureStatus, Event, on_events, status_from_inner}
use stalky.Capture.{
  CaptureState, CaptureError, CaptureState-discrete, stopped, stopping, failed, starting, running,
}
use stalky.Capture.Service.Sessions.{fits}

-- The state that fits the result.
abbrev pub Ends : CaptureState → Result CaptureStatus CaptureError → Type 0
Ends state (ok reported) = (state ≡ stopped) × (reported.state ≡ stopped)
Ends state (err e) = state ≡ failed

-- Nothing is left of a capture.
abbrev pub LeavesNothing :
    {S : Type 0} → CaptureService S × Result CaptureStatus CaptureError → Type 0
LeavesNothing (s, r) =
    (is_some s.inner.source ≡ false)
    × (is_some s.inner.session ≡ false)
    × (is_some s.inner.metrics.latest ≡ false)
    × Ends s.inner.state r

module _ {S : Type 0} (hash : List ℕ → ℕ) (display : CaptureError → Text) where
  finish_stop-LeavesNothing :
      (s : CaptureService S) (r : Result (Unit {0}) CaptureError)
      → s.is_poisoned ≡ false
      → is_some s.inner.session ≡ false
      → LeavesNothing (finish_stop hash display s r)
  unfolding finish_stop clear_latest status_from_inner
  finish_stop-LeavesNothing s (ok u) p a = rw p (refl, a, refl, (refl, refl))
  finish_stop-LeavesNothing s (err e) p a = rw p (refl, a, refl, refl)

  stopping-LeavesNothing :
      (s : CaptureService S) (during : List Event) (r : Result (Unit {0}) CaptureError)
      → s.inner.state ≡ stopping
      → s.is_poisoned ≡ false
      → is_some s.inner.session ≡ false
      → (counter : ℕ)
      → LeavesNothing (finish_stop hash display (on_events hash display s counter during) r)
  unfolding CaptureState-discrete
  stopping-LeavesNothing s during r e p b counter =
      let q = quiet-events hash display during s counter (rw e refl) in
      finish_stop-LeavesNothing _ r (q.poison_kept ∙ p) (ap is_some q.session_kept ∙ b)

  -- The service after the first section of a stop.
  abbrev halting : CaptureService S → CaptureService S
  halting s = record s { inner = record (s.inner) { state = stopping; session = none } }

  unpoisoned :
      (s : CaptureService S)
      → s.is_lifecycle_poisoned ≡ false
      → IsSettled s
      → (s.is_lifecycle_poisoned || s.is_poisoned) ≡ false
  unpoisoned s l k = rw (l, k.0) refl

  stop_from :
      (st : CaptureState) (s : CaptureService S) (during : List Event)
      (halt : S → Result (Unit {0}) CaptureError)
      → s.inner.state ≡ st
      → s.is_lifecycle_poisoned ≡ false
      → IsSettled s
      → LeavesNothing (stop hash display s during halt)
  unfolding stop begin_stop CaptureState-discrete status_from_inner
  stop_from starting s during halt e l k = elim (fits hash display s starting e k) [ ]
  stop_from stopping s during halt e l k = elim (fits hash display s stopping e k) [ ]
  stop_from stopped s during halt e l k =
      let (a, b, c) = fits hash display s stopped e k in
      simp (unpoisoned s l k, e, stop, begin_stop) (a, b, c, (refl, refl))
  stop_from running s during halt e l k =
      simp (unpoisoned s l k, e, stop, begin_stop)
        (stopping-LeavesNothing (halting s) during (halt_session halt s.inner.session) refl k.0 refl
          s.inner.callback_drops)
  stop_from failed s during halt e l k =
      simp (unpoisoned s l k, e, stop, begin_stop)
        (stopping-LeavesNothing (halting s) during (halt_session halt s.inner.session) refl k.0 refl
          s.inner.callback_drops)

  -- A stop between the calls, with the lifecycle lock unpoisoned, leaves no source, session or raw
  -- frame, whether the session's own stop succeeds or fails, and whatever events come in between. Its
  -- result says which: `ok` reports the service as stopped, as it is, and an error leaves it failed.
  pub stop-LeavesNothing :
      (s : CaptureService S) (during : List Event) (halt : S → Result (Unit {0}) CaptureError)
      → s.is_lifecycle_poisoned ≡ false
      → IsSettled s
      → LeavesNothing (stop hash display s during halt)
  stop-LeavesNothing s during halt l k = stop_from s.inner.state s during halt refl l k
