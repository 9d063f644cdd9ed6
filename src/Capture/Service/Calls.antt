-- ===== src/Capture/Service/Calls.antt =====
-- `start`, `stop` and `status` of crates/mega-capture/src/service.rs. Each has its sections under the
-- inner lock, and between them the events of the stream.
use stalky.Capture.Frame.{clear_latest}
use stalky.Prelude.Text.{Text}
use stalky.Capture.{already_active}
use stalky.Capture.Service.{CaptureStatus, CaptureService, Event, status_from_inner, on_events}
use stalky.Capture.{
  CaptureError, CaptureSource, invalid_start_state, invalid_stop_state, stopped, failed, running,
  starting, CaptureState-discrete, stopping,
}
use stalky.Prelude.{
  List, Result, ℕ, Bool, Option, ok, err, if◌then◌else◌, some, true, false, none, ◌||◌, same,
  length, ◌++◌, ◌∷◌, [],
}

-- How the first section of `stop` ends: it returns, or goes on with the session it has taken.
pub data Stopping (S : Type 0) : Type 0 where
  returns : Result CaptureStatus CaptureError → Stopping S
  takes : Option S → Stopping S

abbrev pub is_ok : Result (Unit {0}) CaptureError → Bool
is_ok (ok _) = true
is_ok (err e) = false

-- `session.as_mut().map_or(Ok(()), |session| session.stop())`
abbrev pub halt_session :
    {S : Type 0} → (S → Result (Unit {0}) CaptureError) → Option S → Result (Unit {0}) CaptureError
halt_session halt none = ok tt
halt_session halt (some session) = halt session

module _ {S : Type 0} (hash : List ℕ → ℕ) (display : CaptureError → Text) where
  -- The first section of `start`: it gives the events' counter.
  unfoldable pub begin_start :
      CaptureService S → CaptureSource → CaptureService S × Result ℕ CaptureError
  begin_start s source =
      if s.is_lifecycle_poisoned || s.is_poisoned
      then (s, err (invalid_start_state failed))
      else elim s.inner.state [
        | stopped ↦ (
          record s {
            inner = record (s.inner) {
              state = starting;
              source = some source;
              last_error = none;
              callback_drops = length s.counters;
            };
            counters = s.counters ++ 0 ∷ [];
          },
          ok (length s.counters),
        )
        | starting ↦ (s, err (already_active starting))
        | running ↦ (s, err (already_active running))
        | stopping ↦ (s, err (invalid_start_state stopping))
        | failed ↦ (s, err (invalid_start_state failed))
      ]

  -- The rest of `start`, after the backend returned.
  unfoldable pub finish_start :
      CaptureService S
      → Result S CaptureError
      → CaptureService S × Result CaptureStatus CaptureError
  finish_start s (err e) = (
    if s.is_poisoned
        then s
        else record s { inner = record (s.inner) { state = stopped; source = none } },
    err e,
  )
  finish_start s (ok session) =
      if s.is_poisoned
      then (s, err (invalid_start_state failed))
      else (let s' = record s {
        inner = record (s.inner) { session = some session; state = running };
      } in
          (s', ok (status_from_inner s')))

  -- `start`, with the events while the backend starts and what it returns.
  unfoldable pub start :
      CaptureService S
      → CaptureSource
      → List Event
      → Result S CaptureError
      → CaptureService S × Result CaptureStatus CaptureError
  start s source during started =
      let (s', begun) = begin_start s source in
      elim begun [
        | err e ↦ (s', err e)
        | ok counter ↦ finish_start (on_events hash display s' counter during) started
      ]

  unfoldable pub begin_stop : CaptureService S → CaptureService S × Stopping S
  begin_stop s =
      if s.is_lifecycle_poisoned || s.is_poisoned
      then (s, returns (err (invalid_stop_state failed)))
      else if same CaptureState-discrete s.inner.state stopped
      then (s, returns (ok (status_from_inner s)))
      else if same CaptureState-discrete s.inner.state stopping
      then (s, returns (err (invalid_stop_state stopping)))
      else (
        record s { inner = record (s.inner) { state = stopping; session = none } },
        takes s.inner.session,
      )

  -- The `if let Err(error)` at the end of `stop`.
  abbrev pub stop_result :
      CaptureService S
      → Result (Unit {0}) CaptureError
      → CaptureService S × Result CaptureStatus CaptureError
  stop_result s (ok _) = (s, ok (status_from_inner s))
  stop_result s (err e) =
      (record s { inner = record (s.inner) { last_error = some (display e) } }, err e)

  unfoldable pub finish_stop :
      CaptureService S
      → Result (Unit {0}) CaptureError
      → CaptureService S × Result CaptureStatus CaptureError
  finish_stop s r =
      if s.is_poisoned
      then (s, err (invalid_stop_state failed))
      else stop_result
          (record s {
            inner = record (s.inner) {
              metrics = clear_latest s.inner.metrics;
              source = none;
              state = if is_ok r then stopped else failed;
            };
          })
          r

  -- `stop`, with the events while the session stops, and what its `stop` returns.
  unfoldable pub stop :
      CaptureService S
      → List Event
      → (S → Result (Unit {0}) CaptureError)
      → CaptureService S × Result CaptureStatus CaptureError
  stop s during halt =
      let (s', begun) = begin_stop s in
      elim begun [
        | returns r ↦ (s', r)
        | takes session ↦
            finish_stop (on_events hash display s' s'.inner.callback_drops during)
              (halt_session halt session)
      ]

  unfoldable pub status : CaptureService S → Result CaptureStatus CaptureError
  status s = if s.is_poisoned then err (invalid_start_state failed) else ok (status_from_inner s)
