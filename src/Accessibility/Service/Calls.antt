-- ===== src/Accessibility/Service/Calls.antt =====
-- The methods of `AccessibilityService` (crates/stalky-accessibility/src/service.rs). What the backend
-- and its session return, and the callbacks that come while they work, are arguments.
use stalky.Prelude.Words.{saturating_add}
use stalky.Prelude.Text.{Text}
use stalky.Prelude.{
  Bool, List, Option, Result, [], err, false, if◌then◌else◌, none, not, ok, same, some, true, ◌&&◌,
  ◌||◌,
}
use stalky.Permissions.{PermissionState, PermissionState-discrete, denied, granted}
use stalky.Accessibility.{AccessibilityAction, AccessibilityActionRequest, AccessibilityElementId}
use stalky.Accessibility.Service.{
  AccessibilityError, AccessibilityService, AccessibilityState-discrete, AccessibilityStatus, Event,
  ServiceInner, already_running, diagnostic, failed, not_running, not_trusted, on_events, running,
  starting, status_from_inner, stopped, worker_stopped,
}

-- model.rs
pub record AccessibilityActionResult : Type 0 where
  pub executed : Bool
  pub element : AccessibilityElementId
  pub action : AccessibilityAction

abbrev pub is_some {ℓ} : {A : Type ℓ} → Option A → Bool
is_some none = false
is_some (some a) = true

-- `matches!(error, AccessibilityError::NotTrusted)`
abbrev pub is_not_trusted : AccessibilityError → Bool
is_not_trusted not_trusted = true
is_not_trusted _ = false

-- `session.as_mut().map(|session| session.stop()).unwrap_or(Ok(()))`
abbrev pub halt_session :
    {S : Type 0}
    → (S → Result (Unit {0}) AccessibilityError)
    → Option S
    → Result (Unit {0}) AccessibilityError
halt_session halt none = ok tt
halt_session halt (some session) = halt session

module _ {S F : Type 0} (display : AccessibilityError → Text) where
  -- An error's diagnostic and count, in `start`, `stop` and `refresh_permission`.
  unfoldable pub note_error : ServiceInner S F → AccessibilityError → ServiceInner S F
  note_error inner e =
      let m = inner.metrics in
      record inner {
        last_error = some (diagnostic display e);
        metrics = record m { errors = saturating_add m.errors 1 };
      }

  unfoldable pub begin_start :
      AccessibilityService S F → AccessibilityService S F × Result (Unit {0}) AccessibilityError
  begin_start s =
      if s.is_lifecycle_poisoned || s.is_poisoned
      then (s, err worker_stopped)
      else if is_some s.inner.session || same AccessibilityState-discrete s.inner.state running
      then (s, err already_running)
      else (record s { inner = record (s.inner) { state = starting; last_error = none } }, ok tt)

  -- The last section of `start`, with what the backend returned.
  unfoldable pub finish_start :
      AccessibilityService S F
      → Result S AccessibilityError
      → AccessibilityService S F × Result (AccessibilityStatus F) AccessibilityError
  finish_start s (ok session) =
      if s.is_poisoned
      then (s, err worker_stopped)
      else (let s' = record s {
        inner = record (s.inner) { session = some session; state = running; permission = granted };
      } in
          (s', ok (status_from_inner s')))
  finish_start s (err e) = if s.is_poisoned then (s, err worker_stopped) else (
    record s {
      inner =
          note_error
            (record (s.inner) {
              permission = if is_not_trusted e then denied else s.inner.permission;
              state = failed;
            })
            e;
    },
    err e,
  )

  unfoldable pub start :
      AccessibilityService S F
      → List (Event F)
      → Result S AccessibilityError
      → AccessibilityService S F × Result (AccessibilityStatus F) AccessibilityError
  start s during started =
      let (s', begun) = begin_start s in
      elim begun [ err e ↦ (s', err e) | ok _ ↦ finish_start (on_events display s' during) started ]

  unfoldable pub finish_stop :
      AccessibilityService S F
      → Result (Unit {0}) AccessibilityError
      → AccessibilityService S F × Result (AccessibilityStatus F) AccessibilityError
  finish_stop s (ok _) =
      if s.is_poisoned
      then (s, err worker_stopped)
      else (let s' = record s {
        inner = record (s.inner) { snapshot = none; recent_events = []; state = stopped };
      } in
          (s', ok (status_from_inner s')))
  finish_stop s (err e) = if s.is_poisoned then (s, err worker_stopped) else (
    record s {
      inner =
          note_error (record (s.inner) { snapshot = none; recent_events = []; state = failed }) e;
    },
    err e,
  )

  -- `stop`: `session.take()`, the session's own stop, and the last section.
  unfoldable pub stop :
      AccessibilityService S F
      → List (Event F)
      → (S → Result (Unit {0}) AccessibilityError)
      → AccessibilityService S F × Result (AccessibilityStatus F) AccessibilityError
  stop s during halt =
      if s.is_lifecycle_poisoned || s.is_poisoned
      then (s, err worker_stopped)
      else finish_stop
          (on_events display (record s { inner = record (s.inner) { session = none } }) during)
          (halt_session halt s.inner.session)

  -- `if let Some(mut session) = session && let Err(error) = session.stop()`
  abbrev pub note_failed_stop :
      AccessibilityService S F → Result (Unit {0}) AccessibilityError → AccessibilityService S F
  note_failed_stop s (ok _) = s
  note_failed_stop s (err e) = record s { inner = note_error s.inner e }

  -- The sections of `refresh_permission` after the one that may take the session.
  unfoldable pub finish_refresh :
      AccessibilityService S F
      → Result (Unit {0}) AccessibilityError
      → AccessibilityService S F × Result (AccessibilityStatus F) AccessibilityError
  finish_refresh s halted =
      if s.is_poisoned
      then (s, err worker_stopped)
      else (let s' = note_failed_stop s halted in (s', ok (status_from_inner s')))

  -- The `match session.execute(request)`, with the session that it leaves.
  unfoldable pub executed :
      AccessibilityService S F
      → S × Result AccessibilityActionResult AccessibilityError
      → AccessibilityService S F × Result AccessibilityActionResult AccessibilityError
  executed s (session, ok result) =
      (record s { inner = record (s.inner) { session = some session } }, ok result)
  executed s (session, err e) = (
    record s {
      inner = record (s.inner) {
        session = some session;
        last_error = some (diagnostic display e);
        permission = if is_not_trusted e then denied else s.inner.permission;
      };
    },
    err e,
  )

  -- The inner lock is held throughout, so every callback in between finds it busy.
  unfoldable pub execute :
      AccessibilityService S F
      → AccessibilityActionRequest
      → (S → AccessibilityActionRequest → S × Result AccessibilityActionResult AccessibilityError)
      → AccessibilityService S F × Result AccessibilityActionResult AccessibilityError
  execute s request act =
      if s.is_lifecycle_poisoned || s.is_poisoned
      then (s, err worker_stopped)
      else if not (same AccessibilityState-discrete s.inner.state running)
      then (s, err not_running)
      else elim s.inner.session [
        | none ↦ (s, err not_running)
        | some session ↦ executed s (act session request)
      ]

module _ {S F : Type 0} where
  unfoldable pub status :
      AccessibilityService S F → Result (AccessibilityStatus F) AccessibilityError
  status s = if s.is_poisoned then err worker_stopped else ok (status_from_inner s)

  -- `request_permission`, with what the backend answers; its `?` comes before the inner lock.
  unfoldable pub request_permission :
      AccessibilityService S F
      → Result PermissionState AccessibilityError
      → AccessibilityService S F × Result PermissionState AccessibilityError
  request_permission s (err e) = (s, err (if s.is_lifecycle_poisoned then worker_stopped else e))
  request_permission s (ok permission) =
      if s.is_lifecycle_poisoned || s.is_poisoned
      then (s, err worker_stopped)
      else (record s { inner = record (s.inner) { permission = permission } }, ok permission)

  -- Whether an answer to `refresh_permission` ends the observation.
  unfoldable pub is_revoked : ServiceInner S F → PermissionState → Bool
  is_revoked inner permission =
      not (same PermissionState-discrete permission granted)
      && same AccessibilityState-discrete inner.state running

  -- The section that keeps the backend's answer, with the session that it takes.
  unfoldable pub revoke : ServiceInner S F → PermissionState → ServiceInner S F × Option S
  revoke inner permission =
      if is_revoked inner permission
      then (
        record inner {
          permission = permission;
          state = failed;
          snapshot = none;
          recent_events = [];
          session = none;
        },
        inner.session,
      )
      else (record inner { permission = permission }, none)

  unfoldable pub refresh_permission :
      (AccessibilityError → Text)
      → AccessibilityService S F
      → Result PermissionState AccessibilityError
      → List (Event F)
      → (S → Result (Unit {0}) AccessibilityError)
      → AccessibilityService S F × Result (AccessibilityStatus F) AccessibilityError
  refresh_permission display s (err e) during halt =
      (s, err (if s.is_lifecycle_poisoned then worker_stopped else e))
  refresh_permission display s (ok permission) during halt =
      if s.is_lifecycle_poisoned || s.is_poisoned
      then (s, err worker_stopped)
      else (let (inner, session) = revoke s.inner permission in
          finish_refresh display (on_events display (record s { inner = inner }) during)
            (halt_session halt session))
