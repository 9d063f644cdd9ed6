-- ===== src/Accessibility/Service/Sessions.antt =====
-- Any sequence of calls and callbacks of crates/stalky-accessibility/src/service.rs.
use stalky.Prelude.Text.{Text}
use stalky.Prelude.{
  Bool, Bool-cases, Option-cases, subst, List, Result, [], ap, arith, err, false, inl, inr, length,
  none, ok, refl, same, true, ◌||◌, ◌∙◌, ◌∷◌, ◌≡◌, ◌≤◌,
}
use stalky.Permissions.{PermissionState}
use stalky.Accessibility.{AccessibilityActionRequest}
use stalky.Accessibility.Service.{
  AccessibilityError, AccessibilityService, AccessibilityState, AccessibilityState-discrete, Event,
  failed, max_recent_events, on_event, running, starting, stopped,
}
use stalky.Accessibility.Service.Untouched.{Agrees, on_event-Agrees, on_events-Agrees}
use stalky.Accessibility.Service.Calls.{
  AccessibilityActionResult, begin_start, execute, executed, finish_refresh, finish_start,
  finish_stop, halt_session, is_revoked, is_some, note_error, refresh_permission,
  request_permission, revoke, start, stop,
}

-- Between two calls there is a session exactly while the service runs, and none is starting.
abbrev pub Fits : AccessibilityState → Bool → Type 0
Fits stopped session = session ≡ false
Fits running session = session ≡ true
Fits failed session = session ≡ false
Fits starting session = ⊥

-- The calls with what the backend returns and the callbacks that come in between.
pub data Op (S F : Type 0) : Type 0 where
  starts : List (Event F) → Result S AccessibilityError → Op S F
  stops : List (Event F) → (S → Result (Unit {0}) AccessibilityError) → Op S F
  requests : Result PermissionState AccessibilityError → Op S F
  refreshes :
      Result PermissionState AccessibilityError
      → List (Event F)
      → (S → Result (Unit {0}) AccessibilityError)
      → Op S F
  executes :
      AccessibilityActionRequest
      → (S → AccessibilityActionRequest → S × Result AccessibilityActionResult AccessibilityError)
      → Op S F
  happens : Event F → Op S F

module _ {S F : Type 0} where
  pub record IsSettled (s : AccessibilityService S F) : Type 0 where
    pub fits : Fits s.inner.state (is_some s.inner.session)
    pub recent_bounded : length s.inner.recent_events ≤ max_recent_events

  Agrees-IsSettled : (s s' : AccessibilityService S F) → Agrees s s' → IsSettled s → IsSettled s'
  Agrees-IsSettled s s' a k = record {
    fits = rw (a.state_kept, a.session_kept) k.fits;
    recent_bounded = a.bound_kept k.recent_bounded;
  }

  module _ (display : AccessibilityError → Text) where
    unfoldable pub run_op : AccessibilityService S F → Op S F → AccessibilityService S F
    run_op s (starts during started) = (start display s during started).0
    run_op s (stops during halt) = (stop display s during halt).0
    run_op s (requests answer) = (request_permission s answer).0
    run_op s (refreshes answer during halt) = (refresh_permission display s answer during halt).0
    run_op s (executes request act) = (execute display s request act).0
    run_op s (happens e) = on_event display s e

    unfoldable pub run_all : AccessibilityService S F → List (Op S F) → AccessibilityService S F
    run_all s [] = s
    run_all s (o ∷ os) = run_all (run_op s o) os

    finish_start-IsSettled :
        (s : AccessibilityService S F) (r : Result S AccessibilityError)
        → s.is_poisoned ≡ false
        → is_some s.inner.session ≡ false
        → length s.inner.recent_events ≤ max_recent_events
        → IsSettled (finish_start display s r).0
    unfolding finish_start note_error
    finish_start-IsSettled s (ok session) p a b = rw p (record { fits = refl; recent_bounded = b })
    finish_start-IsSettled s (err e) p a b = rw p (record { fits = a; recent_bounded = b })

    start-IsSettled :
        (s : AccessibilityService S F) (during : List (Event F)) (r : Result S AccessibilityError)
        → IsSettled s
        → IsSettled (start display s during r).0
    unfolding start begin_start
    start-IsSettled s during r k = elim (Bool-cases (s.is_lifecycle_poisoned || s.is_poisoned)) [
      | inl t ↦ simp (t, start, begin_start) k
      | inr t ↦
          elim (Bool-cases
            (is_some s.inner.session || same AccessibilityState-discrete s.inner.state running)) [
              | inl u ↦ simp (t, u, start, begin_start) k
              | inr u ↦
                  let s' : AccessibilityService S F = record s {
                    inner = record (s.inner) { state = starting; last_error = none };
                  } in
                  let a = on_events-Agrees display during s' in
                  simp (t, u, start, begin_start)
                    (finish_start-IsSettled _ r (a.poison_kept ∙ ground arith)
                      (ap is_some a.session_kept ∙ ground arith) (a.bound_kept k.recent_bounded))
            ]
    ]

    finish_stop-IsSettled :
        (s : AccessibilityService S F) (r : Result (Unit {0}) AccessibilityError)
        → s.is_poisoned ≡ false
        → is_some s.inner.session ≡ false
        → IsSettled (finish_stop display s r).0
    unfolding finish_stop note_error
    finish_stop-IsSettled s (ok u) p a = rw p (record { fits = a; recent_bounded = omega arith })
    finish_stop-IsSettled s (err e) p a = rw p (record { fits = a; recent_bounded = omega arith })

    stop-IsSettled :
        (s : AccessibilityService S F) (during : List (Event F))
        (halt : S → Result (Unit {0}) AccessibilityError)
        → IsSettled s
        → IsSettled (stop display s during halt).0
    unfolding stop
    stop-IsSettled s during halt k = elim (Bool-cases (s.is_lifecycle_poisoned || s.is_poisoned)) [
      | inl t ↦ simp (t, stop) k
      | inr t ↦
          let s' : AccessibilityService S F = record s {
            inner = record (s.inner) { session = none };
          } in
          let a = on_events-Agrees display during s' in
          simp (t, stop)
            (finish_stop-IsSettled _ (halt_session halt s.inner.session)
              (a.poison_kept ∙ ground arith) (ap is_some a.session_kept))
    ]

    request-IsSettled :
        (s : AccessibilityService S F) (answer : Result PermissionState AccessibilityError)
        → IsSettled s
        → IsSettled (request_permission s answer).0
    unfolding request_permission
    request-IsSettled s (err e) k = k
    request-IsSettled s (ok permission) k =
        elim (Bool-cases (s.is_lifecycle_poisoned || s.is_poisoned)) [
          | inl t ↦ simp (t, request_permission) k
          | inr t ↦
              simp (t, request_permission)
                (record { fits = k.fits; recent_bounded = k.recent_bounded })
        ]

    finish_refresh-IsSettled :
        (s : AccessibilityService S F) (r : Result (Unit {0}) AccessibilityError)
        → IsSettled s
        → IsSettled (finish_refresh display s r).0
    unfolding finish_refresh note_error
    finish_refresh-IsSettled s (ok u) k = elim (Bool-cases s.is_poisoned) [
      | inl t ↦ simp (t, finish_refresh) k
      | inr t ↦ simp (t, finish_refresh) k
    ]
    finish_refresh-IsSettled s (err e) k = elim (Bool-cases s.is_poisoned) [
      | inl t ↦ simp (t, finish_refresh) k
      | inr t ↦
          simp (t, finish_refresh) (record { fits = k.fits; recent_bounded = k.recent_bounded })
    ]

    revoke-IsSettled :
        (s : AccessibilityService S F) (permission : PermissionState)
        → IsSettled s
        → IsSettled (record s { inner = (revoke s.inner permission).0 })
    unfolding revoke
    revoke-IsSettled s permission k = elim (Bool-cases (is_revoked s.inner permission)) [
      | inl t ↦ simp (t, revoke) (record { fits = refl; recent_bounded = omega arith })
      | inr t ↦ simp (t, revoke) (record { fits = k.fits; recent_bounded = k.recent_bounded })
    ]

    refresh-IsSettled :
        (s : AccessibilityService S F) (answer : Result PermissionState AccessibilityError)
        (during : List (Event F)) (halt : S → Result (Unit {0}) AccessibilityError)
        → IsSettled s
        → IsSettled (refresh_permission display s answer during halt).0
    unfolding refresh_permission
    refresh-IsSettled s (err e) during halt k = k
    refresh-IsSettled s (ok permission) during halt k =
        elim (Bool-cases (s.is_lifecycle_poisoned || s.is_poisoned)) [
          | inl t ↦ simp (t, refresh_permission) k
          | inr t ↦
              let s' : AccessibilityService S F = record s {
                inner = (revoke s.inner permission).0;
              } in
              simp (t, refresh_permission)
                (finish_refresh-IsSettled _ _ (
                  Agrees-IsSettled s' _ (on_events-Agrees display during s')
                    (revoke-IsSettled s permission k)))
        ]

    executed-IsSettled :
        (s : AccessibilityService S F) (p : S × Result AccessibilityActionResult AccessibilityError)
        → is_some s.inner.session ≡ true
        → IsSettled s
        → IsSettled (executed display s p).0
    unfolding executed
    executed-IsSettled s (session, ok result) e k = record {
      fits = subst (Fits s.inner.state) e k.fits;
      recent_bounded = k.recent_bounded;
    }
    executed-IsSettled s (session, err f) e k = record {
      fits = subst (Fits s.inner.state) e k.fits;
      recent_bounded = k.recent_bounded;
    }

    execute-IsSettled :
        (s : AccessibilityService S F) (request : AccessibilityActionRequest)
        (act : S
          → AccessibilityActionRequest
          → S × Result AccessibilityActionResult AccessibilityError)
        → IsSettled s
        → IsSettled (execute display s request act).0
    unfolding execute
    execute-IsSettled s request act k =
        elim (Bool-cases (s.is_lifecycle_poisoned || s.is_poisoned)) [
          | inl t ↦ simp (t, execute) k
          | inr t ↦ elim (Bool-cases (same AccessibilityState-discrete s.inner.state running)) [
            | inr u ↦ simp (t, u, execute) k
            | inl u ↦ elim (Option-cases s.inner.session) [
              | inl e ↦ simp (t, u, e, execute) k
              | inr (session, e) ↦
                  simp (t, u, e, execute)
                    (executed-IsSettled s (act session request) (ap is_some e) k)
            ]
          ]
        ]

    run_op-IsSettled :
        (o : Op S F) (s : AccessibilityService S F) → IsSettled s → IsSettled (run_op s o)
    unfolding run_op
    run_op-IsSettled (starts during r) s k = start-IsSettled s during r k
    run_op-IsSettled (stops during halt) s k = stop-IsSettled s during halt k
    run_op-IsSettled (requests answer) s k = request-IsSettled s answer k
    run_op-IsSettled (refreshes answer during halt) s k = refresh-IsSettled s answer during halt k
    run_op-IsSettled (executes request act) s k = execute-IsSettled s request act k
    run_op-IsSettled (happens e) s k = Agrees-IsSettled s _ (on_event-Agrees display s e) k

    -- Whatever calls and callbacks a service sees, and whatever the backend and its sessions return:
    -- a service that is settled is settled after them. It is stopped, running or failed, and has a
    -- session exactly when it is running; and it has at most a hundred recent events.
    pub run_all-settles :
        (os : List (Op S F)) (s : AccessibilityService S F) → IsSettled s → IsSettled (run_all s os)
    unfolding run_all
    run_all-settles [] s k = k
    run_all-settles (o ∷ os) s k = run_all-settles os (run_op s o) (run_op-IsSettled o s k)
