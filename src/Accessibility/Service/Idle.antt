-- ===== src/Accessibility/Service/Idle.antt =====
-- A service of crates/stalky-accessibility/src/service.rs that does not run: no call but a start makes
-- it run, and it refuses every action.
use stalky.Prelude.Text.{Text}
use stalky.Prelude.{
  All, ◌⊎◌, Bool, Bool-cases, List, Result, [], ap, arith, err, false, inl, inr, ok, refl, same,
  ◌||◌, ◌∙◌, ◌∷◌, ◌≡◌,
}
use stalky.Permissions.{PermissionState}
use stalky.Accessibility.{AccessibilityActionRequest}
use stalky.Accessibility.Service.{
  AccessibilityError, AccessibilityService, AccessibilityState-discrete, AccessibilityStatus, Event,
  not_running, on_events, worker_stopped, running, status_from_inner,
}
use stalky.Accessibility.Service.Untouched.{on_event-Agrees, on_events-Agrees}
use stalky.Accessibility.Service.Calls.{
  AccessibilityActionResult, execute, finish_refresh, halt_session, is_revoked, note_error,
  refresh_permission, request_permission, revoke, stop,
}
use stalky.Accessibility.Service.Sessions.{
  Op, executes, happens, refreshes, requests, run_all, run_op, starts, stops,
}
use stalky.Accessibility.Service.Stops.{Tells, stop-leaves}

module _ {S F : Type 0} where
  -- Whether a call is no start.
  abbrev pub IsNoStart : Op S F → Type 0
  IsNoStart (starts during r) = ⊥
  IsNoStart (stops during halt) = Unit
  IsNoStart (requests answer) = Unit
  IsNoStart (refreshes answer during halt) = Unit
  IsNoStart (executes request act) = Unit
  IsNoStart (happens e) = Unit

  abbrev pub is_running : AccessibilityService S F → Bool
  is_running s = same AccessibilityState-discrete s.inner.state running

  -- What a service that does not run answers to an action.
  abbrev pub Refuses :
      AccessibilityService S F
      → AccessibilityService S F × Result AccessibilityActionResult AccessibilityError
      → Type 0
  Refuses s p = (p.0 ≡ s) × ((p.1 ≡ err not_running) ⊎ (p.1 ≡ err worker_stopped))

  module _ (display : AccessibilityError → Text) where
    -- What the last sections of `refresh_permission` keep.
    pub record IsRefreshed (s : AccessibilityService S F)
        (p : AccessibilityService S F × Result (AccessibilityStatus F) AccessibilityError)
        : Type 0 where
      pub same_state : p.0.inner.state ≡ s.inner.state
      pub same_session : p.0.inner.session ≡ s.inner.session
      pub same_snapshot : p.0.inner.snapshot ≡ s.inner.snapshot
      pub status_told : p.1 ≡ ok (status_from_inner p.0)

    pub finish_refresh-IsRefreshed :
        (s : AccessibilityService S F) (halted : Result (Unit {0}) AccessibilityError)
        → s.is_poisoned ≡ false
        → IsRefreshed s (finish_refresh display s halted)
    unfolding finish_refresh note_error
    finish_refresh-IsRefreshed s (ok u) p =
        simp (p, finish_refresh)
          (record {
            same_state = refl;
            same_session = refl;
            same_snapshot = refl;
            status_told = refl;
          })
    finish_refresh-IsRefreshed s (err e) p =
        simp (p, finish_refresh)
          (record {
            same_state = refl;
            same_session = refl;
            same_snapshot = refl;
            status_told = refl;
          })

    Tells-idle :
        (halted : Result (Unit {0}) AccessibilityError)
        (p : AccessibilityService S F × Result (AccessibilityStatus F) AccessibilityError)
        → Tells halted p
        → is_running p.0 ≡ false
    unfolding AccessibilityState-discrete
    Tells-idle (ok u) (s, r) t = rw (t.0) refl
    Tells-idle (err e) (s, r) t = rw (t.0) refl

    stop-idle :
        (s : AccessibilityService S F) (during : List (Event F))
        (halt : S → Result (Unit {0}) AccessibilityError)
        → is_running s ≡ false
        → is_running (stop display s during halt).0 ≡ false
    unfolding stop
    stop-idle s during halt h = elim (Bool-cases (s.is_lifecycle_poisoned || s.is_poisoned)) [
      | inl t ↦ simp (t, stop) h
      | inr t ↦
          Tells-idle (halt_session halt s.inner.session) (stop display s during halt)
            (stop-leaves display s during halt (ground arith) (ground arith)).state_told
    ]

    revoke-idle :
        (s : AccessibilityService S F) (permission : PermissionState)
        → is_running s ≡ false
        → same AccessibilityState-discrete (revoke s.inner permission).0.state running ≡ false
    unfolding revoke AccessibilityState-discrete
    revoke-idle s permission h = elim (Bool-cases (is_revoked s.inner permission)) [
      | inl t ↦ simp (t, revoke)
      | inr t ↦ simp (t, revoke) h
    ]

    refresh-idle :
        (s : AccessibilityService S F) (answer : Result PermissionState AccessibilityError)
        (during : List (Event F)) (halt : S → Result (Unit {0}) AccessibilityError)
        → is_running s ≡ false
        → is_running (refresh_permission display s answer during halt).0 ≡ false
    unfolding refresh_permission
    refresh-idle s (err e) during halt h = h
    refresh-idle s (ok permission) during halt h =
        elim (Bool-cases (s.is_lifecycle_poisoned || s.is_poisoned)) [
          | inl t ↦ simp (t, refresh_permission) h
          | inr t ↦
              let s' : AccessibilityService S F = record s {
                inner = (revoke s.inner permission).0;
              } in
              let a = on_events-Agrees display during s' in
              let k =
                finish_refresh-IsRefreshed (on_events display s' during)
                  (halt_session halt (revoke s.inner permission).1)
                  (a.poison_kept ∙ ground arith) in
              simp (t, refresh_permission)
                (rw (k.same_state ∙ a.state_kept) (revoke-idle s permission h))
        ]

    request-idle :
        (s : AccessibilityService S F) (answer : Result PermissionState AccessibilityError)
        → is_running s ≡ false
        → is_running (request_permission s answer).0 ≡ false
    unfolding request_permission
    request-idle s (err e) h = h
    request-idle s (ok permission) h =
        elim (Bool-cases (s.is_lifecycle_poisoned || s.is_poisoned)) [
          | inl t ↦ simp (t, request_permission) h
          | inr t ↦ simp (t, request_permission) h
        ]

    pub execute-idle :
        (s : AccessibilityService S F) (request : AccessibilityActionRequest)
        (act : S
          → AccessibilityActionRequest
          → S × Result AccessibilityActionResult AccessibilityError)
        → is_running s ≡ false
        → Refuses s (execute display s request act)
    unfolding execute
    execute-idle s request act h = elim (Bool-cases (s.is_lifecycle_poisoned || s.is_poisoned)) [
      | inl t ↦ simp (t, execute) (refl, inr refl)
      | inr t ↦ simp (t, h, execute) (refl, inl refl)
    ]

    run_op-idle :
        (o : Op S F) (s : AccessibilityService S F)
        → IsNoStart o
        → is_running s ≡ false
        → is_running (run_op display s o) ≡ false
    unfolding run_op
    run_op-idle (starts during r) s n h = absurd n
    run_op-idle (stops during halt) s n h = stop-idle s during halt h
    run_op-idle (requests answer) s n h = request-idle s answer h
    run_op-idle (refreshes answer during halt) s n h = refresh-idle s answer during halt h
    run_op-idle (executes request act) s n h =
        ap (λ st. is_running st) (execute-idle s request act h).0 ∙ h
    run_op-idle (happens e) s n h =
        ap (λ st. same AccessibilityState-discrete st running)
          (on_event-Agrees display s e).state_kept
        ∙ h

    pub run_all-idle :
        (os : List (Op S F)) (s : AccessibilityService S F)
        → All IsNoStart os
        → is_running s ≡ false
        → is_running (run_all display s os) ≡ false
    unfolding run_all
    run_all-idle [] s n h = h
    run_all-idle (o ∷ os) s n h = run_all-idle os (run_op display s o) n.1 (run_op-idle o s n.0 h)
