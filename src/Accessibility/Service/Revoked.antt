-- ===== src/Accessibility/Service/Revoked.antt =====
-- A permission that is found revoked while the service observes, in
-- crates/stalky-accessibility/src/service.rs.
use stalky.Prelude.Text.{Text}
use stalky.Prelude.{
  All, List, Option, Result, [], ap, false, none, ok, refl, same, some, ◌∙◌, ◌∷◌, ◌≡◌,
}
use stalky.Permissions.{PermissionState, PermissionState-discrete, granted}
use stalky.Accessibility.{AccessibilityActionRequest}
use stalky.Accessibility.Service.{
  AccessibilityError, AccessibilityService, AccessibilitySnapshot, AccessibilityState-discrete,
  Event, failed, free, busy, records, errs, finds_stale, finds_unsupported, push_event, on_event,
  on_events, publishes, running, status_from_inner, with_inner,
}
use stalky.Accessibility.Service.Untouched.{on_event-Agrees, on_events-Agrees}
use stalky.Accessibility.Service.Calls.{
  AccessibilityActionResult, execute, finish_refresh, halt_session, is_revoked, refresh_permission,
  revoke,
}
use stalky.Accessibility.Service.Sessions.{Op, run_all}
use stalky.Accessibility.Service.Idle.{
  IsNoStart, Refuses, execute-idle, finish_refresh-IsRefreshed, run_all-idle,
}

-- The snapshot that is shown after some callbacks: the last one that was published under the lock, or
-- else the one before.
abbrev pub last_published :
    {F : Type 0}
    → Option (AccessibilitySnapshot F)
    → List (Event F)
    → Option (AccessibilitySnapshot F)
last_published shown [] = shown
last_published shown (publishes free late ∷ es) = last_published (some late) es
last_published shown (publishes busy late ∷ es) = last_published shown es
last_published shown (records lock kind element now ∷ es) = last_published shown es
last_published shown (errs lock e ∷ es) = last_published shown es
last_published shown (finds_stale ∷ es) = last_published shown es
last_published shown (finds_unsupported ∷ es) = last_published shown es

last_published-step :
    {F : Type 0} (shown : Option (AccessibilitySnapshot F)) (e : Event F) (es : List (Event F))
    → last_published (last_published shown (e ∷ [])) es ≡ last_published shown (e ∷ es)
last_published-step shown (publishes free late) es = refl
last_published-step shown (publishes busy late) es = refl
last_published-step shown (records lock kind element now) es = refl
last_published-step shown (errs lock e) es = refl
last_published-step shown finds_stale es = refl
last_published-step shown finds_unsupported es = refl

module _ {S F : Type 0} where
  module _ (display : AccessibilityError → Text) where
    -- The service as it is when the session is to be stopped.
    abbrev revoked : AccessibilityService S F → PermissionState → AccessibilityService S F
    revoked s permission = record s {
      inner = record (s.inner) {
        permission = permission;
        state = failed;
        snapshot = none;
        recent_events = [];
        session = none;
      };
    }

    refresh-revoked :
        (s : AccessibilityService S F) (permission : PermissionState) (during : List (Event F))
        (halt : S → Result (Unit {0}) AccessibilityError)
        → s.is_lifecycle_poisoned ≡ false
        → s.is_poisoned ≡ false
        → s.inner.state ≡ running
        → same PermissionState-discrete permission granted ≡ false
        → refresh_permission display s (ok permission) during halt
          ≡ finish_refresh display
              (on_events display (revoked s permission) during)
              (halt_session halt s.inner.session)
    unfolding refresh_permission revoke is_revoked AccessibilityState-discrete
    refresh-revoked s permission during halt l p r g = simp (l, p, r, g, refresh_permission, revoke)

    on_event-snapshot :
        (s : AccessibilityService S F) (e : Event F)
        → s.is_poisoned ≡ false
        → (on_event display s e).inner.snapshot ≡ last_published s.inner.snapshot (e ∷ [])
    unfolding on_event with_inner push_event
    on_event-snapshot s (publishes free late) p = rw p refl
    on_event-snapshot s (publishes busy late) p = refl
    on_event-snapshot s (records free kind element now) p = rw p refl
    on_event-snapshot s (records busy kind element now) p = refl
    on_event-snapshot s (errs free e) p = rw p refl
    on_event-snapshot s (errs busy e) p = refl
    on_event-snapshot s finds_stale p = refl
    on_event-snapshot s finds_unsupported p = refl

    on_events-snapshot :
        (es : List (Event F)) (s : AccessibilityService S F)
        → s.is_poisoned ≡ false
        → (on_events display s es).inner.snapshot ≡ last_published s.inner.snapshot es
    unfolding on_events
    on_events-snapshot [] s p = refl
    on_events-snapshot (e ∷ es) s p =
        on_events-snapshot es (on_event display s e) ((on_event-Agrees display s e).poison_kept ∙ p)
        ∙ ap (λ x. last_published x es) (on_event-snapshot s e p)
        ∙ last_published-step s.inner.snapshot e es

    -- A running service with its locks unpoisoned that finds its permission not granted fails, gives
    -- up its session and forgets the snapshot it had. If callbacks publish snapshots while the
    -- session stops, then the last one that got the lock is kept, and the returned status shows it.
    pub revoked-snapshot :
        (s : AccessibilityService S F) (permission : PermissionState) (during : List (Event F))
        (halt : S → Result (Unit {0}) AccessibilityError)
        → s.is_lifecycle_poisoned ≡ false
        → s.is_poisoned ≡ false
        → s.inner.state ≡ running
        → same PermissionState-discrete permission granted ≡ false
        → let p = refresh_permission display s (ok permission) during halt in
          (p.0.inner.state ≡ failed)
          × (p.0.inner.session ≡ none)
          × (p.0.inner.snapshot ≡ last_published none during)
          × (p.1 ≡ ok (status_from_inner p.0))
    revoked-snapshot s permission during halt l p r g =
        let s' = on_events display (revoked s permission) during in
        let a = on_events-Agrees display during (revoked s permission) in
        let k =
          finish_refresh-IsRefreshed display s' (halt_session halt s.inner.session)
            (a.poison_kept ∙ p) in
        rw (refresh-revoked s permission during halt l p r g) (
          k.same_state ∙ a.state_kept,
          k.same_session ∙ a.session_kept,
          k.same_snapshot ∙ on_events-snapshot during (revoked s permission) p,
          k.status_told,
        )

    -- After a running service with its locks unpoisoned has found its permission not granted, every
    -- action is refused and changes nothing, the backend's session not being asked, whatever calls
    -- but starts and whatever callbacks come before it.
    pub revoked_until_start :
        (s : AccessibilityService S F) (permission : PermissionState) (during : List (Event F))
        (halt : S → Result (Unit {0}) AccessibilityError) (os : List (Op S F))
        (request : AccessibilityActionRequest)
        (act : S
          → AccessibilityActionRequest
          → S × Result AccessibilityActionResult AccessibilityError)
        → s.is_lifecycle_poisoned ≡ false
        → s.is_poisoned ≡ false
        → s.inner.state ≡ running
        → same PermissionState-discrete permission granted ≡ false
        → All IsNoStart os
        → let s' =
            run_all display (refresh_permission display s (ok permission) during halt).0 os in
          Refuses s' (execute display s' request act)
    unfolding AccessibilityState-discrete
    revoked_until_start s permission during halt os request act l p r g n =
        let s' = on_events display (revoked s permission) during in
        let a = on_events-Agrees display during (revoked s permission) in
        let k =
          finish_refresh-IsRefreshed display s' (halt_session halt s.inner.session)
            (a.poison_kept ∙ p) in
        let e = refresh-revoked s permission during halt l p r g in
        execute-idle display _ request act
          (run_all-idle display os _ n (rw e (rw (k.same_state ∙ a.state_kept) refl)))
