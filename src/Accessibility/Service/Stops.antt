-- ===== src/Accessibility/Service/Stops.antt =====
-- What a stop leaves in the service of
-- crates/stalky-accessibility/src/service.rs.
use stalky.Prelude.Text.{Text}
use stalky.Prelude.{List, Result, [], arith, err, false, none, ok, refl, ◌||◌, ◌∙◌, ◌≡◌}
use stalky.Accessibility.Service.{
  AccessibilityError, AccessibilityService, AccessibilityStatus, Event, failed, status_from_inner,
  stopped,
}
use stalky.Accessibility.Service.Untouched.{on_events-Agrees}
use stalky.Accessibility.Service.Calls.{finish_stop, halt_session, note_error, stop}

module _ {S F : Type 0} where
  -- What a stop says, and the state that it says it of.
  abbrev pub Tells :
      Result (Unit {0}) AccessibilityError
      → AccessibilityService S F × Result (AccessibilityStatus F) AccessibilityError
      → Type 0
  Tells (ok _) (s, r) = (s.inner.state ≡ stopped) × (r ≡ ok (status_from_inner s))
  Tells (err e) (s, r) = (s.inner.state ≡ failed) × (r ≡ err e)

  -- The service after a stop, with its result and that of the session's own stop.
  pub record LeavesNothing (halted : Result (Unit {0}) AccessibilityError)
      (p : AccessibilityService S F × Result (AccessibilityStatus F) AccessibilityError)
      : Type 0 where
    pub no_session : p.0.inner.session ≡ none
    pub no_snapshot : p.0.inner.snapshot ≡ none
    pub no_events : p.0.inner.recent_events ≡ []
    pub state_told : Tells halted p

  module _ (display : AccessibilityError → Text) where
    finish_stop-LeavesNothing :
        (s : AccessibilityService S F) (halted : Result (Unit {0}) AccessibilityError)
        → s.is_poisoned ≡ false
        → s.inner.session ≡ none
        → LeavesNothing halted (finish_stop display s halted)
    unfolding finish_stop note_error
    finish_stop-LeavesNothing s (ok u) p e =
        rw p (record {
          no_session = e;
          no_snapshot = refl;
          no_events = refl;
          state_told = (refl, refl);
        })
    finish_stop-LeavesNothing s (err f) p e =
        rw p (record {
          no_session = e;
          no_snapshot = refl;
          no_events = refl;
          state_told = (refl, refl);
        })

    -- A stop of a service with its locks unpoisoned leaves no session, snapshot or recent event,
    -- whatever state it was in, whatever callbacks come while the session stops and whether that
    -- succeeds. If it does, the service is stopped and its status is returned; else it has failed,
    -- and the session's error is returned.
    pub stop-leaves :
        (s : AccessibilityService S F) (during : List (Event F))
        (halt : S → Result (Unit {0}) AccessibilityError)
        → s.is_lifecycle_poisoned ≡ false
        → s.is_poisoned ≡ false
        → LeavesNothing (halt_session halt s.inner.session) (stop display s during halt)
    unfolding stop
    stop-leaves s during halt l p =
        let s' : AccessibilityService S F = record s {
          inner = record (s.inner) { session = none };
        } in
        let a = on_events-Agrees display during s' in
        let t : (s.is_lifecycle_poisoned || s.is_poisoned) ≡ false = ground arith in
        simp (t, stop)
          (finish_stop-LeavesNothing _ (halt_session halt s.inner.session) (a.poison_kept ∙ p)
            a.session_kept)
