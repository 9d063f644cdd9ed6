-- ===== src/Accessibility/Service/Untouched.antt =====
-- What the callbacks leave alone in the service of crates/stalky-accessibility/src/service.rs.
use stalky.Prelude.Text.{Text}
use stalky.Prelude.{Bool-cases, List, [], inl, inr, length, refl, ◌∙◌, ◌∷◌, ◌≡◌, ◌≤◌}
use stalky.Accessibility.Service.{
  CallbackMetrics, AccessibilityError, AccessibilityService, Event, Lock, ServiceInner, busy, errs,
  finds_stale, finds_unsupported, free, max_recent_events, on_event, on_events, publishes,
  push_event, records, with_inner,
}
use stalky.Accessibility.Service.Recent.{push_event-bounded}

module _ {S F : Type 0} where
  -- What no callback touches; and the ring stays within its bound.
  pub record Agrees (s s' : AccessibilityService S F) : Type 0 where
    pub state_kept : s'.inner.state ≡ s.inner.state
    pub session_kept : s'.inner.session ≡ s.inner.session
    pub permission_kept : s'.inner.permission ≡ s.inner.permission
    pub poison_kept : s'.is_poisoned ≡ s.is_poisoned
    pub lifecycle_kept : s'.is_lifecycle_poisoned ≡ s.is_lifecycle_poisoned
    pub bound_kept :
        length s.inner.recent_events ≤ max_recent_events
        → length s'.inner.recent_events ≤ max_recent_events

  abbrev KeepsShape : (ServiceInner S F → ServiceInner S F) → ServiceInner S F → Type 0
  KeepsShape update inner =
      ((update inner).state ≡ inner.state)
      × ((update inner).session ≡ inner.session)
      × ((update inner).permission ≡ inner.permission)
      × (length inner.recent_events ≤ max_recent_events
          → length (update inner).recent_events ≤ max_recent_events)

  with_inner-Agrees :
      (s : AccessibilityService S F) (lock : Lock) (update : ServiceInner S F → ServiceInner S F)
      → KeepsShape update s.inner
      → Agrees s (with_inner s lock update)
  unfolding with_inner
  with_inner-Agrees s busy update k = record {
    state_kept = refl;
    session_kept = refl;
    permission_kept = refl;
    poison_kept = refl;
    lifecycle_kept = refl;
    bound_kept = λ h. h;
  }
  with_inner-Agrees s free update k = elim (Bool-cases s.is_poisoned) [
    | inl t ↦ rw t (record {
      state_kept = refl;
      session_kept = refl;
      permission_kept = refl;
      poison_kept = refl;
      lifecycle_kept = refl;
      bound_kept = λ h. h;
    })
    | inr t ↦ rw t (record {
      state_kept = k.0;
      session_kept = k.1;
      permission_kept = k.2;
      poison_kept = refl;
      lifecycle_kept = refl;
      bound_kept = k.3;
    })
  ]

  -- A callback that changes a counter first.
  counted-Agrees :
      (s s' : AccessibilityService S F) (c : CallbackMetrics)
      → Agrees (record s { callback_metrics = c }) s'
      → Agrees s s'
  counted-Agrees s s' c a = record {
    state_kept = a.state_kept;
    session_kept = a.session_kept;
    permission_kept = a.permission_kept;
    poison_kept = a.poison_kept;
    lifecycle_kept = a.lifecycle_kept;
    bound_kept = a.bound_kept;
  }

  refl-Agrees : (s : AccessibilityService S F) → Agrees s s
  refl-Agrees s = record {
    state_kept = refl;
    session_kept = refl;
    permission_kept = refl;
    poison_kept = refl;
    lifecycle_kept = refl;
    bound_kept = λ h. h;
  }

  trans-Agrees : (s t u : AccessibilityService S F) → Agrees s t → Agrees t u → Agrees s u
  trans-Agrees s t u a b = record {
    state_kept = b.state_kept ∙ a.state_kept;
    session_kept = b.session_kept ∙ a.session_kept;
    permission_kept = b.permission_kept ∙ a.permission_kept;
    poison_kept = b.poison_kept ∙ a.poison_kept;
    lifecycle_kept = b.lifecycle_kept ∙ a.lifecycle_kept;
    bound_kept = λ h. b.bound_kept (a.bound_kept h);
  }

  module _ (display : AccessibilityError → Text) where
    pub on_event-Agrees :
        (s : AccessibilityService S F) (e : Event F) → Agrees s (on_event display s e)
    unfolding on_event push_event
    on_event-Agrees s (publishes lock snapshot) =
        with_inner-Agrees s lock _ (refl, refl, refl, λ h. h)
    on_event-Agrees s (records lock kind element now) = counted-Agrees s _ _ (
        with_inner-Agrees _ lock (push_event kind element now)
          (refl, refl, refl, push_event-bounded kind element now s.inner))
    on_event-Agrees s (errs lock e) =
        counted-Agrees s _ _ (with_inner-Agrees _ lock _ (refl, refl, refl, λ h. h))
    on_event-Agrees s finds_stale = counted-Agrees s _ _ (refl-Agrees _)
    on_event-Agrees s finds_unsupported = counted-Agrees s _ _ (refl-Agrees _)

    pub on_events-Agrees :
        (es : List (Event F)) (s : AccessibilityService S F) → Agrees s (on_events display s es)
    unfolding on_events
    on_events-Agrees [] s = refl-Agrees s
    on_events-Agrees (e ∷ es) s =
        trans-Agrees s _ _ (on_event-Agrees s e) (on_events-Agrees es (on_event display s e))
