-- ===== src/Accessibility/Service/Recent.antt =====
-- The ring of recent events of crates/stalky-accessibility/src/service.rs holds the newest ones.
use stalky.Prelude.Text.{Text}
use stalky.Prelude.Words.{saturating_add, wrapping_add}
use stalky.Prelude.{
  List, Option, [], append-nil, append_assoc, arith, drop, false, if◌then◌else◌, length,
  length-append, length-newest_le, newest, newest-short, newest-snoc, refl, ◌++◌, ◌==◌, ◌∙◌, ◌∷◌,
  ◌≡◌, ◌≤◌, ◌<◌, ℕ, ap, sym,
}
use mathlib.Core.Path.{◌≡⟨◌⟩◌, ◌∎}
use stalky.Accessibility.{AccessibilityElementId}
use stalky.Accessibility.Service.{
  AccessibilityError, AccessibilityEvent, AccessibilityEventKind, AccessibilityService, Event,
  ServiceInner, busy, errs, finds_stale, finds_unsupported, free, max_recent_events, on_event,
  on_events, publishes, push_event, records, with_inner,
}

-- What a full ring loses its oldest element for is the list of the newest ones.
pub push-newest :
    {A : Type 0} (n : ℕ) (xs : List A) (x : A)
    → 0 < n
    → length xs ≤ n
    → (if length xs == n then drop 1 xs else xs) ++ x ∷ [] ≡ newest n (xs ++ x ∷ [])
push-newest n [] x p h = ground arith
push-newest n (y ∷ ys) x p h = ground (
  arith,
  newest-short n (ys ++ x ∷ []),
  newest-short n (y ∷ ys ++ x ∷ []),
  length-append ys (x ∷ []),
)

newest-bounded : {A : Type 0} (n : ℕ) (xs ys : List A) → xs ≡ newest n ys → length xs ≤ n
newest-bounded n xs ys e = rw e (length-newest_le n ys)

-- The records of the callbacks that find the lock free, numbered on from `sequence`.
pub recorded : {F : Type 0} → ℕ → List (Event F) → List AccessibilityEvent
recorded sequence [] = []
recorded sequence (records free kind element now ∷ es) =
    let next = saturating_add sequence 1 in
    record { sequence = next; kind = kind; element = element; observed_at_millis = now }
    ∷ recorded next es
recorded sequence (e ∷ es) = recorded sequence es

module _ {S F : Type 0} where
  pub push_event-newest :
      (kind : AccessibilityEventKind) (element : Option AccessibilityElementId) (now : ℕ)
      (inner : ServiceInner S F)
      → length inner.recent_events ≤ max_recent_events
      → (push_event kind element now inner).recent_events
        ≡ newest max_recent_events (
            inner.recent_events
            ++ record {
              sequence = saturating_add inner.sequence 1;
              kind = kind;
              element = element;
              observed_at_millis = now;
            }
              ∷ [])
  unfolding push_event
  push_event-newest kind element now inner h =
      push-newest max_recent_events inner.recent_events _ (omega arith) h

module _ {S F : Type 0} where
  pub push_event-bounded :
      (kind : AccessibilityEventKind) (element : Option AccessibilityElementId) (now : ℕ)
      (inner : ServiceInner S F)
      → length inner.recent_events ≤ max_recent_events
      → length (push_event kind element now inner).recent_events ≤ max_recent_events
  push_event-bounded kind element now inner h =
      newest-bounded max_recent_events _
        (inner.recent_events
          ++ record {
            sequence = saturating_add inner.sequence 1;
            kind = kind;
            element = element;
            observed_at_millis = now;
          }
            ∷ [])
        (push_event-newest kind element now inner h)

newest-append :
    {A : Type 0} (n : ℕ) (ys xs : List A) → newest n (newest n xs ++ ys) ≡ newest n (xs ++ ys)
newest-append n [] xs =
    rw (append-nil, append-nil) (newest-short n (newest n xs) (length-newest_le n xs))
newest-append n (y ∷ ys) xs =
    newest n (newest n xs ++ y ∷ ys)
    ≡⟨ ap (newest n) (sym (append_assoc (newest n xs) (y ∷ []) ys)) ⟩
      newest n ((newest n xs ++ y ∷ []) ++ ys)
    ≡⟨ sym (newest-append n ys (newest n xs ++ y ∷ [])) ⟩
      newest n (newest n (newest n xs ++ y ∷ []) ++ ys)
    ≡⟨ ap (λ zs. newest n (zs ++ ys)) (newest-snoc n xs y) ⟩
      newest n (newest n (xs ++ y ∷ []) ++ ys)
    ≡⟨ newest-append n ys (xs ++ y ∷ []) ⟩ newest n ((xs ++ y ∷ []) ++ ys)
    ≡⟨ ap (newest n) (append_assoc xs (y ∷ []) ys) ⟩ newest n (xs ++ y ∷ ys) ∎

module _ {S F : Type 0} (display : AccessibilityError → Text) where
  -- However many callbacks come to a service with its lock unpoisoned and at most a hundred recent
  -- events, those events are then the newest hundred of the ones it had and the ones recorded since
  -- by the callbacks that found the lock free, numbered one after the other, in order.
  pub on_events-newest :
      (es : List (Event F)) (s : AccessibilityService S F)
      → s.is_poisoned ≡ false
      → length s.inner.recent_events ≤ max_recent_events
      → (on_events display s es).inner.recent_events
        ≡ newest max_recent_events (s.inner.recent_events ++ recorded s.inner.sequence es)
  unfolding on_events on_event with_inner recorded push_event
  on_events-newest [] s p h = sym (
      ap (newest max_recent_events) (append-nil s.inner.recent_events)
      ∙ newest-short max_recent_events s.inner.recent_events h)
  on_events-newest (publishes free snapshot ∷ es) s p h = rw p (on_events-newest es _ refl h)
  on_events-newest (publishes busy snapshot ∷ es) s p h = on_events-newest es _ p h
  on_events-newest (records free kind element now ∷ es) s p h =
      let x : AccessibilityEvent = record {
        sequence = saturating_add s.inner.sequence 1;
        kind = kind;
        element = element;
        observed_at_millis = now;
      } in
      let rest = recorded (saturating_add s.inner.sequence 1) es in
      let pushed = push_event-newest kind element now s.inner h in
      let c = s.callback_metrics in
      let s' = record s {
        inner = push_event kind element now s.inner;
        callback_metrics = record c { observed = wrapping_add c.observed 1 };
        is_poisoned = false;
      } in
      rw p (
        on_events-newest es s' refl (push_event-bounded kind element now s.inner h)
        ∙ ap (λ zs. newest max_recent_events (zs ++ rest)) pushed
        ∙ newest-append max_recent_events rest (s.inner.recent_events ++ x ∷ [])
        ∙ ap (newest max_recent_events) (append_assoc s.inner.recent_events (x ∷ []) rest))
  on_events-newest (records busy kind element now ∷ es) s p h = on_events-newest es _ p h
  on_events-newest (errs free e ∷ es) s p h = rw p (on_events-newest es _ refl h)
  on_events-newest (errs busy e ∷ es) s p h = on_events-newest es _ p h
  on_events-newest (finds_stale ∷ es) s p h = on_events-newest es _ p h
  on_events-newest (finds_unsupported ∷ es) s p h = on_events-newest es _ p h
