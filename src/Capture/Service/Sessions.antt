-- ===== src/Capture/Service/Sessions.antt =====
-- Any sequence of calls and events of crates/mega-capture/src/service.rs, and what a stop leaves.
use stalky.Capture.Service.Rest.{
  IsSettled, is_some, Agrees, Fits, running-event, Follows, quiet-event, quiet-events,
}
use stalky.Capture.Frame.{clear_latest}
use stalky.Prelude.Text.{Text}
use stalky.Prelude.{
  List, ℕ, Result, ◌∷◌, ◌≡◌, [], false, ok, true, err, sym, inr, Bool-cases, refl, ◌||◌, ◌∙◌, ap,
  inl, length,
}
use stalky.Capture.{
  CaptureSource, CaptureError, CaptureState, running, starting, stopping, stopped,
  CaptureState-discrete, failed,
}
use stalky.Capture.Service.Calls.{
  start, stop, begin_start, begin_stop, finish_start, finish_stop, halt_session,
}
use stalky.Capture.Service.{on_event, on_events, Event, CaptureService}

pub data Op (S : Type 0) : Type 0 where
  starts : CaptureSource → List Event → Result S CaptureError → Op S
  stops : List Event → (S → Result (Unit {0}) CaptureError) → Op S
  happens : ℕ → Event → Op S

module _ {S : Type 0} (hash : List ℕ → ℕ) (display : CaptureError → Text) where
  unfoldable pub run_op : CaptureService S → Op S → CaptureService S
  run_op s (starts source during started) = (start hash display s source during started).0
  run_op s (stops during halt) = (stop hash display s during halt).0
  run_op s (happens counter e) = on_event hash display s counter e

  unfoldable pub run_all : CaptureService S → List (Op S) → CaptureService S
  run_all s [] = s
  run_all s (o ∷ os) = run_all (run_op s o) os

  settle :
      (s : CaptureService S) (st : CaptureState)
      → s.is_poisoned ≡ false
      → s.inner.state ≡ st
      → Fits st (is_some s.inner.source) (is_some s.inner.session) (is_some s.inner.metrics.latest)
      → IsSettled s
  settle s st p e h = (p, rw e h)

  pub fits :
      (s : CaptureService S) (st : CaptureState)
      → s.inner.state ≡ st
      → IsSettled s
      → Fits st (is_some s.inner.source) (is_some s.inner.session) (is_some s.inner.metrics.latest)
  fits s st e (p, h) = rw e at h

  quiet-IsSettled : (s s' : CaptureService S) → Agrees s s' → IsSettled s → IsSettled s'
  quiet-IsSettled s s' a (p, h) =
      settle s' s.inner.state (a.poison_kept ∙ p) a.state_kept
        (rw (a.source_kept, a.session_kept, a.latest_kept) h)

  running-IsSettled :
      (s s' : CaptureService S)
      → s.inner.state ≡ running
      → Follows hash display s s'
      → IsSettled s
      → IsSettled s'
  running-IsSettled s s' e f k =
      let (a, b) = fits s running e k in
      let a' = ap is_some f.source_kept ∙ a in
      let b' = ap is_some f.session_kept ∙ b in
      elim f.state_next [
        | inl e' ↦ settle s' running (f.poison_kept ∙ k.0) e' (a', b')
        | inr e' ↦ settle s' failed (f.poison_kept ∙ k.0) e' (a' ∙ sym b', inl b')
      ]

  happens-IsSettled :
      (st : CaptureState) (s : CaptureService S) (counter : ℕ) (e : Event)
      → s.inner.state ≡ st
      → IsSettled s
      → IsSettled (on_event hash display s counter e)
  unfolding CaptureState-discrete
  happens-IsSettled running s counter e h k =
      running-IsSettled s _ h (running-event hash display s counter e h) k
  happens-IsSettled stopped s counter e h k =
      quiet-IsSettled s _ (quiet-event hash display s counter e (rw h refl)) k
  happens-IsSettled failed s counter e h k =
      quiet-IsSettled s _ (quiet-event hash display s counter e (rw h refl)) k
  happens-IsSettled starting s counter e h k = elim (fits s starting h k) [ ]
  happens-IsSettled stopping s counter e h k = elim (fits s stopping h k) [ ]

  -- The part of `start` after the events, from a state without a session and a frame.
  finish_start-IsSettled :
      (s : CaptureService S) (r : Result S CaptureError)
      → s.is_poisoned ≡ false
      → is_some s.inner.source ≡ true
      → is_some s.inner.session ≡ false
      → is_some s.inner.metrics.latest ≡ false
      → IsSettled (finish_start hash display s r).0
  unfolding finish_start
  finish_start-IsSettled s (ok session) p a b c = rw p (refl, (a, refl))
  finish_start-IsSettled s (err e) p a b c = rw p (refl, (refl, b, c))

  finish_stop-IsSettled :
      (s : CaptureService S) (r : Result (Unit {0}) CaptureError)
      → s.is_poisoned ≡ false
      → is_some s.inner.session ≡ false
      → IsSettled (finish_stop hash display s r).0
  unfolding finish_stop clear_latest
  finish_stop-IsSettled s (ok u) p a = rw p (refl, (refl, a, refl))
  finish_stop-IsSettled s (err e) p a = rw p (refl, (sym a, inr refl))

  -- `start` when its first section goes through.
  started-IsSettled :
      (s : CaptureService S) (source : CaptureSource) (during : List Event)
      (r : Result S CaptureError)
      → s.inner.state ≡ starting
      → s.is_poisoned ≡ false
      → is_some s.inner.source ≡ true
      → is_some s.inner.session ≡ false
      → is_some s.inner.metrics.latest ≡ false
      → (counter : ℕ)
      → IsSettled (finish_start hash display (on_events hash display s counter during) r).0
  unfolding CaptureState-discrete
  started-IsSettled s source during r e p a b c counter =
      let q = quiet-events hash display during s counter (rw e refl) in
      finish_start-IsSettled _ r (q.poison_kept ∙ p) (ap is_some q.source_kept ∙ a)
        (ap is_some q.session_kept ∙ b) (ap is_some q.latest_kept ∙ c)

  start-IsSettled :
      (st : CaptureState) (s : CaptureService S) (source : CaptureSource) (during : List Event)
      (r : Result S CaptureError)
      → s.inner.state ≡ st
      → IsSettled s
      → IsSettled (start hash display s source during r).0
  unfolding start begin_start
  start-IsSettled stopped s source during r e k =
      elim (Bool-cases (s.is_lifecycle_poisoned || s.is_poisoned)) [
        | inl t ↦ simp (t, start, begin_start) k
        | inr t ↦
            let (a, b, c) = fits s stopped e k in
            simp (t, e, start, begin_start)
              (started-IsSettled _ source during r refl k.0 refl b c (length s.counters))
      ]
  start-IsSettled starting s source during r e k = elim (fits s starting e k) [ ]
  start-IsSettled stopping s source during r e k = elim (fits s stopping e k) [ ]
  start-IsSettled running s source during r e k =
      elim (Bool-cases (s.is_lifecycle_poisoned || s.is_poisoned)) [
        | inl t ↦ simp (t, start, begin_start) k
        | inr t ↦ simp (t, e, start, begin_start) (k.0, fits s running e k)
      ]
  start-IsSettled failed s source during r e k =
      elim (Bool-cases (s.is_lifecycle_poisoned || s.is_poisoned)) [
        | inl t ↦ simp (t, start, begin_start) k
        | inr t ↦ simp (t, e, start, begin_start) (k.0, fits s failed e k)
      ]

  stopping-IsSettled :
      (s : CaptureService S) (during : List Event) (r : Result (Unit {0}) CaptureError)
      → s.inner.state ≡ stopping
      → s.is_poisoned ≡ false
      → is_some s.inner.session ≡ false
      → (counter : ℕ)
      → IsSettled (finish_stop hash display (on_events hash display s counter during) r).0
  unfolding CaptureState-discrete
  stopping-IsSettled s during r e p b counter =
      let q = quiet-events hash display during s counter (rw e refl) in
      finish_stop-IsSettled _ r (q.poison_kept ∙ p) (ap is_some q.session_kept ∙ b)

  stop-IsSettled :
      (st : CaptureState) (s : CaptureService S) (during : List Event)
      (halt : S → Result (Unit {0}) CaptureError)
      → s.inner.state ≡ st
      → IsSettled s
      → IsSettled (stop hash display s during halt).0
  unfolding stop begin_stop CaptureState-discrete
  stop-IsSettled starting s during halt e k = elim (fits s starting e k) [ ]
  stop-IsSettled stopping s during halt e k = elim (fits s stopping e k) [ ]
  stop-IsSettled stopped s during halt e k =
      elim (Bool-cases (s.is_lifecycle_poisoned || s.is_poisoned)) [
        | inl t ↦ simp (t, stop, begin_stop) k
        | inr t ↦ simp (t, e, stop, begin_stop) (k.0, fits s stopped e k)
      ]
  stop-IsSettled running s during halt e k =
      elim (Bool-cases (s.is_lifecycle_poisoned || s.is_poisoned)) [
        | inl t ↦ simp (t, stop, begin_stop) k
        | inr t ↦
            simp (t, e, stop, begin_stop)
              (stopping-IsSettled _ during (halt_session halt s.inner.session) refl k.0 refl
                s.inner.callback_drops)
      ]
  stop-IsSettled failed s during halt e k =
      elim (Bool-cases (s.is_lifecycle_poisoned || s.is_poisoned)) [
        | inl t ↦ simp (t, stop, begin_stop) k
        | inr t ↦
            simp (t, e, stop, begin_stop)
              (stopping-IsSettled _ during (halt_session halt s.inner.session) refl k.0 refl
                s.inner.callback_drops)
      ]

  run_op-IsSettled : (o : Op S) (s : CaptureService S) → IsSettled s → IsSettled (run_op s o)
  unfolding run_op
  run_op-IsSettled (starts source during r) s k =
      start-IsSettled s.inner.state s source during r refl k
  run_op-IsSettled (stops during halt) s k = stop-IsSettled s.inner.state s during halt refl k
  run_op-IsSettled (happens counter e) s k = happens-IsSettled s.inner.state s counter e refl k

  -- Whatever calls and events a service sees, and whatever its backend returns: between the calls it
  -- is settled if it was. It is stopped, with no source, session or frame; or running, with a source
  -- and a session; or failed, where a session comes with its source and a frame with a session. Its
  -- inner lock is never poisoned, so no callback panics under it.
  pub run_all-IsSettled :
      (os : List (Op S)) (s : CaptureService S) → IsSettled s → IsSettled (run_all s os)
  unfolding run_all
  run_all-IsSettled [] s k = k
  run_all-IsSettled (o ∷ os) s k = run_all-IsSettled os (run_op s o) (run_op-IsSettled o s k)
