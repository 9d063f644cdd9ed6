-- ===== src/Capture/Service/Rest.antt =====
-- What crates/mega-capture/src/service.rs keeps between the calls of a client.
use stalky.Prelude.Text.{Text}
use stalky.Prelude.{
  List, Option, Bool, ℕ, ◌≡◌, false, some, true, none, ◌⊎◌, refl, same, Bool-cases, Result, arith,
  inl, ok, ◌∷◌, err, inr, ◌∙◌, [],
}
use stalky.Capture.{
  CaptureState, CaptureError, stopped, running, failed, starting, stopping, CaptureState-discrete,
}
use stalky.Capture.Frame.{record_stream_error, FrameIngest}
use stalky.Capture.Frame.Totals.{ingest-total}
use stalky.Capture.Service.{
  on_event, on_events, CaptureService, is_admitted, count_drop, Event, Lock, ingested, ingests,
  ingests_owned, taken, busy,
}

abbrev pub is_some : {A : Type 0} → Option A → Bool
is_some none = false
is_some (some a) = true

-- Between two calls the service is stopped, with nothing kept; running, with a session; or failed,
-- with the session of the stream that failed or, after a failed stop, with nothing kept.
abbrev pub Fits : CaptureState → Bool → Bool → Bool → Type 0
Fits stopped source session frame = (source ≡ false) × (session ≡ false) × (frame ≡ false)
Fits running source session frame = (source ≡ true) × (session ≡ true)
Fits failed source session frame = (source ≡ session) × ((session ≡ true) ⊎ (frame ≡ false))
Fits starting source session frame = ⊥
Fits stopping source session frame = ⊥

module _ {S : Type 0} where
  abbrev pub IsSettled : CaptureService S → Type 0
  IsSettled s =
      (s.is_poisoned ≡ false)
      × Fits s.inner.state (is_some s.inner.source) (is_some s.inner.session)
          (is_some s.inner.metrics.latest)

  -- What events outside `running` leave alone.
  pub record Agrees (s s' : CaptureService S) : Type 0 where
    pub state_kept : s'.inner.state ≡ s.inner.state
    pub source_kept : s'.inner.source ≡ s.inner.source
    pub session_kept : s'.inner.session ≡ s.inner.session
    pub latest_kept : s'.inner.metrics.latest ≡ s.inner.metrics.latest
    pub poison_kept : s'.is_poisoned ≡ s.is_poisoned

module _ {S : Type 0} (hash : List ℕ → ℕ) (display : CaptureError → Text) where
  is_admitted-quiet :
      (s : CaptureService S) (lock : Lock)
      → same CaptureState-discrete s.inner.state running ≡ false
      → is_admitted hash display s lock ≡ false
  unfolding is_admitted
  is_admitted-quiet s taken h = rw h (ground arith)
  is_admitted-quiet s busy h = refl

  dropped-Agrees : (s : CaptureService S) (counter : ℕ) → Agrees s (count_drop s counter)
  unfolding count_drop
  dropped-Agrees s counter = record {
    state_kept = refl;
    source_kept = refl;
    session_kept = refl;
    latest_kept = refl;
    poison_kept = refl;
  }

  pub quiet-event :
      (s : CaptureService S) (counter : ℕ) (e : Event)
      → same CaptureState-discrete s.inner.state running ≡ false
      → Agrees s (on_event hash display s counter e)
  unfolding on_event record_stream_error
  quiet-event s counter (ingests lock input) h =
      rw (is_admitted-quiet s lock h, on_event) (dropped-Agrees s counter)
  quiet-event s counter (ingests_owned lock frame) h =
      rw (is_admitted-quiet s lock h, on_event) (dropped-Agrees s counter)
  quiet-event s counter Event.drops h = dropped-Agrees s counter
  quiet-event s counter (Event.errs message) h = record {
    state_kept = rw h refl;
    source_kept = refl;
    session_kept = refl;
    latest_kept = refl;
    poison_kept = refl;
  }

  pub quiet-events :
      (es : List Event) (s : CaptureService S) (counter : ℕ)
      → same CaptureState-discrete s.inner.state running ≡ false
      → Agrees s (on_events hash display s counter es)
  unfolding on_events
  quiet-events [] s counter h = record {
    state_kept = refl;
    source_kept = refl;
    session_kept = refl;
    latest_kept = refl;
    poison_kept = refl;
  }
  quiet-events (e ∷ es) s counter h =
      let a = quiet-event s counter e h in
      let b = quiet-events es (on_event hash display s counter e) counter (rw a.state_kept h) in
      record {
        state_kept = b.state_kept ∙ a.state_kept;
        source_kept = b.source_kept ∙ a.source_kept;
        session_kept = b.session_kept ∙ a.session_kept;
        latest_kept = b.latest_kept ∙ a.latest_kept;
        poison_kept = b.poison_kept ∙ a.poison_kept;
      }

  -- An event of a running stream: it goes on, or has failed.
  pub record Follows (s s' : CaptureService S) : Type 0 where
    pub state_next : (s'.inner.state ≡ running) ⊎ (s'.inner.state ≡ failed)
    pub source_kept : s'.inner.source ≡ s.inner.source
    pub session_kept : s'.inner.session ≡ s.inner.session
    pub poison_kept : s'.is_poisoned ≡ s.is_poisoned

  ingested-Follows :
      (s : CaptureService S) (r : FrameIngest × Result (Unit {0}) CaptureError)
      → s.inner.state ≡ running
      → Follows s (ingested hash display s r)
  unfolding ingested
  ingested-Follows s (m, ok _) h = record {
    state_next = inl h;
    source_kept = refl;
    session_kept = refl;
    poison_kept = refl;
  }
  ingested-Follows s (m, err e) h = record {
    state_next = inl h;
    source_kept = refl;
    session_kept = refl;
    poison_kept = refl;
  }

  pub running-event :
      (s : CaptureService S) (counter : ℕ) (e : Event)
      → s.inner.state ≡ running
      → Follows s (on_event hash display s counter e)
  unfolding on_event count_drop ingested CaptureState-discrete
  running-event s counter (ingests lock input) h =
      elim (Bool-cases (is_admitted hash display s lock)) [
        | inl t ↦
            let (r, e) = ingest-total hash s.inner.metrics input in
            rw (t, e, on_event) (ingested-Follows s r h)
        | inr t ↦
            rw (t, on_event)
              (record {
                state_next = inl h;
                source_kept = refl;
                session_kept = refl;
                poison_kept = refl;
              })
      ]
  running-event s counter (ingests_owned lock frame) h =
      elim (Bool-cases (is_admitted hash display s lock)) [
        | inl t ↦ rw (t, on_event) (ingested-Follows s _ h)
        | inr t ↦
            rw (t, on_event)
              (record {
                state_next = inl h;
                source_kept = refl;
                session_kept = refl;
                poison_kept = refl;
              })
      ]
  running-event s counter Event.drops h = record {
    state_next = inl h;
    source_kept = refl;
    session_kept = refl;
    poison_kept = refl;
  }
  running-event s counter (Event.errs message) h = record {
    state_next = inr (rw h refl);
    source_kept = refl;
    session_kept = refl;
    poison_kept = refl;
  }
