-- ===== src/Capture/Frame/Totals.antt =====
-- The metrics of crates/mega-capture/src/frame.rs after any calls.
use stalky.Capture.Frame.Rows.{ingest-Copies, validate-IsSound}
use stalky.Prelude.Words.{u64_max}
use stalky.Capture.{CaptureError}
use stalky.Capture.Frame.Counts.{
  Call, call, call_all, HasRoom, handled, is_drop, is_frame, is_stream_error, gives, Counts, count,
  IsShown, gives_owned, ingest_owned-Counts, rejects, commit_frame-Counts, drops, errs, clears,
  count_invalid-Counts,
}
use stalky.Capture.Frame.{
  frame_of, ingest, commit_frame, reject_frame, record_drop, record_stream_error, clear_latest,
  count_invalid, validate_frame_input, new_ingest, FrameIngest, FrameInput,
}
use stalky.Prelude.{
  Result-cases, List, ℕ, length, ◌≡◌, ◌≤◌, arith, err, some, ◌+◌, refl, ◌∷◌, inl, [], inr, Result,
}

module _ (hash : List ℕ → ℕ) where
  ingest_err :
      (s : FrameIngest) (input : FrameInput) (e : CaptureError)
      → validate_frame_input input ≡ err e
      → ingest hash s input ≡ some (count_invalid s, err e)
  unfolding ingest
  ingest_err s input e h = rw (h, ingest) refl

  pub ingest-total :
      (s : FrameIngest) (input : FrameInput)
      → (r : FrameIngest × Result (Unit {0}) CaptureError) × (ingest hash s input ≡ some r)
  ingest-total s input = elim (Result-cases (validate_frame_input input)) [
    | inl (n, h) ↦ let (bytes, e, l, c) = ingest-Copies hash s input n h in (_, e)
    | inr (e, h) ↦ (_, ingest_err s input e h)
  ]

  ingest-Counts :
      (s : FrameIngest) (input : FrameInput)
      → HasRoom hash s.metrics 1
      → (s' : FrameIngest) × (call hash s (gives input) ≡ some s') × Counts hash s s' (gives input)
  unfolding call frame_of
  ingest-Counts s input r = elim (Result-cases (validate_frame_input input)) [
    | inl (n, h) ↦
        let (bytes, e, l, c) = ingest-Copies hash s input n h in
        let (sound, size) = validate-IsSound input n h in
        (
          commit_frame hash s (frame_of input bytes),
          rw e refl,
          commit_frame-Counts hash s (frame_of input bytes) (gives input) refl refl refl r refl
              (omega (arith, sound)),
        )
    | inr (e, h) ↦ (
      count_invalid s,
      rw (ingest_err s input e h) refl,
      count_invalid-Counts hash s (gives input) refl refl refl r,
    )
  ]

  pub call-Counts :
      (s : FrameIngest) (c : Call)
      → HasRoom hash s.metrics 1
      → (s' : FrameIngest) × (call hash s c ≡ some s') × Counts hash s s' c
  unfolding call reject_frame record_drop record_stream_error clear_latest
  call-Counts s (gives input) r = ingest-Counts s input r
  call-Counts s (gives_owned frame) r = (_, refl, ingest_owned-Counts hash s frame r)
  call-Counts s (rejects status reason) r = (
    _,
    refl,
    record {
      frames = ground arith;
      dropped = omega arith;
      errors = omega arith;
      replaced = λ h. h;
      shown = λ h. h;
    },
  )
  call-Counts s drops r = (
    _,
    refl,
    record {
      frames = omega arith;
      dropped = ground arith;
      errors = omega arith;
      replaced = λ h. h;
      shown = λ h. h;
    },
  )
  call-Counts s errs r = (
    _,
    refl,
    record {
      frames = omega arith;
      dropped = omega arith;
      errors = ground arith;
      replaced = λ h. h;
      shown = λ h. h;
    },
  )
  call-Counts s clears r = (
    _,
    refl,
    record {
      frames = omega arith;
      dropped = omega arith;
      errors = omega arith;
      replaced = λ h. h;
      shown = λ h. tt;
    },
  )

  -- What the metrics say after the calls `cs`, from what they said before.
  pub record Totals (s s' : FrameIngest) (cs : List Call) : Type 0 where
    pub frames : handled s'.metrics ≡ handled s.metrics + count is_frame cs
    pub dropped : s'.metrics.dropped_frames ≡ s.metrics.dropped_frames + count is_drop cs
    pub errors : s'.metrics.stream_errors ≡ s.metrics.stream_errors + count is_stream_error cs
    pub replaced :
        s.metrics.replaced_frames ≤ s.metrics.accepted_frames
        → s'.metrics.replaced_frames ≤ s'.metrics.accepted_frames
    pub shown :
        IsShown hash s.metrics.last_frame s.latest → IsShown hash s'.metrics.last_frame s'.latest

  is_frame_le : (c : Call) → is_frame c ≤ 1
  is_frame_le c = ground arith

  is_drop_le : (c : Call) → is_drop c ≤ 1
  is_drop_le c = ground arith

  is_stream_error_le : (c : Call) → is_stream_error c ≤ 1
  is_stream_error_le c = ground arith

  call_all-next :
      (c : Call) (cs : List Call) (s s' s'' : FrameIngest)
      → call hash s c ≡ some s'
      → call_all hash s' cs ≡ some s''
      → call_all hash s (c ∷ cs) ≡ some s''
  unfolding call_all
  call_all-next c cs s s' s'' e e' = rw (e, call_all) e'

  pub call_all-Totals :
      (cs : List Call) (s : FrameIngest)
      → HasRoom hash s.metrics (length cs)
      → (s' : FrameIngest) × (call_all hash s cs ≡ some s') × Totals s s' cs
  unfolding call_all
  call_all-Totals [] s r = (
    s,
    refl,
    record {
      frames = omega arith;
      dropped = omega arith;
      errors = omega arith;
      replaced = λ h. h;
      shown = λ h. h;
    },
  )
  call_all-Totals (c ∷ cs) s (a, b, d) =
      let (s', e, k) = call-Counts s c (omega arith, omega arith, omega arith) in
      let (s'', e', k') = call_all-Totals cs s' (
        omega (arith, k.frames, is_frame_le c),
        omega (arith, k.dropped, is_drop_le c),
        omega (arith, k.errors, is_stream_error_le c),
      ) in
      (
        s'',
        call_all-next c cs s s' s'' e e',
        record {
          frames = omega (arith, k.frames, k'.frames);
          dropped = omega (arith, k.dropped, k'.dropped);
          errors = omega (arith, k.errors, k'.errors);
          replaced = λ h. k'.replaced (k.replaced h);
          shown = λ h. k'.shown (k.shown h);
        },
      )

  -- Fewer than 2^64 calls from a new ingest never panic. Then every frame that was given is counted
  -- once, as accepted, duplicate or invalid, and so is every drop and stream error; no more frames
  -- were replaced than accepted; and the latest frame, if there is one, has its own digest and
  -- length, at most sixteen mebibytes, and the metrics show it as the last.
  pub every_frame_counted :
      (cs : List Call)
      → length cs ≤ u64_max
      → (s : FrameIngest) × (call_all hash new_ingest cs ≡ some s)
        × (handled s.metrics ≡ count is_frame cs)
        × (s.metrics.dropped_frames ≡ count is_drop cs)
        × (s.metrics.stream_errors ≡ count is_stream_error cs)
        × (s.metrics.replaced_frames ≤ s.metrics.accepted_frames)
        × IsShown hash s.metrics.last_frame s.latest
  unfolding new_ingest
  every_frame_counted cs l =
      let (s, e, t) = call_all-Totals cs new_ingest (omega arith, omega arith, omega arith) in
      (
        s,
        e,
        omega (arith, t.frames),
        omega (arith, t.dropped),
        omega (arith, t.errors),
        t.replaced (omega arith),
        t.shown tt,
      )
