-- ===== src/Capture/Frame/Counts.antt =====
-- The counters and the latest frame of crates/mega-capture/src/frame.rs, over any calls.
use mathlib.Core.Option
use stalky.Prelude.Words.{u64_max}
use stalky.Prelude.Text.{Text}
use stalky.Capture.{FrameStatus}
use stalky.Prelude.{
  List, ℕ, Option, ◌+◌, ◌∷◌, some, ◌≡◌, ◌≤◌, arith, length, [], none, Bool-cases, refl, ◌==◌, inl,
  inr, Result-cases, ok,
}
use stalky.Capture.Frame.{
  FrameInput, FrameMetrics, BgraFrame, FrameIngest, commit_hashed, count_invalid, FrameMetadata,
  max_frame_bytes, commit_frame, ingest, ingest_owned, reject_frame, record_drop,
  record_stream_error, clear_latest, input_of, validate_frame_input,
}
use stalky.Capture.Frame.Rows.{validate-IsSound}

pub data Call : Type 0 where
  gives : FrameInput → Call
  gives_owned : BgraFrame → Call
  rejects : FrameStatus → Text → Call
  drops errs clears : Call

-- What a counter has counted among the calls.
abbrev pub is_frame : Call → ℕ
is_frame (gives i) = 1
is_frame (gives_owned f) = 1
is_frame (rejects s t) = 1
is_frame _ = 0

abbrev pub is_drop : Call → ℕ
is_drop drops = 1
is_drop _ = 0

abbrev pub is_stream_error : Call → ℕ
is_stream_error errs = 1
is_stream_error _ = 0

abbrev pub count : (Call → ℕ) → List Call → ℕ
count f [] = 0
count f (c ∷ cs) = f c + count f cs

-- The frames that the metrics say were given.
abbrev pub handled : FrameMetrics → ℕ
handled m = m.accepted_frames + m.duplicate_frames + m.invalid_frames

-- The latest frame is the one that the metrics show, with its own digest and length.
abbrev pub IsShown : (List ℕ → ℕ) → Option FrameMetadata → Option BgraFrame → Type 0
IsShown hash shown none = Unit
IsShown hash shown (some f) =
    (f.digest ≡ hash f.bytes)
    × (f.metadata.byte_len ≡ length f.bytes)
    × (length f.bytes ≤ max_frame_bytes)
    × (shown ≡ some f.metadata)

module _ (hash : List ℕ → ℕ) where
  -- `none` is a panic.
  unfoldable pub call : FrameIngest → Call → Option FrameIngest
  call s (gives input) = Option.map (λ r. r.0) (ingest hash s input)
  call s (gives_owned frame) = some (ingest_owned hash s frame).0
  call s (rejects status reason) = some (reject_frame s status reason).0
  call s drops = some (record_drop s)
  call s errs = some (record_stream_error s)
  call s clears = some (clear_latest s)

  unfoldable pub call_all : FrameIngest → List Call → Option FrameIngest
  call_all s [] = some s
  call_all s (c ∷ cs) = elim (call s c) [ none ↦ none | some s' ↦ call_all s' cs ]

  -- Where one call leads: nothing is lost of what the metrics count, as far as 64 bits go.
  pub record Counts (s s' : FrameIngest) (c : Call) : Type 0 where
    pub frames : handled s'.metrics ≡ handled s.metrics + is_frame c
    pub dropped : s'.metrics.dropped_frames ≡ s.metrics.dropped_frames + is_drop c
    pub errors : s'.metrics.stream_errors ≡ s.metrics.stream_errors + is_stream_error c
    pub replaced :
        s.metrics.replaced_frames ≤ s.metrics.accepted_frames
        → s'.metrics.replaced_frames ≤ s'.metrics.accepted_frames
    pub shown :
        IsShown hash s.metrics.last_frame s.latest → IsShown hash s'.metrics.last_frame s'.latest

  -- Each counter has room for one more.
  abbrev pub HasRoom : FrameMetrics → ℕ → Type 0
  HasRoom m n =
      (handled m + n ≤ u64_max) × (m.dropped_frames + n ≤ u64_max) × (m.stream_errors + n ≤ u64_max)

  pub count_invalid-Counts :
      (s : FrameIngest) (c : Call)
      → is_frame c ≡ 1
      → is_drop c ≡ 0
      → is_stream_error c ≡ 0
      → HasRoom s.metrics 1
      → Counts s (count_invalid s) c
  unfolding count_invalid
  count_invalid-Counts s c f d e r = record {
    frames = ground arith;
    dropped = omega arith;
    errors = omega arith;
    replaced = λ h. h;
    shown = λ h. h;
  }

  commit_hashed-IsShown :
      (latest : Option BgraFrame) (metrics : FrameMetrics) (frame : BgraFrame)
      → frame.digest ≡ hash frame.bytes
      → frame.metadata.byte_len ≡ length frame.bytes
      → length frame.bytes ≤ max_frame_bytes
      → IsShown hash metrics.last_frame latest
      → (let s = commit_hashed hash (record { latest = latest; metrics = metrics }) frame in
          IsShown hash s.metrics.last_frame s.latest)
  unfolding commit_hashed
  commit_hashed-IsShown none metrics frame g l m h = (g, l, m, refl)
  commit_hashed-IsShown (some f) metrics frame g l m h =
      elim (Bool-cases (f.digest == frame.digest)) [
        | inl t ↦ rw t (h.0, h.1, h.2, refl)
        | inr t ↦ rw t (g, l, m, refl)
      ]

  commit_hashed-Counts :
      (s : FrameIngest) (frame : BgraFrame) (c : Call)
      → is_frame c ≡ 1
      → is_drop c ≡ 0
      → is_stream_error c ≡ 0
      → HasRoom s.metrics 1
      → frame.digest ≡ hash frame.bytes
      → frame.metadata.byte_len ≡ length frame.bytes
      → length frame.bytes ≤ max_frame_bytes
      → Counts s (commit_hashed hash s frame) c
  unfolding commit_hashed
  commit_hashed-Counts s frame c f d e r g l m = record {
    frames = ground arith;
    dropped = ground arith;
    errors = ground arith;
    replaced = λ h. ground arith;
    shown = commit_hashed-IsShown s.latest s.metrics frame g l m;
  }

  pub commit_frame-Counts :
      (s : FrameIngest) (frame : BgraFrame) (c : Call)
      → is_frame c ≡ 1
      → is_drop c ≡ 0
      → is_stream_error c ≡ 0
      → HasRoom s.metrics 1
      → frame.metadata.byte_len ≡ length frame.bytes
      → length frame.bytes ≤ max_frame_bytes
      → Counts s (commit_frame hash s frame) c
  unfolding commit_frame
  commit_frame-Counts s frame c f d e r l m =
      commit_hashed-Counts s (record frame { digest = hash frame.bytes }) c f d e r refl l m

  owned_bound :
      (frame : BgraFrame) (n : ℕ)
      → validate_frame_input (input_of frame) ≡ ok n
      → length frame.bytes ≤ max_frame_bytes
  unfolding input_of
  owned_bound frame n h = (validate-IsSound (input_of frame) n h).0.data_size_bound

  pub ingest_owned-Counts :
      (s : FrameIngest) (frame : BgraFrame)
      → HasRoom s.metrics 1
      → Counts s (ingest_owned hash s frame).0 (gives_owned frame)
  unfolding ingest_owned
  ingest_owned-Counts s frame r = elim (Result-cases (validate_frame_input (input_of frame))) [
    | inl (n, h) ↦
        rw (h, ingest_owned)
          (commit_frame-Counts s
            (record frame { metadata = record (frame.metadata) { byte_len = length frame.bytes } })
            (gives_owned frame) refl refl refl r refl (owned_bound frame n h))
    | inr (e, h) ↦
        rw (h, ingest_owned) (count_invalid-Counts s (gives_owned frame) refl refl refl r)
  ]
