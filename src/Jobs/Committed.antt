-- ===== src/Jobs/Committed.antt =====
-- What the finishing calls of crates/mega-store/src/queue_repo.rs commit.
use stalky.Jobs.Enqueue.{enqueue_extraction, insert_job, load_job_tx}
use stalky.Jobs.Starts.{record_event-jobs}
use stalky.Jobs.Rows.{find_row-In}
use stalky.Jobs.Attempts.{count_starts}
use stalky.Prelude.{
  ◌≡◌, ok, In, true, Option-cases, bind-ok, inl, inr, reject_if, not, subst, leb, ok-injective,
  ◌&&◌, some, ◌==◌, ap, sym, ◌∙◌, arith, ◌||◌, ltb, length, any,
}
use stalky.Prelude.Int.{ℤ, ltb_ℤ, i64_max}
use stalky.Prelude.Text.{Text, text, is_blank, text_eq}
use stalky.Jobs.{
  Tables, ExtractionJobCompletion, ExtractionJobFailure, JobRow, JobState, update_where, find_row,
  invalid_input, record_event_tx, extraction_failed, lease_lost, extraction_completed,
  ExtractionJob, SegmentRow,
}
use stalky.Jobs.Finish.{
  complete_extraction, fail_extraction, leased_row, holds_lease, is_completable, is_failable,
  completed_row, failed_row, validate_completion, validate_error_code, fits_i64, count_where,
  state_name, after_failure,
}

leased_row-In :
    (db : Tables) (job worker : Text) (now : ℤ) (row : JobRow)
    → leased_row db job worker now ≡ ok row
    → In row db.jobs × (holds_lease job worker now row ≡ true)
unfolding leased_row
leased_row-In db job worker now row h =
    elim (Option-cases (find_row (holds_lease job worker now) db.jobs)) [
      | inl n ↦ let h' = rw (n, leased_row) at h in cc
      | inr (r, n) ↦
          subst (λ x. In x db.jobs × (holds_lease job worker now x ≡ true))
            (ok-injective (rw (n, leased_row) at h))
            (find_row-In (holds_lease job worker now) db.jobs r n)
    ]

pub enqueue-jobs :
    (db db' : Tables) (id segment version correlation : Text) (now : ℤ) (job : ExtractionJob)
    → enqueue_extraction db id segment version correlation now ≡ ok (db', job)
    → insert_job db id segment version correlation now ≡ ok db'
unfolding enqueue_extraction
enqueue-jobs db db' id segment version correlation now job h =
    let (u, v, h) =
      bind-ok
        (reject_if (is_blank version || ltb 64 (length version))
          (invalid_input (text "invalid extractor prompt version")))
        _ _ h in
    let (u', v', h) =
      bind-ok
        (reject_if (not (any (λ s. text_eq (SegmentRow.id s) segment) db.segments))
          (invalid_input (text "unknown activity segment")))
        _ _ h in
    let (d, e, h) = bind-ok (insert_job db id segment version correlation now) _ _ h in
    elim (Option-cases (load_job_tx d segment)) [
      | inl o ↦ let h' = rw o at h in cc
      | inr (l, o) ↦ e ∙ ap ok (ap (λ p. p.0) (ok-injective (rw o at h)))
    ]

pub complete-jobs :
    (db db' : Tables) (job worker : Text) (completion : ExtractionJobCompletion) (now : ℤ)
    → complete_extraction db job worker completion now ≡ ok db'
    → (db'.jobs ≡ update_where (is_completable job worker) (completed_row completion now) db.jobs)
      × ((id : Text) → count_starts id db'.events ≡ count_starts id db.events)
      × ((row : JobRow) × In row db.jobs × (holds_lease job worker now row ≡ true))
unfolding complete_extraction
complete-jobs db db' job worker completion now h =
    let (u, v, h) = bind-ok (validate_completion completion) _ _ h in
    let (row, w, h) = bind-ok (leased_row db job worker now) _ _ h in
    let (u1, v1, h) =
      bind-ok
        (reject_if (not (leb completion.latency_ms i64_max))
          (invalid_input (text "latency overflow")))
        _ _ h in
    let (u2, v2, h) =
      bind-ok
        (reject_if (not (fits_i64 completion.input_tokens && fits_i64 completion.output_tokens))
          (invalid_input (text "token count overflow")))
        _ _ h in
    let (u3, v3, h) =
      bind-ok (reject_if (not (count_where (is_completable job worker) db.jobs == 1)) lease_lost) _
        _ h in
    let (j, s) =
      record_event-jobs _ db' extraction_completed job (some row.segment_id)
        (some (text "completed")) now h in
    (
      j,
      λ id. s id ∙ omega arith,
      (let (m, l) = leased_row-In db job worker now row w in (row, m, l)),
    )

pub fail-jobs :
    (db db' : Tables) (job worker : Text) (failure : ExtractionJobFailure) (now : ℤ)
    (state : JobState)
    → fail_extraction db job worker failure now ≡ ok (db', state)
    → (row : JobRow) × (db'.jobs
        ≡ update_where (is_failable job worker) (failed_row row.attempts failure now) db.jobs)
      × ((id : Text) → count_starts id db'.events ≡ count_starts id db.events)
      × In row db.jobs
      × (holds_lease job worker now row ≡ true)
unfolding fail_extraction
fail-jobs db db' job worker failure now state h =
    let (u, v, h) = bind-ok (validate_error_code failure.error_code) _ _ h in
    let (u1, v1, h) =
      bind-ok
        (reject_if (ltb_ℤ failure.retry_at now)
          (invalid_input (text "retry time precedes failure")))
        _ _ h in
    let (row, w, h) = bind-ok (leased_row db job worker now) _ _ h in
    let (d, e, h) =
      bind-ok
        (record_event_tx _ extraction_failed job (some row.segment_id)
          (some (state_name (after_failure row.attempts))) now)
        _ _ h in
    let (j, s) =
      record_event-jobs _ d extraction_failed job (some row.segment_id)
        (some (state_name (after_failure row.attempts))) now e in
    let q = ap (λ p. p.0) (ok-injective h) in
    let (m, l) = leased_row-In db job worker now row w in
    (
      row,
      subst
          (λ x.
            Tables.jobs x
            ≡ update_where (is_failable job worker) (failed_row row.attempts failure now) db.jobs)
          q j,
      λ id. ap (λ x. count_starts id (Tables.events x)) (sym q) ∙ s id ∙ omega arith,
      m,
      l,
    )
