-- ===== src/Jobs/Finish.antt =====
-- `complete_extraction` and `fail_extraction` of crates/mega-store/src/queue_repo.rs. Each returns the
-- tables that it commits.
use stalky.Prelude.Int.{ℤ, i64_max, ltb_ℤ}
use stalky.Prelude.Text.{Text, text, text_eq, is_blank, is_empty}
use stalky.Jobs.{
  ExtractionJobCompletion, JobState, Tables, ExtractionJobFailure, JobRow, StoreError,
  max_extraction_attempts, pending, find_row, is_running, needs_attention, owned_by, running,
  completed, expires_after, invalid_input, lease_lost, record_event_tx, update_where, SegmentRow,
  extraction_completed, extraction_failed,
}
use stalky.Prelude.{
  ◌>>◌, ◌>>=◌, Bool, Option, ℕ, List, Result, if◌then◌else◌, leb, true, some, ◌&&◌, ◌∷◌, reject_if,
  ◌+◌, ◌||◌, [], none, not, ◌==◌, err, ltb, length, all, ok,
}

unfoldable pub validate_completion : ExtractionJobCompletion → Result (Unit {0}) StoreError
validate_completion value =
    reject_if
      (is_blank value.provider
        || ltb 128 (length value.provider)
        || is_blank value.model
        || ltb 128 (length value.model))
      (invalid_input (text "invalid extraction provider metadata"))

-- A byte that an error code may have.
unfoldable pub is_code_byte : ℕ → Bool
is_code_byte c =
    (leb 97 c && leb c 122) || (leb 48 c && leb c 57) || (c == 95) || (c == 45) || (c == 46)

unfoldable pub validate_error_code : Text → Result (Unit {0}) StoreError
validate_error_code value =
    reject_if (is_empty value || ltb 64 (length value) || not (all is_code_byte value))
      (invalid_input (text "error code must be bounded ASCII metadata"))

-- `i64::try_from`
unfoldable pub fits_i64 : Option ℕ → Bool
fits_i64 none = true
fits_i64 (some n) = leb n i64_max

unfoldable pub holds_lease : Text → Text → ℤ → JobRow → Bool
holds_lease job_id worker_id now r =
    text_eq r.id job_id
    && is_running r.state
    && owned_by r.lease_owner worker_id
    && expires_after r.lease_expires_at now

-- `leased_segment`, with the row.
unfoldable pub leased_row : Tables → Text → Text → ℤ → Result JobRow StoreError
leased_row db job_id worker_id now = elim (find_row (holds_lease job_id worker_id now) db.jobs) [
  | none ↦ err lease_lost
  | some r ↦ ok r
]

-- The rows of the update, and how many there are.
unfoldable pub is_completable : Text → Text → JobRow → Bool
is_completable job_id worker_id r =
    text_eq r.id job_id && owned_by r.lease_owner worker_id && is_running r.state

abbrev pub count_where : {A : Type 0} → (A → Bool) → List A → ℕ
count_where p [] = 0
count_where p (r ∷ rs) = (if p r then 1 else 0) + count_where p rs

abbrev pub completed_row : ExtractionJobCompletion → ℤ → JobRow → JobRow
completed_row completion now r = record r {
  state = completed;
  lease_owner = none;
  lease_expires_at = none;
  completion = some completion;
  updated_at = now;
  last_error_code = none;
}

unfoldable pub complete_extraction :
    Tables → Text → Text → ExtractionJobCompletion → ℤ → Result Tables StoreError
complete_extraction db job_id worker_id completion now = do
  validate_completion completion
  row ← leased_row db job_id worker_id now
  reject_if (not (leb completion.latency_ms i64_max)) (invalid_input (text "latency overflow"))
  reject_if (not (fits_i64 completion.input_tokens && fits_i64 completion.output_tokens))
      (invalid_input (text "token count overflow"))
  reject_if (not (count_where (is_completable job_id worker_id) db.jobs == 1)) lease_lost
  record_event_tx
      (record db {
        jobs =
            update_where (is_completable job_id worker_id) (completed_row completion now) db.jobs;
        segments =
            update_where (λ s. text_eq (SegmentRow.id s) row.segment_id)
              (λ s. record s { extraction_state = completed }) db.segments;
      })
      extraction_completed job_id (some row.segment_id) (some (text "completed")) now

abbrev pub after_failure : ℕ → JobState
after_failure attempts = if leb max_extraction_attempts attempts then needs_attention else pending

-- The rows of the update of a failure, and what it makes of them, with the attempts read before.
unfoldable pub is_failable : Text → Text → JobRow → Bool
is_failable job_id worker_id r = text_eq r.id job_id && owned_by r.lease_owner worker_id

abbrev pub failed_row : ℕ → ExtractionJobFailure → ℤ → JobRow → JobRow
failed_row attempts failure now r = record r {
  state = after_failure attempts;
  lease_owner = none;
  lease_expires_at = none;
  next_attempt_at = failure.retry_at;
  last_error_code = some failure.error_code;
  updated_at = now;
}

abbrev pub state_name : JobState → Text
state_name pending = text "pending"
state_name running = text "running"
state_name completed = text "completed"
state_name needs_attention = text "needs_attention"

unfoldable pub fail_extraction :
    Tables → Text → Text → ExtractionJobFailure → ℤ → Result (Tables × JobState) StoreError
fail_extraction db job_id worker_id failure now = do
  validate_error_code failure.error_code
  reject_if (ltb_ℤ failure.retry_at now) (invalid_input (text "retry time precedes failure"))
  row ← leased_row db job_id worker_id now
  db' ←
      record_event_tx
        (record db {
          jobs =
              update_where (is_failable job_id worker_id) (failed_row row.attempts failure now)
                db.jobs;
          segments =
              update_where (λ s. text_eq (SegmentRow.id s) row.segment_id)
                (λ s. record s {
                  extraction_state = after_failure row.attempts;
                  extraction_attempts = row.attempts;
                })
                db.segments;
        })
        extraction_failed job_id (some row.segment_id)
        (some (state_name (after_failure row.attempts))) now
  ok (db', after_failure row.attempts)
