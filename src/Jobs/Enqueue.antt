-- ===== src/Jobs/Enqueue.antt =====
-- `enqueue_extraction` of crates/mega-store/src/queue_repo.rs. It returns the tables that it commits.
use stalky.Prelude.Int.{ℤ}
use stalky.Prelude.Text.{Text, text_eq, is_blank, text}
use stalky.Jobs.{
  segment_closed, Tables, ExtractionJob, JobRow, StoreError, find_row, pending, invariant,
  job_from_row, sql, record_event_tx, invalid_input, SegmentRow,
}
use stalky.Prelude.{
  ◌>>◌, ◌>>=◌, Option, Result, err, if◌then◌else◌, none, reject_if, any, some, ok, ◌||◌, ltb,
  length, ◌++◌, not, ◌∷◌, [],
}

abbrev pub fresh_job : Text → Text → Text → ℤ → JobRow
fresh_job id segment_id prompt_version now = record {
  id = id;
  segment_id = segment_id;
  state = pending;
  attempts = 0;
  next_attempt_at = now;
  lease_owner = none;
  lease_expires_at = none;
  extractor_prompt_version = prompt_version;
  completion = none;
  last_error_code = none;
  created_at = now;
  updated_at = now;
}

-- `load_job_tx`
unfoldable pub load_job_tx : Tables → Text → Option ExtractionJob
load_job_tx db segment_id = elim (find_row (λ r. text_eq r.segment_id segment_id) db.jobs) [
  | none ↦ none
  | some r ↦ some (job_from_row r)
]

abbrev pub loaded : Tables → Option ExtractionJob → Result (Tables × ExtractionJob) StoreError
loaded db none = err (invariant (text "queued job disappeared"))
loaded db (some job) = ok (db, job)

-- The insertion of a job with its event, or nothing when the segment has one.
unfoldable pub insert_job : Tables → Text → Text → Text → Text → ℤ → Result Tables StoreError
insert_job db id segment_id prompt_version correlation_id now =
    if any (λ r. text_eq r.segment_id segment_id) db.jobs
    then ok db
    else if any (λ r. text_eq r.id id) db.jobs
    then err sql
    else record_event_tx
        (record db { jobs = db.jobs ++ fresh_job id segment_id prompt_version now ∷ [] })
        segment_closed correlation_id (some segment_id) (some (text "queued")) now

-- `id` is the new UUID.
unfoldable pub enqueue_extraction :
    Tables → Text → Text → Text → Text → ℤ → Result (Tables × ExtractionJob) StoreError
enqueue_extraction db id segment_id prompt_version correlation_id now = do
  reject_if (is_blank prompt_version || ltb 64 (length prompt_version))
      (invalid_input (text "invalid extractor prompt version"))
  reject_if (not (any (λ s. text_eq (SegmentRow.id s) segment_id) db.segments))
      (invalid_input (text "unknown activity segment"))
  db' ← insert_job db id segment_id prompt_version correlation_id now
  loaded db' (load_job_tx db' segment_id)
