-- ===== src/Jobs/Claim.antt =====
-- `claim_extraction` of crates/mega-store/src/queue_repo.rs. It returns the tables that it commits.
use stalky.Prelude.Text.{Text, is_blank, text_eq, text}
use stalky.Prelude.Int.{ℤ, ltb_ℤ, checked_add, leb_ℤ, pos}
use stalky.Jobs.{
  JobRow, Tables, running, ExtractionJob, StoreError, is_pending, update_where, is_running,
  expires_by, record_event_tx, extraction_started, invalid_input, max_extraction_attempts,
  needs_attention, pending, job_from_row, max_lease_millis,
}
use stalky.Prelude.{
  ◌>>◌, ◌>>=◌, Bool, List, Option, Result, none, some, ◌+◌, if◌then◌else◌, ok, reject_if, ◌&&◌,
  ◌||◌, ◌∷◌, [], err, leb, ltb, length, not,
}

unfoldable pub validate_worker_and_lease : Text → ℤ → Result (Unit {0}) StoreError
validate_worker_and_lease worker_id lease_millis = do
  reject_if (is_blank worker_id || ltb 128 (length worker_id))
      (invalid_input (text "invalid extraction worker ID"))
  reject_if (not (leb_ℤ (pos 1000) lease_millis && leb_ℤ lease_millis (pos max_lease_millis)))
      (invalid_input (text "lease must be between one second and fifteen minutes"))
  ok tt

-- The rows of the two updates: running, past the end of the lease, and without or with an attempt left.
unfoldable pub is_exhausted : ℤ → JobRow → Bool
is_exhausted now r =
    is_running r.state
    && expires_by r.lease_expires_at now
    && leb max_extraction_attempts r.attempts

unfoldable pub is_expired : ℤ → JobRow → Bool
is_expired now r =
    is_running r.state
    && expires_by r.lease_expires_at now
    && ltb r.attempts max_extraction_attempts

-- The first update of `claim_extraction`: the jobs that were given up by their last worker.
unfoldable pub exhaust : ℤ → List JobRow → List JobRow
exhaust now jobs =
    update_where (is_exhausted now)
      (λ r. record r {
        state = needs_attention;
        lease_owner = none;
        lease_expires_at = none;
        updated_at = now;
        last_error_code = some (text "lease_exhausted");
      })
      jobs

-- The second update: the jobs that may be tried again.
unfoldable pub expire : ℤ → List JobRow → List JobRow
expire now jobs =
    update_where (is_expired now)
      (λ r. record r {
        state = pending;
        lease_owner = none;
        lease_expires_at = none;
        next_attempt_at = now;
        updated_at = now;
        last_error_code = some (text "lease_expired");
      })
      jobs

unfoldable pub is_claimable : ℤ → JobRow → Bool
is_claimable now r =
    is_pending r.state && leb_ℤ r.next_attempt_at now && ltb r.attempts max_extraction_attempts

-- `ORDER BY next_attempt_at, created_at`: whether the first row comes strictly before the second.
unfoldable pub comes_before : JobRow → JobRow → Bool
comes_before a b =
    ltb_ℤ a.next_attempt_at b.next_attempt_at
    || (leb_ℤ a.next_attempt_at b.next_attempt_at && ltb_ℤ a.created_at b.created_at)

abbrev pub earlier : JobRow → Option JobRow → JobRow
earlier r none = r
earlier r (some best) = if comes_before best r then best else r

-- `LIMIT 1`; of equals, the row inserted first.
unfoldable pub next_job : ℤ → List JobRow → Option JobRow
next_job now [] = none
next_job now (r ∷ rs) =
    let rest = next_job now rs in if is_claimable now r then some (earlier r rest) else rest

abbrev pub lease : Text → ℤ → ℤ → JobRow → JobRow
lease worker_id expires now r = record r {
  state = running;
  attempts = r.attempts + 1;
  lease_owner = some worker_id;
  lease_expires_at = some expires;
  updated_at = now;
}

-- The update that claims the next job, with its event.
unfoldable pub claim_next :
    Tables → Text → ℤ → ℤ → Result (Tables × Option ExtractionJob) StoreError
claim_next db worker_id expires now = elim (next_job now db.jobs) [
  | none ↦ ok (db, none)
  | some r ↦ do
    db' ←
        record_event_tx
          (record db {
            jobs = update_where (λ q. text_eq q.id r.id) (lease worker_id expires now) db.jobs;
          })
          extraction_started r.id (some r.segment_id) (some (text "running")) now
    ok (db', some (job_from_row (lease worker_id expires now r)))
]

unfoldable pub claim_extraction :
    Tables → Text → ℤ → ℤ → Result (Tables × Option ExtractionJob) StoreError
claim_extraction db worker_id now lease_millis = do
  validate_worker_and_lease worker_id lease_millis
  if db.extraction_paused then ok (db, none) else elim (checked_add now lease_millis) [
    | none ↦ err (invalid_input (text "lease timestamp overflow"))
    | some expires ↦
        claim_next (record db { jobs = expire now (exhaust now db.jobs) }) worker_id expires now
  ]
