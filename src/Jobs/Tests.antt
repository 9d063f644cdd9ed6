-- ===== src/Jobs/Tests.antt =====
-- One job, claimed, completed and left alone.
use stalky.Jobs.Leases.{completed_is_final, lease_excludes_others}
use stalky.Jobs.Rows.{IsKeyed}
use stalky.Jobs.Enqueue.{fresh_job, enqueue_extraction, insert_job, load_job_tx}
use stalky.Prelude.Int.{pos, checked_add}
use stalky.Jobs.Soundness.{new_tables, starts_are_bounded, run_call-IsSound, run_calls-IsSound}
use stalky.Jobs.Finish.{
  completed_row, complete_extraction, fits_i64, holds_lease, is_completable, leased_row,
  validate_completion,
}
use stalky.Jobs.Claim.{
  lease, claim_extraction, validate_worker_and_lease, claim_next, next_job, expire, exhaust,
  is_claimable, is_expired, comes_before, is_exhausted,
}
use stalky.Prelude.Text.{text_eq, text, is_blank, is_whitespace}
use stalky.Prelude.{In, List, inl, none, refl, ◌≡◌, some, ◌∷◌, [], false, arith}
use stalky.Jobs.Runs.{run_calls, Call, claims, run_call, completes, enqueues}
use stalky.Jobs.Attempts.{IsSound, count_starts, IsRowSound}
use stalky.Jobs.{
  ExtractionJobCompletion, JobRow, Tables, SegmentRow, pending, record_event_tx, is_pending,
  is_running, job_from_row,
}

abbrev one_segment : List SegmentRow
one_segment = record { id = text "s"; extraction_state = pending; extraction_attempts = 0 } ∷ []

abbrev result : ExtractionJobCompletion
result = record {
  provider = text "local";
  model = text "small";
  latency_ms = 5;
  input_tokens = none;
  output_tokens = some 7;
  private_content_left_device = false;
}

abbrev claimed_calls : List Call
claimed_calls =
    enqueues (text "j") (text "s") (text "v1") (text "c") (pos 10)
    ∷ claims (text "w") (pos 20) (pos 1000)
    ∷ []

abbrev claimed_row : JobRow
claimed_row =
    lease (text "w") (pos 1020) (pos 20) (fresh_job (text "j") (text "s") (text "v1") (pos 10))

abbrev claimed : Tables
claimed = run_calls (new_tables one_segment) claimed_calls

claimed_In : In claimed_row claimed.jobs
unfolding run_calls run_call claim_extraction validate_worker_and_lease is_blank enqueue_extraction
    text_eq insert_job record_event_tx load_job_tx checked_add claim_next next_job expire exhaust
    is_claimable is_pending is_expired is_running comes_before is_exhausted job_from_row
    is_whitespace
claimed_In = inl refl

starts_are_bounded_example :
    (count_starts (text "j") claimed.events ≡ 1) × IsRowSound claimed_row × IsKeyed claimed.jobs
starts_are_bounded_example = starts_are_bounded one_segment claimed_calls claimed_row claimed_In

new-IsSound : IsSound (new_tables one_segment)
new-IsSound = record {
  keyed = tt;
  rows_sound = λ r m. elim m [ ];
  counted = λ r m. elim m [ ];
  no_stray = λ id h. refl;
}

lease_excludes_others_example :
    In claimed_row
      (run_calls claimed (
        claims (text "x") (pos 900) (pos 5000)
        ∷ completes (text "j") (text "x") result (pos 901)
        ∷ [])).jobs
unfolding text_eq
lease_excludes_others_example =
    lease_excludes_others
      (claims (text "x") (pos 900) (pos 5000)
        ∷ completes (text "j") (text "x") result (pos 901)
        ∷ [])
      claimed claimed_row (text "w") (pos 1020)
      (run_calls-IsSound claimed_calls (new_tables one_segment) new-IsSound) claimed_In refl refl
      refl (omega arith, (refl, tt))

abbrev finished : Tables
finished = run_call claimed (completes (text "j") (text "w") result (pos 30))

abbrev finished_row : JobRow
finished_row = completed_row result (pos 30) claimed_row

finished_In : In finished_row finished.jobs
unfolding run_calls run_call claim_extraction validate_worker_and_lease is_blank enqueue_extraction
    text_eq insert_job record_event_tx load_job_tx checked_add claim_next next_job expire exhaust
    is_claimable is_pending is_expired is_running comes_before is_exhausted job_from_row
    is_whitespace complete_extraction fits_i64 holds_lease is_completable leased_row
    validate_completion
finished_In = inl refl

completed_is_final_example :
    In finished_row (run_calls finished (claims (text "w") (pos 40) (pos 1000) ∷ [])).jobs
completed_is_final_example =
    completed_is_final (claims (text "w") (pos 40) (pos 1000) ∷ []) finished finished_row
      (run_call-IsSound (completes (text "j") (text "w") result (pos 30)) claimed
        (run_calls-IsSound claimed_calls (new_tables one_segment) new-IsSound))
      finished_In refl
