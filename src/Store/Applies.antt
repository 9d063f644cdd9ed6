-- ===== src/Store/Applies.antt =====
-- `apply_plan` of crates/mega-store/src/memory_repo.rs: the transaction around the writes of a plan.
use stalky.Prelude.Int.{ℤ, neg_part, pos_part, sub_ℕ}
use stalky.Prelude.Text.{Text, text, text_eq}
use stalky.Prelude.{
  ltb, reject_if, Bool, Option, Result, ℕ, err, false, if◌then◌else◌, none, ok, some, true, ◌&&◌,
  ◌++◌, ◌==◌, ◌∷◌, [], ◌>>=◌, ◌>>◌, ◌+◌,
}
use stalky.Model.Floats.{Float32}
use stalky.Reconcile.{MemoryMutationPlan, idempotency_key}
use stalky.Jobs.{find_row, reconciliation_applied}
use stalky.Store.{u32_max, CandidateRow, Database, StoreError, has_id, record_event_tx, sql}
use stalky.Store.Checks.{validate_plan_for_storage}
use stalky.Store.Inserts.{enqueue_projection_refresh_tx}
use stalky.Store.Plans.{MemoryMutationResult, Written, outcome_status, write_plan}

abbrev pub has_key : Text × ℕ → CandidateRow → Bool
has_key (run_id, index) row = text_eq row.extraction_run_id run_id && (row.candidate_index == index)

-- `CASE WHEN ?3='ignore' THEN ?6 + 604800000 ELSE NULL END`
abbrev expires_at : Text → ℤ → Option ℤ
expires_at outcome now =
    if text_eq outcome (text "ignore")
    then some (sub_ℕ (pos_part now + 604800000) (neg_part now))
    else none

abbrev pub candidate_row : {F : Type 0} → Text × ℕ → Written F → ℤ → CandidateRow
candidate_row key w now = record {
  extraction_run_id = key.0;
  candidate_index = key.1;
  outcome = w.outcome;
  memory_id = w.memory_id;
  audit_reason = w.reason;
  created_at = now;
  expires_at = expires_at w.outcome now;
}

module _ {F : Type 0} where
  -- `if let Some(memory_id) = &memory_id`; `row.get` refuses a revision that is no `u32`.
  unfoldable pub enqueue_written : Database F → Option Text → ℤ → Result (Database F) StoreError
  enqueue_written db none now = ok db
  enqueue_written db (some id) now = elim (find_row (has_id id) db.memories) [
    | none ↦ err sql
    | some m ↦
        reject_if (ltb u32_max m.revision) sql
        >> ok (enqueue_projection_refresh_tx db id m.revision now)
  ]

  -- What follows `match plan`.
  unfoldable pub finish_plan :
      Text × ℕ → Written F → ℤ → Result (Database F × MemoryMutationResult) StoreError
  finish_plan key w now = do
    queued ←
        enqueue_written
          (record (w.tables) {
            extraction_candidates = w.tables.extraction_candidates ++ candidate_row key w now ∷ [];
          })
          w.memory_id now
    told ← record_event_tx queued reconciliation_applied key.0 w.memory_id (some w.outcome) now
    ok (told, record { memory_id = w.memory_id; status = w.status; was_already_applied = false })

module _ (fl : Float32) (to_lowercase deterministic_id : Text → Text) where
  open fl use {F}

  unfoldable pub apply_plan :
      Database F
      → MemoryMutationPlan F
      → Text
      → ℤ
      → Result (Database F × MemoryMutationResult) StoreError
  apply_plan db plan fresh now =
      validate_plan_for_storage fl db plan
      >> elim (find_row (has_key (idempotency_key plan)) db.extraction_candidates) [
        | some row ↦ ok (
          db,
          record {
            memory_id = row.memory_id;
            status = outcome_status row.outcome;
            was_already_applied = true;
          },
        )
        | none ↦ write_plan fl to_lowercase deterministic_id db plan fresh now >>= λ w.
            finish_plan (idempotency_key plan) w now
      ]
