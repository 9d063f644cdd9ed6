-- ===== src/Store/Reviews.antt =====
-- Memories that the user enters, edits, confirms, rejects and forgets: `create_manual`, `edit_manual`
-- and `delete_memory` of crates/mega-store/src/memory_repo.rs, and `confirm_pending`,
-- `reject_pending` and `ensure_revision` of operations_repo.rs. The reading back of a memory that
-- `create_manual` and `edit_manual` end with is left out: they return its id.
use stalky.Prelude.Int.{ℤ}
use stalky.Prelude.Text.{Text, is_blank, text, text_eq}
use stalky.Prelude.{
  Bool, Result, ℕ, any, err, if◌then◌else◌, none, ok, same, some, ◌&&◌, ◌==◌, ◌>>=◌, ◌>>◌, leb,
  length, ltb, not, reject_if, retain, ◌+◌, ◌||◌, ◌%◌,
}
use stalky.Model.Floats.{Float32, in_unit}
use stalky.Model.{
  MemoryStatus, MemoryStatus-discrete, active, forgotten, manual, pending_review, rejected,
  superseded,
}
use stalky.Extraction.{is_global, is_reversed, normalize_content}
use stalky.Jobs.{
  find_row, memory_confirmed, memory_edited, memory_rejected, reconciliation_applied, update_where,
}
use stalky.Store.{
  u32_max, sql, Database, MemoryRow, StoreError, has_id, invalid_input, not_found, record_event_tx,
  revision_conflict, updates,
}
use stalky.Store.Inserts.{
  ManualMemoryInput, enqueue_projection_refresh_tx, insert_manual_tx, refresh_search_document,
}
use stalky.Store.Plans.{relate, remove_document, saturating_succ}

abbrev pub has_status : MemoryStatus → MemoryStatus → Bool
has_status s t = same MemoryStatus-discrete s t

abbrev not_pending : StoreError
not_pending = invalid_input (text "memory is not pending review")

-- `revision + 1` of a `u32`, in a build without overflow checks.
abbrev pub next_revision : ℕ → ℕ
next_revision n = (n + 1) % 4294967296

module _ {F : Type 0} where
  unfoldable pub ensure_revision : Database F → Text → ℕ → Result MemoryStatus StoreError
  ensure_revision db id expected = elim (find_row (has_id id) db.memories) [
    | none ↦ err not_found
    | some m ↦ do
      reject_if (ltb u32_max m.revision) sql
      if m.revision == expected then ok m.status else err (revision_conflict expected m.revision)
  ]

  -- `WHERE id=?1 AND status='pending_review' AND revision=?3`
  abbrev pub is_reviewed : Text → ℕ → MemoryRow F → Bool
  is_reviewed id expected m =
      has_id id m && has_status m.status pending_review && (m.revision == expected)

  -- `DELETE FROM memory_embeddings WHERE memory_id=?1`
  abbrev pub remove_embedding : Database F → Text → Database F
  remove_embedding db id = record db {
    memory_embeddings = retain (λ e. not (text_eq e id)) db.memory_embeddings;
  }

  unfoldable pub reject_pending :
      Database F → Text → ℕ → Text → ℤ → Result (Database F × ℕ) StoreError
  reject_pending db id expected correlation_id now = do
    _ ← ensure_revision db id expected
    reject_if (not (any (is_reviewed id expected) db.memories)) not_pending
    told ←
        record_event_tx
          (remove_embedding
            (remove_document
              (record db {
                memories =
                    update_where (is_reviewed id expected)
                      (λ m. record m {
                        status = rejected;
                        revision = m.revision + 1;
                        updated_at = now;
                      })
                      db.memories;
              })
              id)
            id)
          memory_rejected correlation_id (some id) (some (text "rejected")) now
    ok (told, next_revision expected)

module _ (fl : Float32) where
  open fl use {F, hundredths, is_finite}

  unfoldable pub confirm_pending :
      Database F → Text → ℕ → Text → ℤ → Result (Database F × ℕ) StoreError
  confirm_pending db id expected correlation_id now = do
    _ ← ensure_revision db id expected
    reject_if (not (any (is_reviewed id expected) db.memories)) not_pending
    told ←
        record_event_tx
          (enqueue_projection_refresh_tx
            (refresh_search_document
              (record db {
                memories =
                    update_where (is_reviewed id expected)
                      (λ m. record m {
                        status = active;
                        assertion_mode = manual;
                        confidence = hundredths 100;
                        revision = m.revision + 1;
                        updated_at = now;
                      })
                      db.memories;
              })
              id)
            id (next_revision expected) now)
          memory_confirmed correlation_id (some id) (some (text "active")) now
    ok (told, next_revision expected)

  -- `validate_manual`
  unfoldable pub validate_manual : ManualMemoryInput F → Result (Unit {0}) StoreError
  validate_manual input = do
    reject_if
        (not (
          leb 8 (length (normalize_content input.content))
          && leb (length (normalize_content input.content)) 500))
        (invalid_input (text "memory content must be 8..=500 characters"))
    reject_if (not (is_finite input.importance) || not (in_unit fl input.importance))
        (invalid_input (text "importance must be in [0, 1]"))
    reject_if (ltb 5 (length input.category_slugs))
        (invalid_input (text "a memory may have at most five categories"))
    reject_if (not (is_global input.scope_type) && is_blank input.scope_key)
        (invalid_input (text "non-global scope requires a key"))
    reject_if (is_reversed input.valid_from_ms input.valid_until_ms)
        (invalid_input (text "validity interval is reversed"))

module _ (fl : Float32) (to_lowercase deterministic_id : Text → Text) where
  open fl use {F}

  unfoldable pub create_manual :
      Database F → ManualMemoryInput F → Text → Text → Result (Database F × Text) StoreError
  create_manual db input correlation_id fresh = do
    validate_manual fl input
    inserted ← insert_manual_tx fl to_lowercase deterministic_id db fresh input 1
    told ←
        record_event_tx (enqueue_projection_refresh_tx inserted fresh 1 input.now_ms)
          reconciliation_applied correlation_id (some fresh) (some (text "manual_create"))
          input.now_ms
    ok (told, fresh)

  unfoldable pub edit_manual :
      Database F
      → Text
      → ℕ
      → Text
      → ManualMemoryInput F
      → Text
      → Result (Database F × Text) StoreError
  edit_manual db id expected correlation_id input fresh = do
    validate_manual fl input
    status ← ensure_revision db id expected
    reject_if (has_status status forgotten || has_status status rejected)
        (invalid_input (text "memory cannot be edited in its current state"))
    inserted ←
        insert_manual_tx fl to_lowercase deterministic_id db fresh input (saturating_succ expected)
    told ←
        record_event_tx
          (enqueue_projection_refresh_tx
            (relate
              (remove_document
                (record inserted {
                  memories =
                      update_where (λ m. has_id id m && (m.revision == expected))
                        (λ m. record m {
                          status = superseded;
                          revision = m.revision + 1;
                          updated_at = input.now_ms;
                        })
                        inserted.memories;
                })
                id)
              fresh id updates input.now_ms)
            fresh (saturating_succ expected) input.now_ms)
          memory_edited correlation_id (some fresh) (some (text "manual_revision")) input.now_ms
    ok (told, fresh)
