-- ===== src/Store/Plans.antt =====
-- `apply_plan` of crates/mega-store/src/memory_repo.rs: one mutation plan of the reconciliation, as
-- one transaction. `fresh` is the new memory's UUID.
use stalky.Prelude.Int.{ℤ}
use stalky.Prelude.Text.{Text, text, text_eq}
use stalky.Prelude.{
  Bool, List, Option, Result, ℕ, any, err, if◌then◌else◌, none, ok, some, ◌&&◌, ◌++◌, ◌∷◌, [],
  ◌>>=◌, ◌>>◌, leb, ltb, not, reject_if, retain, ◌+◌,
}
use stalky.Model.Floats.{Float32}
use stalky.Model.{MemoryStatus, active, pending_review, rejected, superseded, trust_rank}
use stalky.Reconcile.{MemoryMutationPlan, create, duplicate, extend, ignore, request_review, update}
use stalky.Jobs.{find_row, update_where}
use stalky.Store.{
  Database, RelationType, StoreError, extends, has_id, invalid_plan, is_active, sql, supporting,
  u32_max, updates,
}
use stalky.Store.Writes.{add_source_link, has_source_link}
use stalky.Store.Inserts.{insert_candidate_tx}

-- reconcile.rs of crates/mega-memory
pub record MemoryMutationResult : Type 0 where
  pub memory_id : Option Text
  pub status : MemoryStatus
  pub was_already_applied : Bool

-- `outcome_status`
unfoldable pub outcome_status : Text → MemoryStatus
outcome_status outcome =
    if text_eq outcome (text "request_review")
    then pending_review
    else if text_eq outcome (text "ignore")
    then rejected
    else active

unfoldable pub saturating_succ : ℕ → ℕ
saturating_succ n = if leb u32_max n then u32_max else n + 1

module _ {F : Type 0} where
  -- `INSERT OR IGNORE INTO memory_sources`, for each source of a duplicate.
  unfoldable pub support : Database F → Text → List Text → Result (Database F) StoreError
  support db memory_id [] = ok db
  support db memory_id (id ∷ ids) =
      if has_source_link db memory_id id
      then support db memory_id ids
      else reject_if (not (any (λ e. text_eq e id) db.source_events)) sql
        >> support (add_source_link db memory_id supporting id) memory_id ids

  -- `INSERT INTO memory_relations`. `from` is the id of a memory that was just inserted, so no
  -- constraint refuses the row.
  unfoldable pub relate : Database F → Text → Text → RelationType → ℤ → Database F
  relate db from to relation now = record db {
    memory_relations =
        db.memory_relations
        ++ record {
          from_memory_id = from;
          to_memory_id = to;
          relation_type = relation;
          created_at = now;
        }
          ∷ [];
  }

  -- `DELETE FROM memory_search_documents WHERE memory_id=?1`
  unfoldable pub remove_document : Database F → Text → Database F
  remove_document db id = record db {
    memory_search_documents = retain (λ d. not (text_eq d.memory_id id)) db.memory_search_documents;
  }

  -- `UPDATE memories SET status='superseded', updated_at=?2 WHERE id=?1`, and the search document.
  unfoldable pub supersede : Database F → Text → ℤ → Database F
  supersede db id now =
      remove_document
        (record db {
          memories =
              update_where (has_id id) (λ m. record m { status = superseded; updated_at = now })
                db.memories;
        })
        id

-- What the `match plan` yields, with the tables after it.
pub record Written (F : Type 0) : Type 0 where
  pub tables : Database F
  pub memory_id : Option Text
  pub status : MemoryStatus
  pub outcome : Text
  pub reason : Option Text

module _ (fl : Float32) (to_lowercase deterministic_id : Text → Text) where
  open fl use {F, maximum}

  -- `MemoryMutationPlan::Create` and the plans like it: a new memory.
  abbrev pub written :
      Result (Database F) StoreError
      → Text
      → MemoryStatus
      → Text
      → Option Text
      → Result (Written F) StoreError
  written result id status outcome reason = do
    next ← result
    ok (record {
      tables = next;
      memory_id = some id;
      status = status;
      outcome = outcome;
      reason = reason;
    })

  -- The arms of `match plan`.
  unfoldable pub write_plan :
      Database F → MemoryMutationPlan F → Text → ℤ → Result (Written F) StoreError
  write_plan db (create k c status) fresh now =
      written (insert_candidate_tx fl to_lowercase deterministic_id db fresh c status 1 now) fresh
        status (text "create") none
  write_plan db (duplicate k id source_ids confidence) fresh now =
      elim (find_row (has_id id) db.memories) [
        | none ↦ err (invalid_plan (text "duplicate target is not active"))
        | some m ↦ do
          reject_if (not (is_active m.status))
              (invalid_plan (text "duplicate target is not active"))
          supported ← support db id source_ids
          ok (record {
            tables = record supported {
              memories =
                  update_where (has_id id)
                    (λ r. record r {
                      confidence = maximum r.confidence confidence;
                      revision = r.revision + 1;
                      updated_at = now;
                    })
                    supported.memories;
            };
            memory_id = some id;
            status = active;
            outcome = text "duplicate";
            reason = none;
          })
      ]
  write_plan db (update k id c status) fresh now =
      elim (find_row (λ m. has_id id m && is_active m.status) db.memories) [
        | none ↦ err (invalid_plan (text "update target is not active"))
        | some m ↦ do
          reject_if (ltb u32_max m.revision) sql
          reject_if (ltb (trust_rank c.assertion_mode) (trust_rank m.assertion_mode))
              (invalid_plan (text "lower-trust assertion cannot supersede higher-trust memory"))
          reject_if (not (is_active status))
              (invalid_plan (text "non-active candidate cannot supersede memory"))
          inserted ←
              insert_candidate_tx fl to_lowercase deterministic_id db fresh c status
                (saturating_succ m.revision) now
          ok (record {
            tables = relate (supersede inserted id now) fresh id updates now;
            memory_id = some fresh;
            status = status;
            outcome = text "update";
            reason = none;
          })
      ]
  write_plan db (extend k id c status) fresh now =
      elim (find_row (λ m. has_id id m && is_active m.status) db.memories) [
        | none ↦ err (invalid_plan (text "extend target is not active"))
        | some m ↦ do
          inserted ← insert_candidate_tx fl to_lowercase deterministic_id db fresh c status 1 now
          ok (record {
            tables = relate inserted fresh id extends now;
            memory_id = some fresh;
            status = status;
            outcome = text "extend";
            reason = none;
          })
      ]
  write_plan db (ignore k reason) fresh now = ok (record {
    tables = db;
    memory_id = none;
    status = rejected;
    outcome = text "ignore";
    reason = some reason;
  })
  write_plan db (request_review k c reason) fresh now =
      written (insert_candidate_tx fl to_lowercase deterministic_id db fresh c pending_review 1 now)
        fresh pending_review (text "request_review") (some reason)
