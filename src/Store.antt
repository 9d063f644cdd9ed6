-- ===== src/Store.antt =====
-- crates/mega-store/src/memory_repo.rs, and the review of pending memories in operations_repo.rs
-- beside it: the tables of memories and what the transactions do to them. A table is the list of its
-- rows, in the order of insertion. A refused constraint of migrations/0001_memory.sql is the error
-- `sql`; a transaction that fails leaves the tables as they were. Enumerations stand for the names
-- under which they are stored. `F` is `f32`.

pub mod Applies
pub mod Assembled
pub mod Assemblies
pub mod Checks
pub mod Context
pub mod Deletes
pub mod Effects
pub mod Erasures
pub mod Evidence
pub mod Found
pub mod Histories
pub mod Index
pub mod Inputs
pub mod Insertions
pub mod Inserts
pub mod Keys
pub mod LongQueries
pub mod Plans
pub mod Refusals
pub mod Replays
pub mod Shown
pub mod Reviews
pub mod Search
mod ContextTests
mod Tests
pub mod Transactions
pub mod Wanted
pub mod Writes
pub mod Written
use stalky.Prelude.Int.{ℤ}
use stalky.Prelude.Text.{Text, text, text_eq}
use stalky.Prelude.{
  Bool, List, Option, Result, ℕ, any, err, false, if◌then◌else◌, none, ok, same, some, true, ◌&&◌,
  ◌++◌, ◌==◌, ◌∷◌, [], length, ltb, ◌||◌, retain, not,
}
use stalky.Prelude.Text.{is_blank}
use stalky.Model.{
  AssertionMode, EntityRole, EntityType, MemoryScope, MemoryStatus, MemoryStatus-discrete,
  MemoryType, ScopeType, Sensitivity, active,
}
use stalky.Model.{app, entity, global, project}
use stalky.Jobs.{MemoryEventType}

pub data StoreError : Type 0 where
  invalid_input : Text → StoreError
  not_found : StoreError
  unknown_category : Text → StoreError
  invariant : Text → StoreError
  invalid_plan : Text → StoreError
  revision_conflict : ℕ → ℕ → StoreError
  sql : StoreError

pub record MemoryRow (F : Type 0) : Type 0 where
  pub id : Text
  pub normalized_content : Text
  pub display_content : Text
  pub memory_type : MemoryType
  pub assertion_mode : AssertionMode
  pub status : MemoryStatus
  pub scope_id : Text
  pub importance : F
  pub confidence : F
  pub sensitivity : Sensitivity
  pub valid_from : Option ℤ
  pub valid_until : Option ℤ
  pub revision : ℕ
  pub created_at : ℤ
  pub updated_at : ℤ

pub record CategoryRow : Type 0 where
  pub id : Text
  pub slug : Text

pub record AppRow : Type 0 where
  pub id : Text
  pub bundle_identifier : Text
  pub display_name : Text

pub record EntityRow : Type 0 where
  pub id : Text
  pub entity_type : EntityType
  pub canonical_name : Text
  pub normalized_name : Text

pub record AliasRow : Type 0 where
  pub entity_id : Text
  pub normalized_alias : Text
  pub source_event_id : Option Text

pub data AppRole : Type 0 where
  source applies_to : AppRole

pub data SupportKind : Type 0 where
  primary supporting : SupportKind

pub data RelationType : Type 0 where
  updates extends : RelationType

unfoldable pub AppRole-discrete : Discrete AppRole
AppRole-discrete = hlevel

unfoldable pub EntityRole-discrete : Discrete EntityRole
EntityRole-discrete = hlevel

unfoldable pub EntityType-discrete : Discrete EntityType
EntityType-discrete = hlevel

unfoldable pub ScopeType-discrete : Discrete ScopeType
ScopeType-discrete = hlevel

-- The tables that join a memory to something else, by the memory's id.
pub record CategoryLink : Type 0 where
  pub memory_id : Text
  pub category_id : Text

pub record AppLink : Type 0 where
  pub memory_id : Text
  pub app_id : Text
  pub role : AppRole

pub record SourceLink : Type 0 where
  pub memory_id : Text
  pub source_event_id : Text
  pub support_kind : SupportKind

pub record EntityLink : Type 0 where
  pub memory_id : Text
  pub entity_id : Text
  pub role : EntityRole

pub record RelationRow : Type 0 where
  pub from_memory_id : Text
  pub to_memory_id : Text
  pub relation_type : RelationType
  pub created_at : ℤ

pub record SearchDocument : Type 0 where
  pub memory_id : Text
  pub display_content : Text
  pub category_text : Text
  pub entity_text : Text
  pub app_text : Text

pub record CandidateRow : Type 0 where
  pub extraction_run_id : Text
  pub candidate_index : ℕ
  pub outcome : Text
  pub memory_id : Option Text
  pub audit_reason : Option Text
  pub created_at : ℤ
  pub expires_at : Option ℤ

pub record ProjectionJob : Type 0 where
  pub projection_type : Text
  pub projection_key : Text
  pub source_revision : ℕ
  pub state : Text
  pub attempts : ℕ
  pub updated_at : ℤ

pub record MemoryEventRow : Type 0 where
  pub event_type : MemoryEventType
  pub correlation_id : Text
  pub memory_id : Option Text
  pub segment_id : Option Text
  pub outcome : Option Text
  pub occurred_at : ℤ

-- `projection_type` is a scope's name or `category`.
pub record ProfileRow : Type 0 where
  pub projection_type : Text
  pub projection_key : Text

pub record SegmentSource : Type 0 where
  pub segment_id : Text
  pub source_event_id : Text

pub record Tombstone : Type 0 where
  pub memory_id : Text
  pub revision : ℕ
  pub deleted_at : ℤ

-- The tables that the transactions below read or write. Of source events, segments and
-- embeddings only the ids count.
pub record Database (F : Type 0) : Type 0 where
  pub memories : List (MemoryRow F)
  pub memory_scopes : List MemoryScope
  pub categories : List CategoryRow
  pub apps : List AppRow
  pub source_events : List Text
  pub entities : List EntityRow
  pub entity_aliases : List AliasRow
  pub memory_categories : List CategoryLink
  pub memory_apps : List AppLink
  pub memory_sources : List SourceLink
  pub memory_entities : List EntityLink
  pub memory_relations : List RelationRow
  pub memory_search_documents : List SearchDocument
  pub memory_embeddings : List Text
  pub extraction_candidates : List CandidateRow
  pub projection_jobs : List ProjectionJob
  pub memory_events : List MemoryEventRow
  pub memory_profiles : List ProfileRow
  pub activity_segments : List Text
  pub activity_segment_sources : List SegmentSource
  pub memory_tombstones : List Tombstone

-- `WHERE id=?1`
abbrev pub has_id : {F : Type 0} → Text → MemoryRow F → Bool
has_id id m = text_eq m.id id

abbrev pub is_active : MemoryStatus → Bool
is_active s = same MemoryStatus-discrete s active

-- `scope_type_str`
unfoldable pub scope_type_str : ScopeType → Text
scope_type_str global = text "global"
scope_type_str app = text "app"
scope_type_str project = text "project"
scope_type_str entity = text "entity"

-- `INSERT … ON CONFLICT DO UPDATE`: the rows that conflict are updated, or the row is added.
abbrev pub upsert : {A : Type 0} → (A → Bool) → (A → A) → A → List A → List A
upsert conflicts update row [] = row ∷ []
upsert conflicts update row (r ∷ rs) =
    if conflicts r then update r ∷ rs else r ∷ upsert conflicts update row rs

abbrev pub u32_max : ℕ
u32_max = 4294967295

module _ {F : Type 0} where
  -- `record_event_tx` of operations_repo.rs.
  unfoldable pub record_event_tx :
      Database F
      → MemoryEventType
      → Text
      → Option Text
      → Option Text
      → ℤ
      → Result (Database F) StoreError
  record_event_tx db event_type correlation_id memory_id outcome now =
      if is_blank correlation_id || ltb 128 (length correlation_id)
      then err (invalid_input (text "invalid correlation ID"))
      else ok (record db {
        memory_events =
            db.memory_events
            ++ record {
              event_type = event_type;
              correlation_id = correlation_id;
              memory_id = memory_id;
              segment_id = none;
              outcome = outcome;
              occurred_at = now;
            }
              ∷ [];
      })
