-- ===== src/Store/Deletes.antt =====
-- `delete_memory` of crates/mega-store/src/memory_repo.rs. A deletion from a table cascades as
-- migrations/0001_memory.sql declares it; the extraction jobs, which go with their segments, are in
-- another model.
use stalky.Prelude.Int.{ℤ}
use stalky.Prelude.Text.{Text, text, text_eq}
use stalky.Prelude.{
  Bool, List, Option, Result, ℕ, any, err, false, if◌then◌else◌, none, ok, same, some, ◌&&◌, ◌==◌,
  ◌∷◌, [], ◌>>=◌, drop, leb, length, ltb, map, not, retain, take, ◌+◌, ◌||◌,
}
use stalky.Model.{MemoryScope, ScopeType, app, forgotten, global, project}
use stalky.Jobs.{memory_deleted, memory_forgotten, update_where}
use stalky.Store.{
  AppRole-discrete, CandidateRow, CategoryLink, Database, MemoryRow, ProfileRow, ScopeType-discrete,
  StoreError, applies_to, has_id, record_event_tx, sql, upsert,
}
use stalky.Store.Plans.{remove_document}
use stalky.Store.Reviews.{ensure_revision, next_revision, remove_embedding}

-- operations_repo.rs
pub data DeleteMode : Type 0 where
  forget permanent : DeleteMode

-- A slug and its descendants: the profile's key, with more after a dot.
unfoldable pub is_under : Text → Text → Bool
is_under slug key =
    text_eq slug key
    || (ltb (length key) (length slug)
        && text_eq (take (length key) slug) key
        && text_eq (take 1 (drop (length key) slug)) (text "."))

abbrev is_scope : ScopeType → MemoryScope → Bool
is_scope t s = same ScopeType-discrete s.scope_type t

-- SQL's `column = value`, false on NULL.
abbrev pub cites : Option Text → Text → Bool
cites none id = false
cites (some cited) id = text_eq cited id

module _ {F : Type 0} where
  -- `EXISTS (SELECT 1 FROM memories m JOIN memory_scopes s …)`
  abbrev in_scope : Database F → Text → (MemoryScope → Bool) → Bool
  in_scope db id p =
      any
        (λ (m : MemoryRow F).
          has_id id m && any (λ s. text_eq s.id m.scope_id && p s) db.memory_scopes)
        db.memories

  -- The `WHERE` of `invalidate_affected_profiles`.
  unfoldable pub is_affected : Database F → Text → ProfileRow → Bool
  is_affected db id p =
      (text_eq p.projection_type (text "global") && in_scope db id (is_scope global))
      || (text_eq p.projection_type (text "app")
          && (in_scope db id (λ s. is_scope app s && text_eq s.scope_key p.projection_key)
              || any
                  (λ l.
                    text_eq l.memory_id id
                    && same AppRole-discrete l.role applies_to
                    && text_eq l.app_id p.projection_key)
                  db.memory_apps))
      || (text_eq p.projection_type (text "project")
          && in_scope db id (λ s. is_scope project s && text_eq s.scope_key p.projection_key))
      || (text_eq p.projection_type (text "category")
          && any
              (λ (l : CategoryLink).
                text_eq l.memory_id id
                && any (λ c. text_eq c.id l.category_id && is_under c.slug p.projection_key)
                    db.categories)
              db.memory_categories)
      || (text_eq p.projection_type (text "entity")
          && any (λ l. text_eq l.memory_id id && text_eq l.entity_id p.projection_key)
              db.memory_entities)

  unfoldable pub invalidate_affected_profiles : Database F → Text → Database F
  invalidate_affected_profiles db id = record db {
    memory_profiles = retain (λ p. not (is_affected db id p)) db.memory_profiles;
  }

  unfoldable pub remove_rebuildable_projections : Database F → Text → Database F
  remove_rebuildable_projections db id =
      let left = invalidate_affected_profiles (remove_embedding (remove_document db id) id) id in
      record left {
        projection_jobs = retain (λ j. not (text_eq j.projection_key id)) left.projection_jobs;
      }

  -- `DELETE FROM memories WHERE id = ?1`
  unfoldable pub delete_row : Database F → Text → Database F
  delete_row db id =
      let left = remove_embedding (remove_document db id) id in
      record left {
        memories = retain (λ m. not (has_id id m)) left.memories;
        memory_categories = retain (λ l. not (text_eq l.memory_id id)) left.memory_categories;
        memory_apps = retain (λ l. not (text_eq l.memory_id id)) left.memory_apps;
        memory_sources = retain (λ l. not (text_eq l.memory_id id)) left.memory_sources;
        memory_entities = retain (λ l. not (text_eq l.memory_id id)) left.memory_entities;
        memory_relations =
            retain (λ l. not (text_eq l.from_memory_id id || text_eq l.to_memory_id id))
              left.memory_relations;
        extraction_candidates =
            update_where (λ (c : CandidateRow). cites c.memory_id id)
              (λ c. record c { memory_id = none }) left.extraction_candidates;
      }

  -- The loop over the sources: one that supports no memory any more is deleted. An alias that cites
  -- it holds it.
  unfoldable pub delete_sources : Database F → List Text → Result (Database F) StoreError
  delete_sources db [] = ok db
  delete_sources db (id ∷ ids) =
      if any (λ l. text_eq l.source_event_id id) db.memory_sources
      then delete_sources db ids
      else if any (λ e. text_eq e id) db.source_events
          && any (λ a. cites a.source_event_id id) db.entity_aliases
      then err sql
      else delete_sources
          (record db {
            activity_segment_sources =
                retain (λ l. not (text_eq l.source_event_id id)) db.activity_segment_sources;
            source_events = retain (λ e. not (text_eq e id)) db.source_events;
          })
          ids

  -- `DELETE FROM activity_segments WHERE NOT EXISTS (…)`
  unfoldable pub delete_empty_segments : Database F → Database F
  delete_empty_segments db = record db {
    activity_segments =
        retain (λ s. any (λ l. text_eq l.segment_id s) db.activity_segment_sources)
          db.activity_segments;
  }

  unfoldable pub bury : Database F → Text → ℕ → ℤ → Database F
  bury db id revision now = record db {
    memory_tombstones =
        upsert (λ t. text_eq t.memory_id id)
          (λ t. record t {
            revision = if leb revision t.revision then t.revision else revision;
            deleted_at = now;
          })
          (record { memory_id = id; revision = revision; deleted_at = now }) db.memory_tombstones;
  }

  unfoldable pub delete_memory :
      Database F → Text → ℕ → DeleteMode → Text → ℤ → Result (Database F) StoreError
  delete_memory db id expected forget correlation_id now = do
    _ ← ensure_revision db id expected
    record_event_tx
        (remove_rebuildable_projections
          (record db {
            memories =
                update_where (λ m. has_id id m && (m.revision == expected))
                  (λ m. record m {
                    status = forgotten;
                    updated_at = now;
                    revision = m.revision + 1;
                  })
                  db.memories;
          })
          id)
        memory_forgotten correlation_id (some id) (some (text "forgotten")) now
  delete_memory db id expected permanent correlation_id now = do
    _ ← ensure_revision db id expected
    left ←
        delete_sources (delete_row (invalidate_affected_profiles db id) id)
          (map (λ l. l.source_event_id) (retain (λ l. text_eq l.memory_id id) db.memory_sources))
    record_event_tx (bury (delete_empty_segments left) id (next_revision expected) now)
        memory_deleted correlation_id (some id) (some (text "permanent")) now
