-- ===== src/Store/Inserts.antt =====
-- New memories in crates/mega-store/src/memory_repo.rs: their search documents, the jobs for their
-- projections, and the two inserting functions.
use stalky.Prelude.Int.{ℤ}
use stalky.Prelude.Text.{Text, join_space, text, text_eq}
use stalky.Prelude.{
  List, Option, Result, ℕ, if◌then◌else◌, none, ok, some, ◌&&◌, ◌++◌, ◌∷◌, [], ◌>>=◌, leb, retain,
}
use stalky.Model.Floats.{Float32}
use stalky.Model.{MemoryStatus, MemoryType, ScopeType, Sensitivity, active, manual}
use stalky.Candidate.{MemoryCandidate}
use stalky.Extraction.{normalize_content}
use stalky.Jobs.{find_row}
use stalky.Store.{
  AppLink, AppRow, CategoryLink, CategoryRow, Database, EntityLink, EntityRow, MemoryRow,
  SearchDocument, StoreError, applies_to, has_id, is_active, primary, scope_type_str, source,
  upsert,
}
use stalky.Store.Writes.{
  assign_categories, insert_memory, link_apps, link_sources, resolve_entities, upsert_scope,
}

-- `ManualMemoryInput` of memory_repo.rs.
pub record ManualMemoryInput (F : Type 0) : Type 0 where
  pub content : Text
  pub memory_type : MemoryType
  pub scope_type : ScopeType
  pub scope_key : Text
  pub scope_display_name : Text
  pub category_slugs : List Text
  pub applicable_app_ids : List Text
  pub importance : F
  pub sensitivity : Sensitivity
  pub valid_from_ms : Option ℤ
  pub valid_until_ms : Option ℤ
  pub now_ms : ℤ

-- The texts of the rows that a join finds, in order.
abbrev pub joined : {A B : Type 0} → (A → Option B) → (B → Text) → List A → List Text
joined f g [] = []
joined f g (a ∷ as') = elim (f a) [ none ↦ joined f g as' | some b ↦ g b ∷ joined f g as' ]

module _ {F : Type 0} where
  unfoldable pub document_of : Database F → MemoryRow F → SearchDocument
  document_of db m = record {
    memory_id = m.id;
    display_content = m.display_content;
    category_text = join_space (
        joined (λ (l : CategoryLink). find_row (λ c. text_eq c.id l.category_id) db.categories)
          (λ (c : CategoryRow). c.slug)
          (retain (λ l. text_eq l.memory_id m.id) db.memory_categories));
    entity_text = join_space (
        joined (λ (l : EntityLink). find_row (λ e. text_eq e.id l.entity_id) db.entities)
          (λ (e : EntityRow). e.canonical_name)
          (retain (λ l. text_eq l.memory_id m.id) db.memory_entities));
    app_text = join_space (
        joined (λ (l : AppLink). find_row (λ a. text_eq a.id l.app_id) db.apps)
          (λ (a : AppRow). a.bundle_identifier ++ (32 ∷ a.display_name))
          (retain (λ l. text_eq l.memory_id m.id) db.memory_apps));
  }

  -- `refresh_search_document`: `WHERE m.id=?1 AND m.status='active'`.
  unfoldable pub refresh_search_document : Database F → Text → Database F
  refresh_search_document db id =
      elim (find_row (λ m. has_id id m && is_active m.status) db.memories) [
        | none ↦ db
        | some m ↦
            let d = document_of db m in
            record db {
              memory_search_documents =
                  upsert (λ e. text_eq e.memory_id id) (λ _. d) d db.memory_search_documents;
            }
      ]

  -- One round of the loop of `enqueue_projection_refresh_tx`.
  unfoldable pub enqueue_projection : Database F → Text → Text → ℕ → ℤ → Database F
  enqueue_projection db projection_type key revision now = record db {
    projection_jobs =
        upsert (λ j. text_eq j.projection_type projection_type && text_eq j.projection_key key)
          (λ j. record j {
            source_revision =
                if leb revision j.source_revision then j.source_revision else revision;
            state = text "pending";
            attempts = 0;
            updated_at = now;
          })
          (record {
            projection_type = projection_type;
            projection_key = key;
            source_revision = revision;
            state = text "pending";
            attempts = 0;
            updated_at = now;
          })
          db.projection_jobs;
  }

  unfoldable pub enqueue_projection_refresh_tx : Database F → Text → ℕ → ℤ → Database F
  enqueue_projection_refresh_tx db id revision now =
      enqueue_projection (enqueue_projection db (text "embedding") id revision now) (text "profile")
        id revision now

module _ (fl : Float32) (to_lowercase deterministic_id : Text → Text) where
  open fl use {F, hundredths}

  unfoldable pub scope_id_of : ScopeType → Text → Text
  scope_id_of scope_type key =
      deterministic_id (text "scope:" ++ (scope_type_str scope_type ++ (58 ∷ key)))

  abbrev pub with_scope : Database F → ScopeType → Text → Text → Result (Database F) StoreError
  with_scope db scope_type key display_name = do
    scopes ← upsert_scope (scope_id_of scope_type key) scope_type key display_name db.memory_scopes
    ok (record db { memory_scopes = scopes })

  -- The row that `insert_candidate_tx` inserts.
  abbrev pub row_of_candidate : Text → MemoryCandidate F → MemoryStatus → ℕ → ℤ → MemoryRow F
  row_of_candidate id c status revision now = record {
    id = id;
    normalized_content = to_lowercase (normalize_content c.content);
    display_content = normalize_content c.content;
    memory_type = c.memory_type;
    assertion_mode = c.assertion_mode;
    status = status;
    scope_id = scope_id_of c.scope.scope_type c.scope.scope_key;
    importance = c.importance;
    confidence = c.confidence;
    sensitivity = c.sensitivity;
    valid_from = c.valid_from_ms;
    valid_until = c.valid_until_ms;
    revision = revision;
    created_at = now;
    updated_at = now;
  }

  unfoldable pub insert_candidate_tx :
      Database F → Text → MemoryCandidate F → MemoryStatus → ℕ → ℤ → Result (Database F) StoreError
  insert_candidate_tx db id c status revision now = do
    scoped ← with_scope db c.scope.scope_type c.scope.scope_key c.scope.display_name
    inserted ← insert_memory fl scoped (row_of_candidate id c status revision now)
    sorted ← assign_categories inserted id c.category_slugs
    sourced ← link_apps sorted id source c.source_app_ids
    applied ← link_apps sourced id applies_to c.applicable_app_ids
    supported ← link_sources applied id primary c.supporting_source_event_ids
    resolved ← resolve_entities to_lowercase supported id c.entity_mentions
    ok (if is_active status then refresh_search_document resolved id else resolved)

  abbrev pub row_of_manual : Text → ManualMemoryInput F → ℕ → MemoryRow F
  row_of_manual id input revision = record {
    id = id;
    normalized_content = to_lowercase (normalize_content input.content);
    display_content = normalize_content input.content;
    memory_type = input.memory_type;
    assertion_mode = manual;
    status = active;
    scope_id = scope_id_of input.scope_type input.scope_key;
    importance = input.importance;
    confidence = hundredths 100;
    sensitivity = input.sensitivity;
    valid_from = input.valid_from_ms;
    valid_until = input.valid_until_ms;
    revision = revision;
    created_at = input.now_ms;
    updated_at = input.now_ms;
  }

  unfoldable pub insert_manual_tx :
      Database F → Text → ManualMemoryInput F → ℕ → Result (Database F) StoreError
  insert_manual_tx db id input revision = do
    scoped ← with_scope db input.scope_type input.scope_key input.scope_display_name
    inserted ← insert_memory fl scoped (row_of_manual id input revision)
    sorted ← assign_categories inserted id input.category_slugs
    applied ← link_apps sorted id applies_to input.applicable_app_ids
    ok (refresh_search_document applied id)
