-- ===== src/Store/Writes.antt =====
-- The writes that the transactions of crates/mega-store/src/memory_repo.rs share: a memory with what
-- it is joined to, its search document, and its jobs for the projections. `str::to_lowercase` and
-- `deterministic_id`, a UUID made from a name, are parameters.
use stalky.Prelude.Text.{Text, text, text_eq}
use stalky.Prelude.{
  Bool, List, Result, any, err, if◌then◌else◌, none, ok, same, some, ◌&&◌, ◌++◌, ◌==◌, ◌∷◌, [],
  ◌||◌, retain, not, take, reject_if, ◌>>=◌, ◌>>◌, map,
}
use stalky.Model.Floats.{Float32, in_unit}
use stalky.Model.{EntityRole, MemoryScope, ScopeType}
use stalky.Candidate.{CandidateEntity}
use stalky.Extraction.{is_reversed, normalize_content}
use stalky.Jobs.{find_row}
use stalky.Store.{
  AppRole, AppRole-discrete, CategoryRow, Database, EntityRole-discrete, EntityRow,
  EntityType-discrete, MemoryRow, ScopeType-discrete, StoreError, SupportKind, has_id, sql,
  supporting, unknown_category, upsert,
}

-- `INSERT INTO memory_scopes … ON CONFLICT(scope_type, scope_key) DO UPDATE SET display_name`; the
-- id is the primary key.
unfoldable pub upsert_scope :
    Text → ScopeType → Text → Text → List MemoryScope → Result (List MemoryScope) StoreError
upsert_scope id scope_type scope_key display_name rows =
    let conflicts = λ (s : MemoryScope).
      same ScopeType-discrete s.scope_type scope_type && text_eq s.scope_key scope_key in
    if not (any conflicts rows) && any (λ s. text_eq s.id id) rows
    then err sql
    else ok (
        upsert conflicts (λ s. record s { display_name = display_name })
          (record {
            id = id;
            scope_type = scope_type;
            scope_key = scope_key;
            display_name = display_name;
          })
          rows)

-- The ids of the entities that a mention names, `LIMIT 2`.
unfoldable pub mentioned_ids : {F : Type 0} → Database F → CandidateEntity F → Text → List Text
mentioned_ids db mention normalized = take 2 (
    map (λ e. e.id)
      (retain
        (λ (e : EntityRow).
          same EntityType-discrete e.entity_type mention.entity_type
          && (text_eq e.normalized_name normalized
              || any (λ a. text_eq a.entity_id e.id && text_eq a.normalized_alias normalized)
                  db.entity_aliases))
        db.entities))

-- A memory without categories is uncategorized.
abbrev pub effective_slugs : List Text → List Text
effective_slugs [] = text "uncategorized" ∷ []
effective_slugs (slug ∷ slugs) = slug ∷ slugs

module _ (fl : Float32) where
  open fl use {F, hundredths}

  -- The constraints on a new row of `memories`.
  unfoldable pub insert_memory : Database F → MemoryRow F → Result (Database F) StoreError
  insert_memory db row = do
    reject_if (any (has_id row.id) db.memories) sql
    reject_if (not (any (λ s. text_eq s.id row.scope_id) db.memory_scopes)) sql
    reject_if (not (in_unit fl row.importance && in_unit fl row.confidence)) sql
    reject_if (row.revision == 0 || is_reversed row.valid_from row.valid_until) sql
    ok (record db { memories = db.memories ++ row ∷ [] })

module _ {F : Type 0} where
  -- `INSERT OR IGNORE INTO memory_categories`
  unfoldable pub link_category : Database F → Text → Text → Database F
  link_category db memory_id category_id =
      if any (λ l. text_eq l.memory_id memory_id && text_eq l.category_id category_id)
        db.memory_categories
      then db
      else record db {
        memory_categories =
            db.memory_categories
            ++ record { memory_id = memory_id; category_id = category_id } ∷ [];
      }

  -- The loop of `assign_categories`.
  unfoldable pub link_categories : Database F → Text → List Text → Result (Database F) StoreError
  link_categories db memory_id [] = ok db
  link_categories db memory_id (slug ∷ slugs) =
      elim (find_row (λ (c : CategoryRow). text_eq c.slug slug) db.categories) [
        | none ↦ err (unknown_category slug)
        | some c ↦ link_categories (link_category db memory_id c.id) memory_id slugs
      ]

  unfoldable pub assign_categories : Database F → Text → List Text → Result (Database F) StoreError
  assign_categories db memory_id slugs = link_categories db memory_id (effective_slugs slugs)

  -- A row of `memory_apps` with the same key, and a new one.
  abbrev pub has_app_link : Database F → Text → AppRole → Text → Bool
  has_app_link db memory_id role app_id =
      any
        (λ l.
          text_eq l.memory_id memory_id
          && text_eq l.app_id app_id
          && same AppRole-discrete l.role role)
        db.memory_apps

  abbrev pub add_app_link : Database F → Text → AppRole → Text → Database F
  add_app_link db memory_id role app_id = record db {
    memory_apps =
        db.memory_apps ++ record { memory_id = memory_id; app_id = app_id; role = role } ∷ [];
  }

  -- `INSERT INTO memory_apps`, for each of the ids.
  unfoldable pub link_apps :
      Database F → Text → AppRole → List Text → Result (Database F) StoreError
  link_apps db memory_id role [] = ok db
  link_apps db memory_id role (app_id ∷ app_ids) = do
    reject_if
        (has_app_link db memory_id role app_id || not (any (λ a. text_eq a.id app_id) db.apps)) sql
    link_apps (add_app_link db memory_id role app_id) memory_id role app_ids

  -- A row of `memory_sources` with the same key, and a new one.
  abbrev pub has_source_link : Database F → Text → Text → Bool
  has_source_link db memory_id id =
      any (λ l. text_eq l.memory_id memory_id && text_eq l.source_event_id id) db.memory_sources

  abbrev pub add_source_link : Database F → Text → SupportKind → Text → Database F
  add_source_link db memory_id kind id = record db {
    memory_sources =
        db.memory_sources
        ++ record { memory_id = memory_id; source_event_id = id; support_kind = kind } ∷ [];
  }

  -- `INSERT INTO memory_sources`, for each of the ids; the first one supports the memory primarily.
  unfoldable pub link_sources :
      Database F → Text → SupportKind → List Text → Result (Database F) StoreError
  link_sources db memory_id kind [] = ok db
  link_sources db memory_id kind (id ∷ ids) = do
    reject_if (has_source_link db memory_id id || not (any (λ e. text_eq e id) db.source_events))
        sql
    link_sources (add_source_link db memory_id kind id) memory_id supporting ids

  abbrev pub has_entity_link : Database F → Text → EntityRole → Text → Bool
  has_entity_link db memory_id role id =
      any
        (λ l.
          text_eq l.memory_id memory_id
          && text_eq l.entity_id id
          && same EntityRole-discrete l.role role)
        db.memory_entities

  -- An entity that is the only one of its name.
  unfoldable pub link_entity :
      Database F → Text → EntityRole → List Text → Result (Database F) StoreError
  link_entity db memory_id role (id ∷ []) = do
    reject_if (has_entity_link db memory_id role id) sql
    ok (record db {
      memory_entities =
          db.memory_entities ++ record { memory_id = memory_id; entity_id = id; role = role } ∷ [];
    })
  link_entity db memory_id role _ = ok db

  -- `resolve_candidate_entities`
  unfoldable pub resolve_entities :
      (Text → Text) → Database F → Text → List (CandidateEntity F) → Result (Database F) StoreError
  resolve_entities to_lowercase db memory_id [] = ok db
  resolve_entities to_lowercase db memory_id (mention ∷ mentions) =
      let normalized = to_lowercase (normalize_content mention.mention) in
      link_entity db memory_id mention.role (mentioned_ids db mention normalized) >>= λ next.
      resolve_entities to_lowercase next memory_id mentions
