-- ===== src/Store/Search.antt =====
-- Reading memories back in crates/mega-store/src/memory_repo.rs: `get_memory`, `search` and what they
-- stand on. The full-text index, `LIKE` and `ORDER BY` are SQLite's.
use Prim.Native.Nat.{Ordering}
use stalky.Prelude.Int.{leb_ℤ, ℤ}
use stalky.Prelude.Text.{Text, is_blank, split_whitespace, text, text_eq}
use stalky.Prelude.Orders.{IsOrder, IsSorted, cmp_text}
use stalky.Prelude.Comparisons.{cmp_ℤ}
use stalky.Prelude.{
  All, Bool, List, Option, Result, any, false, if◌then◌else◌, leb, length, ltb, map, none, not, ok,
  reject_if, retain, same, some, take, true, ℕ, ◌&&◌, ◌++◌, ◌>>◌, ◌||◌, ◌∷◌, [],
}
use stalky.Model.{
  EntityReference, Memory, MemoryScope, MemoryStatus, MemoryStatus-discrete, MemoryType,
  MemoryType-discrete, ScopeType, forgotten, pending_review, rejected,
}
use stalky.Extraction.{is_reversed}
use stalky.Jobs.{find_row}
use stalky.Retrieval.{is_some_and}
use stalky.Retrieval.Render.{replace_char}
use stalky.Store.{
  AppLink, AppRole, AppRole-discrete, CategoryLink, CategoryRow, Database, EntityLink, MemoryRow,
  ScopeType-discrete, SearchDocument, StoreError, applies_to, has_id, invalid_input, is_active,
  source, sql, u32_max,
}
use stalky.Store.Inserts.{joined}

-- What SQLite does, as it is documented.
pub record Sqlite : Type 1 where
  -- `MATCH` of a query and a row of `memories_fts`.
  pub matches : Text → SearchDocument → Bool
  -- `LIKE` of a value and a pattern.
  pub like : Text → Text → Bool
  -- `ORDER BY`: rows that compare as equal come in an order of its own.
  pub order_by : {A : Type 0} → (A → A → Ordering) → List A → List A
  pub order_by-All :
      {A : Type 0} (cmp : A → A → Ordering) (P : A → Type 0) (rows : List A)
      → All P rows
      → All P (order_by cmp rows)
  pub order_by-IsSorted :
      {A : Type 0} (cmp : A → A → Ordering)
      → IsOrder cmp
      → (rows : List A) → IsSorted cmp (order_by cmp rows)

-- `Any` and `AppliesTo`.
pub data MemoryAppFilterRole : Type 0 where
  any_role applies_to_role : MemoryAppFilterRole

pub record MemorySearchFilter : Type 0 where
  pub query : Option Text
  pub app_id : Option Text
  pub app_role : MemoryAppFilterRole
  pub category_slug : Option Text
  pub scope_type : Option ScopeType
  pub scope_key : Option Text
  pub entity_id : Option Text
  pub memory_type : Option MemoryType
  pub status : Option MemoryStatus
  pub include_history : Bool
  pub from_ms : Option ℤ
  pub until_ms : Option ℤ
  pub limit : ℕ

-- `MemorySearchFilter::default()`
abbrev pub default_filter : MemorySearchFilter
default_filter = record {
  query = none;
  app_id = none;
  app_role = any_role;
  category_slug = none;
  scope_type = none;
  scope_key = none;
  entity_id = none;
  memory_type = none;
  status = none;
  include_history = false;
  from_ms = none;
  until_ms = none;
  limit = 0;
}

-- A clause that is left out, or a test of what is given.
abbrev pub is_none_or : {A : Type 0} → Option A → (A → Bool) → Bool
is_none_or none p = true
is_none_or (some a) p = p a

abbrev invalid_query : StoreError
invalid_query = invalid_input (text "memory search query must be 1..=500 characters")

unfoldable pub validate : MemorySearchFilter → Result (Unit {0}) StoreError
validate filter = do
  reject_if (not (leb 1 filter.limit && leb filter.limit 200))
      (invalid_input (text "memory search limit must be 1..=200"))
  reject_if (is_some_and filter.query (λ q. is_blank q || ltb 500 (length q))) invalid_query
  reject_if (is_reversed filter.from_ms filter.until_ms)
      (invalid_input (text "memory search date range is reversed"))

-- `[String]::join(" AND ")`
abbrev join_and : List Text → Text
join_and [] = []
join_and (w ∷ []) = w
join_and (w ∷ v ∷ ws) = w ++ text " AND " ++ join_and (v ∷ ws)

unfoldable pub fts_literal_query : Text → Text
fts_literal_query input =
    join_and (
      map (λ token. 34 ∷ replace_char 34 (text "\"\"") token ++ (34 ∷ [])) (split_whitespace input))

-- The first clause: the status, or what is not hidden, or what is active.
unfoldable pub status_allows : MemorySearchFilter → MemoryStatus → Bool
status_allows filter status = elim filter.status [
  | some wanted ↦ same MemoryStatus-discrete status wanted
  | none ↦
      if filter.include_history
      then not (
          same MemoryStatus-discrete status rejected
          || same MemoryStatus-discrete status forgotten
          || same MemoryStatus-discrete status pending_review)
      else is_active status
]

unfoldable pub role_allows : MemoryAppFilterRole → AppRole → Bool
role_allows any_role role = true
role_allows applies_to_role role = same AppRole-discrete role applies_to

-- `RawMemory`: a row of `BASE_MEMORY_SELECT`, a memory joined to its scope.
pub record RawMemory (F : Type 0) : Type 0 where
  pub row : MemoryRow F
  pub scope : MemoryScope

module _ {F : Type 0} where
  -- `BASE_MEMORY_SELECT`
  unfoldable pub base_memory_select : Database F → List (MemoryRow F) → List (RawMemory F)
  base_memory_select db [] = []
  base_memory_select db (m ∷ ms) =
      let rest = base_memory_select db ms in
      elim (find_row (λ s. text_eq s.id m.scope_id) db.memory_scopes) [
        | none ↦ rest
        | some s ↦ record { row = m; scope = s } ∷ rest
      ]

  -- `row.get` refuses a revision that is no `u32`.
  abbrev pub is_unreadable : RawMemory F → Bool
  is_unreadable raw = ltb u32_max raw.row.revision

  abbrev pub newest_first : RawMemory F → RawMemory F → Ordering
  newest_first a b = cmp_ℤ b.row.updated_at a.row.updated_at

module _ (sqlite : Sqlite) {F : Type 0} where
  open sqlite use {matches, like, order_by}

  -- `hydrate_memory`; the names of the enumerations stand for themselves, so no parser fails.
  unfoldable pub hydrate_memory : Database F → RawMemory F → Memory F
  hydrate_memory db raw =
      let m = raw.row in
      record {
        id = m.id;
        normalized_content = m.normalized_content;
        display_content = m.display_content;
        memory_type = m.memory_type;
        assertion_mode = m.assertion_mode;
        status = m.status;
        scope = raw.scope;
        source_app_ids = order_by cmp_text (
            map (λ (l : AppLink). l.app_id)
              (retain (λ l. text_eq l.memory_id m.id && same AppRole-discrete l.role source)
                db.memory_apps));
        applicable_app_ids = order_by cmp_text (
            map (λ (l : AppLink). l.app_id)
              (retain (λ l. text_eq l.memory_id m.id && same AppRole-discrete l.role applies_to)
                db.memory_apps));
        category_slugs = order_by cmp_text (
            joined (λ (l : CategoryLink). find_row (λ c. text_eq c.id l.category_id) db.categories)
              (λ (c : CategoryRow). c.slug)
              (retain (λ l. text_eq l.memory_id m.id) db.memory_categories));
        entities =
            order_by (λ a b. cmp_text a.canonical_name b.canonical_name)
              (references db (retain (λ l. text_eq l.memory_id m.id) db.memory_entities));
        source_event_ids = order_by cmp_text (
            map (λ l. l.source_event_id)
              (retain (λ l. text_eq l.memory_id m.id) db.memory_sources));
        importance = m.importance;
        confidence = m.confidence;
        sensitivity = m.sensitivity;
        valid_from_ms = m.valid_from;
        valid_until_ms = m.valid_until;
        created_at_ms = m.created_at;
        updated_at_ms = m.updated_at;
        revision = m.revision;
      }
    where
      references : Database F → List EntityLink → List EntityReference
      references db [] = []
      references db (l ∷ ls) = elim (find_row (λ e. text_eq e.id l.entity_id) db.entities) [
        | none ↦ references db ls
        | some e ↦
            record { entity_id = e.id; canonical_name = e.canonical_name; role = l.role }
            ∷ references db ls
      ]

  unfoldable get_memory : Database F → Text → Result (Option (Memory F)) StoreError
  get_memory db id =
      elim (find_row (λ (r : RawMemory F). has_id id r.row) (base_memory_select db db.memories)) [
        | none ↦ ok none
        | some raw ↦ do reject_if (is_unreadable raw) sql; ok (some (hydrate_memory db raw))
      ]

  -- The text search finds a document of the memory, which has the memory's row id.
  unfoldable pub is_found : Database F → Text → Text → Bool
  is_found db query id =
      any (λ d. text_eq d.memory_id id && matches (fts_literal_query query) d)
        db.memory_search_documents

  -- `categories.slug` is the wanted one or below it.
  abbrev is_in_category : Database F → Text → Text → Bool
  is_in_category db category id =
      any
        (λ l.
          text_eq l.memory_id id
          && any
              (λ c.
                text_eq c.id l.category_id
                && (text_eq c.slug category || like c.slug (category ++ text ".%")))
              db.categories)
        db.memory_categories

  -- The `WHERE` of the search.
  unfoldable pub is_selected : Database F → MemorySearchFilter → RawMemory F → Bool
  is_selected db filter raw =
      let m = raw.row in
      status_allows filter m.status
      && is_none_or filter.query (λ q. is_found db q m.id)
      && is_none_or filter.app_id (λ a.
        any
          (λ l.
            text_eq l.memory_id m.id && text_eq l.app_id a && role_allows filter.app_role l.role)
          db.memory_apps)
      && is_none_or filter.category_slug (λ c. is_in_category db c m.id)
      && is_none_or filter.scope_type (λ t. same ScopeType-discrete raw.scope.scope_type t)
      && is_none_or filter.scope_key (λ k. text_eq raw.scope.scope_key k)
      && is_none_or filter.entity_id
          (λ e. any (λ l. text_eq l.memory_id m.id && text_eq l.entity_id e) db.memory_entities)
      && is_none_or filter.memory_type (λ t. same MemoryType-discrete m.memory_type t)
      && is_none_or filter.from_ms (λ t. leb_ℤ t m.updated_at)
      && is_none_or filter.until_ms (λ t. leb_ℤ m.updated_at t)

  -- The rows that the search reads.
  unfoldable pub search_rows : Database F → MemorySearchFilter → List (RawMemory F)
  search_rows db filter =
      take filter.limit
        (order_by newest_first (retain (is_selected db filter) (base_memory_select db db.memories)))

  unfoldable pub search : Database F → MemorySearchFilter → Result (List (Memory F)) StoreError
  search db filter = do
    validate filter
    reject_if (any is_unreadable (search_rows db filter)) sql
    ok (map (hydrate_memory db) (search_rows db filter))
