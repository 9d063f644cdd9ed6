-- ===== src/Store/Wanted.antt =====
-- Which stored rows `assemble_context` of crates/mega-store/src/context_repo.rs searches for.
use stalky.Prelude.Text.{Text, is_blank, text_eq, text_eq_iff}
use stalky.Prelude.{
  Bool, List, In, In-any, any, arith, false, if◌then◌else◌, inl, inr, not, refl, same, same→eq,
  some, subst, sym, take, true, ◌&&◌, ◌||◌, ◌≡◌, ◌≢◌, ◌⊎◌,
}
use stalky.Model.{
  HistoricalMode, Memory, MemoryStatus, MemoryStatus-discrete, active, active_only, app, forgotten,
  global, include_history, pending_review, project, rejected,
}
use stalky.Retrieval.{MemoryContextRequest}
use stalky.Store.{
  AppLink, AppRole-discrete, Database, EntityLink, ScopeType-discrete, SearchDocument, applies_to,
  is_active,
}
use stalky.Store.Context.{
  app_filter, applies_filter, entity_filter, global_filter, includes_history, project_filter,
  query_filter,
}
use stalky.Store.Found.{IsFound, IsJoined}
use stalky.Store.Search.{
  MemorySearchFilter, RawMemory, Sqlite, fts_literal_query, hydrate_memory, is_found, is_selected,
  role_allows, status_allows,
}

-- A memory that is active, or, if the request asks for the history, one that is not hidden.
abbrev pub IsShown : HistoricalMode → MemoryStatus → Type 0
IsShown mode s =
    (s ≡ active)
    ⊎ ((mode ≡ include_history) × (s ≢ rejected) × (s ≢ forgotten) × (s ≢ pending_review))

shown-IsShown :
    (mode : HistoricalMode) (s : MemoryStatus)
    → (if includes_history mode
        then not (
            same MemoryStatus-discrete s rejected
            || same MemoryStatus-discrete s forgotten
            || same MemoryStatus-discrete s pending_review)
        else is_active s)
      ≡ true
    → IsShown mode s
unfolding MemoryStatus-discrete
shown-IsShown active_only s h = inl (same→eq MemoryStatus-discrete s active (ground (arith, h)))
shown-IsShown include_history s h =
    inr (
      refl,
      λ e. let k = rw e at h in cc,
      λ e. let k = rw e at h in cc,
      λ e. let k = rw e at h in cc,
    )

-- A member that passes two tests.
In-both :
    {A : Type 0} (p q : A → Bool) (xs : List A)
    → any (λ x. p x && q x) xs ≡ true
    → (x : A) × In x xs × (p x ≡ true) × (q x ≡ true)
In-both p q xs h =
    let (x, i, k) = In-any (λ x. p x && q x) xs h in (x, i, ground (arith, k), ground (arith, k))

module _ (sqlite : Sqlite) {F : Type 0} (db : Database F) (request : MemoryContextRequest) where
  -- What a request wants of a stored memory and its scope: its active project, the app in use, one of
  -- the first 20 entities it mentions, everything global, or what its text finds.
  pub data IsWanted (raw : RawMemory F) : Type 0 where
    of_project :
        (key : Text)
        → request.active_project_key ≡ some key
        → raw.scope.scope_type ≡ project
        → raw.scope.scope_key ≡ key
        → IsWanted raw
    applies_to_app :
        (id : Text) (l : AppLink)
        → request.current_app_id ≡ some id
        → In l db.memory_apps
        → l.memory_id ≡ raw.row.id
        → l.app_id ≡ id
        → l.role ≡ applies_to
        → IsWanted raw
    of_app :
        (id : Text)
        → request.current_app_id ≡ some id
        → raw.scope.scope_type ≡ app
        → raw.scope.scope_key ≡ id
        → IsWanted raw
    of_entity :
        (l : EntityLink)
        → In l.entity_id (take 20 request.mentioned_entity_ids)
        → In l db.memory_entities
        → l.memory_id ≡ raw.row.id
        → IsWanted raw
    of_all : raw.scope.scope_type ≡ global → IsWanted raw
    of_text :
        (d : SearchDocument)
        → is_blank request.query_text ≡ false
        → In d db.memory_search_documents
        → d.memory_id ≡ raw.row.id
        → sqlite.matches (fts_literal_query request.query_text) d ≡ true
        → IsWanted raw

  -- A memory that is read from a stored row, joined to its stored scope, which the request wants and
  -- may be shown.
  pub record IsStored (memory : Memory F) : Type 0 where
    pub raw : RawMemory F
    pub is_stored : In raw.row db.memories
    pub is_joined : IsJoined db raw
    pub is_shown : IsShown request.historical_mode raw.row.status
    pub is_wanted : IsWanted raw
    pub is_read : hydrate_memory sqlite db raw ≡ memory

  -- A filter that selects only what the request wants.
  abbrev pub Wants : MemorySearchFilter → Type 0
  Wants filter =
      (raw : RawMemory F)
      → is_selected sqlite db filter raw ≡ true
      → IsShown request.historical_mode raw.row.status × IsWanted raw

  pub project_filter-Wants :
      (key : Text) → request.active_project_key ≡ some key → Wants (project_filter request key)
  unfolding is_selected status_allows
  project_filter-Wants key e raw h = (
    shown-IsShown request.historical_mode raw.row.status (ground (arith, h)),
    of_project key e (same→eq ScopeType-discrete raw.scope.scope_type project (ground (arith, h)))
        ((text_eq_iff raw.scope.scope_key key).0 (ground (arith, h))),
  )

  linked-IsWanted :
      (id : Text) (l : AppLink) (raw : RawMemory F)
      → request.current_app_id ≡ some id
      → In l db.memory_apps
      → l.memory_id ≡ raw.row.id
      → (text_eq l.app_id id && same AppRole-discrete l.role applies_to) ≡ true
      → IsWanted raw
  linked-IsWanted id l raw e i k h =
      applies_to_app id l e i k ((text_eq_iff l.app_id id).0 (ground (arith, h)))
        (same→eq AppRole-discrete l.role applies_to (ground (arith, h)))

  pub applies_filter-Wants :
      (id : Text) → request.current_app_id ≡ some id → Wants (applies_filter request id)
  unfolding is_selected status_allows role_allows
  applies_filter-Wants id e raw h =
      let (l, i, of_memory, rest) =
        In-both (λ (l : AppLink). text_eq l.memory_id raw.row.id)
          (λ l. text_eq l.app_id id && same AppRole-discrete l.role applies_to) db.memory_apps
          (ground (arith, h)) in
      (
        shown-IsShown request.historical_mode raw.row.status (ground (arith, h)),
        linked-IsWanted id l raw e i ((text_eq_iff l.memory_id raw.row.id).0 of_memory) rest,
      )

  pub app_filter-Wants :
      (id : Text) → request.current_app_id ≡ some id → Wants (app_filter request id)
  unfolding is_selected status_allows
  app_filter-Wants id e raw h = (
    shown-IsShown request.historical_mode raw.row.status (ground (arith, h)),
    of_app id e (same→eq ScopeType-discrete raw.scope.scope_type app (ground (arith, h)))
        ((text_eq_iff raw.scope.scope_key id).0 (ground (arith, h))),
  )

  pub entity_filter-Wants :
      (id : Text) → In id (take 20 request.mentioned_entity_ids) → Wants (entity_filter request id)
  unfolding is_selected status_allows
  entity_filter-Wants id i raw h =
      let (l, j, of_memory, of_id) =
        In-both (λ (l : EntityLink). text_eq l.memory_id raw.row.id) (λ l. text_eq l.entity_id id)
          db.memory_entities (ground (arith, h)) in
      (
        shown-IsShown request.historical_mode raw.row.status (ground (arith, h)),
        of_entity l
            (subst (λ x. In x (take 20 request.mentioned_entity_ids))
              (sym ((text_eq_iff l.entity_id id).0 of_id)) i)
            j ((text_eq_iff l.memory_id raw.row.id).0 of_memory),
      )

  pub global_filter-Wants : Wants (global_filter request)
  unfolding is_selected status_allows
  global_filter-Wants raw h = (
    shown-IsShown request.historical_mode raw.row.status (ground (arith, h)),
    of_all (same→eq ScopeType-discrete raw.scope.scope_type global (ground (arith, h))),
  )

  pub query_filter-Wants : is_blank request.query_text ≡ false → Wants (query_filter request)
  unfolding is_selected status_allows is_found
  query_filter-Wants e raw h =
      let (d, i, of_memory, matched) =
        In-both (λ (d : SearchDocument). text_eq d.memory_id raw.row.id)
          (λ d. sqlite.matches (fts_literal_query request.query_text) d) db.memory_search_documents
          (ground (arith, h)) in
      (
        shown-IsShown request.historical_mode raw.row.status (ground (arith, h)),
        of_text d e i ((text_eq_iff d.memory_id raw.row.id).0 of_memory) matched,
      )

  pub IsFound-IsStored :
      (filter : MemorySearchFilter)
      → Wants filter
      → (m : Memory F) → IsFound sqlite db filter m
      → IsStored m
  IsFound-IsStored filter w m f =
      let (shown, wanted) = w f.raw f.is_selected_row in
      record {
        raw = f.raw;
        is_stored = f.is_stored;
        is_joined = f.is_joined;
        is_shown = shown;
        is_wanted = wanted;
        is_read = f.is_read;
      }
