-- ===== src/Store/Insertions.antt =====
-- A memory that is inserted by crates/mega-store/src/memory_repo.rs: the tables before its search
-- document is made.
use stalky.Prelude.Int.{ℤ}
use stalky.Prelude.Text.{Text}
use stalky.Prelude.{
  any, false, sym, ◌++◌, ◌∷◌, [], subst, List, Result, ℕ, arith, bind-ok, if◌then◌else◌, ok,
  ok-injective, ◌>>=◌, ◌∙◌, ◌∷◌, ◌≡◌, [],
}
use stalky.Model.Floats.{Float32}
use stalky.Model.{MemoryScope, MemoryStatus, ScopeType}
use stalky.Candidate.{MemoryCandidate}
use stalky.Store.{Database, MemoryRow, StoreError, has_id, is_active, source, applies_to, primary}
use stalky.Store.Writes.{
  assign_categories, insert_memory, link_apps, link_sources, resolve_entities, upsert_scope,
}
use stalky.Store.Inserts.{
  insert_candidate_tx, refresh_search_document, row_of_candidate, scope_id_of, with_scope,
}
use stalky.Store.Inserts.{ManualMemoryInput, insert_manual_tx, row_of_manual}
use stalky.Store.Effects.{
  Keeps-trans, Keeps, link_apps-Keeps, assign_categories-Keeps, link_sources-Keeps,
  resolve_entities-Keeps,
}

module _ {F : Type 0} where
  -- The tables with a new memory and its links.
  pub record IsInserted (db : Database F) (row : MemoryRow F) (db' : Database F) : Type 0 where
    pub memory_added : db'.memories ≡ db.memories ++ row ∷ []
    pub is_fresh : any (has_id row.id) db.memories ≡ false
    pub documents_kept : db'.memory_search_documents ≡ db.memory_search_documents
    pub sources_kept : db'.source_events ≡ db.source_events
    pub apps_kept : db'.apps ≡ db.apps
    pub categories_kept : db'.categories ≡ db.categories
    pub candidates_kept : db'.extraction_candidates ≡ db.extraction_candidates

  linked-IsInserted :
      (db a b : Database F) (row : MemoryRow F)
      → IsInserted db row a
      → Keeps a b
      → IsInserted db row b
  linked-IsInserted db a b row i k = record {
    memory_added = k.memories_kept ∙ i.memory_added;
    is_fresh = i.is_fresh;
    documents_kept = k.documents_kept ∙ i.documents_kept;
    sources_kept = k.sources_kept ∙ i.sources_kept;
    apps_kept = k.apps_kept ∙ i.apps_kept;
    categories_kept = k.categories_kept ∙ i.categories_kept;
    candidates_kept = k.candidates_kept ∙ i.candidates_kept;
  }

module _ (fl : Float32) where
  open fl use {F}

  insert_memory-IsInserted :
      (db : Database F) (scopes : List MemoryScope) (row : MemoryRow F) (db' : Database F)
      → insert_memory fl (record db { memory_scopes = scopes }) row ≡ ok db'
      → IsInserted db row db'
  unfolding insert_memory
  insert_memory-IsInserted db scopes row db' h = ground (arith, h)

module _ (fl : Float32) (to_lowercase deterministic_id : Text → Text) where
  open fl use {F}

  scoped-IsInserted :
      (db : Database F) (t : ScopeType) (key name : Text) (a : Database F) (row : MemoryRow F)
      (b : Database F)
      → with_scope fl to_lowercase deterministic_id db t key name ≡ ok a
      → insert_memory fl a row ≡ ok b
      → IsInserted db row b
  scoped-IsInserted db t key name a row b ha hb =
      let (scopes, _, e) =
        bind-ok
          (upsert_scope (scope_id_of fl to_lowercase deterministic_id t key) t key name
            db.memory_scopes)
          (λ s. ok (record db { memory_scopes = s })) a ha in
      insert_memory-IsInserted fl db scopes row b
        (subst (λ x. insert_memory fl x row ≡ ok b) (sym (ok-injective e)) hb)

  pub insert_candidate_tx-IsInserted :
      (db : Database F) (id : Text) (c : MemoryCandidate F) (status : MemoryStatus) (revision : ℕ)
      (now : ℤ) (db' : Database F)
      → insert_candidate_tx fl to_lowercase deterministic_id db id c status revision now ≡ ok db'
      → (k : Database F) × IsInserted db
          (row_of_candidate fl to_lowercase deterministic_id id c status revision now)
          k
        × ((if is_active status then refresh_search_document k id else k) ≡ db')
  unfolding insert_candidate_tx
  insert_candidate_tx-IsInserted db id c status revision now db' h =
      let shown : Database F → Result (Database F) StoreError =
        λ x. ok (if is_active status then refresh_search_document x id else x) in
      let resolved =
        λ (x : Database F). resolve_entities to_lowercase x id c.entity_mentions >>= shown in
      let supported =
        λ (x : Database F). link_sources x id primary c.supporting_source_event_ids >>= resolved in
      let applied =
        λ (x : Database F). link_apps x id applies_to c.applicable_app_ids >>= supported in
      let sourced = λ (x : Database F). link_apps x id source c.source_app_ids >>= applied in
      let sorted = λ (x : Database F). assign_categories x id c.category_slugs >>= sourced in
      let row = row_of_candidate fl to_lowercase deterministic_id id c status revision now in
      let inserted = λ (x : Database F). insert_memory fl x row >>= sorted in
      let scope = c.scope in
      let scoped =
        with_scope fl to_lowercase deterministic_id db scope.scope_type scope.scope_key
          scope.display_name in
      let (a, ha, h1) = bind-ok scoped inserted db' h in
      let (b, hb, h2) = bind-ok (insert_memory fl a row) sorted db' h1 in
      let (d, hd, h3) = bind-ok (assign_categories b id c.category_slugs) sourced db' h2 in
      let (e, he, h4) = bind-ok (link_apps d id source c.source_app_ids) applied db' h3 in
      let (f, hf, h5) = bind-ok (link_apps e id applies_to c.applicable_app_ids) supported db' h4 in
      let (g, hg, h6) =
        bind-ok (link_sources f id primary c.supporting_source_event_ids) resolved db' h5 in
      let (k, hk, h7) =
        bind-ok (resolve_entities to_lowercase g id c.entity_mentions) shown db' h6 in
      let linked = Keeps-trans b d g (assign_categories-Keeps c.category_slugs b id d hd) (
        Keeps-trans d e g (link_apps-Keeps _ d id source e he) (
          Keeps-trans e f g (link_apps-Keeps _ e id applies_to f hf)
            (link_sources-Keeps _ f id primary g hg))) in
      (
        k,
        linked-IsInserted db b k row
            (scoped-IsInserted db scope.scope_type scope.scope_key scope.display_name a row b ha hb)
            (Keeps-trans b g k linked (resolve_entities-Keeps to_lowercase _ g id k hk)),
        ok-injective h7,
      )

  pub insert_manual_tx-IsInserted :
      (db : Database F) (id : Text) (input : ManualMemoryInput F) (revision : ℕ) (db' : Database F)
      → insert_manual_tx fl to_lowercase deterministic_id db id input revision ≡ ok db'
      → (k : Database F) × IsInserted db
          (row_of_manual fl to_lowercase deterministic_id id input revision)
          k
        × (refresh_search_document k id ≡ db')
  unfolding insert_manual_tx
  insert_manual_tx-IsInserted db id input revision db' h =
      let shown : Database F → Result (Database F) StoreError =
        λ x. ok (refresh_search_document x id) in
      let applied =
        λ (x : Database F). link_apps x id applies_to input.applicable_app_ids >>= shown in
      let sorted = λ (x : Database F). assign_categories x id input.category_slugs >>= applied in
      let row = row_of_manual fl to_lowercase deterministic_id id input revision in
      let inserted = λ (x : Database F). insert_memory fl x row >>= sorted in
      let scoped =
        with_scope fl to_lowercase deterministic_id db input.scope_type input.scope_key
          input.scope_display_name in
      let (a, ha, h1) = bind-ok scoped inserted db' h in
      let (b, hb, h2) = bind-ok (insert_memory fl a row) sorted db' h1 in
      let (d, hd, h3) = bind-ok (assign_categories b id input.category_slugs) applied db' h2 in
      let (k, hk, h4) = bind-ok (link_apps d id applies_to input.applicable_app_ids) shown db' h3 in
      (
        k,
        linked-IsInserted db b k row
            (scoped-IsInserted db input.scope_type input.scope_key input.scope_display_name a row b
              ha hb)
            (Keeps-trans b d k (assign_categories-Keeps input.category_slugs b id d hd)
              (link_apps-Keeps _ d id applies_to k hk)),
        ok-injective h4,
      )
