-- ===== src/Store/Assembled.antt =====
-- The candidates that `assemble_context` of crates/mega-store/src/context_repo.rs collects.
use stalky.Prelude.Int.{ℤ}
use stalky.Prelude.Text.{Text, is_blank}
use stalky.Prelude.Orders.{cmp_text}
use stalky.Prelude.Comparisons.{Ordering-cases}
use stalky.Prelude.{
  All, All-map, In, Bool-cases, List, Option-cases, Result, bind-ok, inl, inr, ok, ok-injective,
  subst, take, true, ◌>>=◌, ◌∷◌, ◌≡◌, [],
}
use stalky.Model.Floats.{Float32}
use stalky.Model.{Memory}
use stalky.Retrieval.{MemoryContextRequest, RetrievalSignals, RetrievedMemory}
use stalky.Store.{Database, StoreError}
use stalky.Store.Context.{
  add_app, add_entities, add_project, add_query, add_result, add_search_results, add_searched,
  candidates_of, project_filter, default_signals, applies_filter, app_filter, entity_filter,
  query_filter, global_filter,
}
use stalky.Store.Found.{All-In, IsFound, search-IsFound}
use stalky.Store.Wanted.{
  IsFound-IsStored, IsStored, Wants, app_filter-Wants, applies_filter-Wants, entity_filter-Wants,
  global_filter-Wants, project_filter-Wants, query_filter-Wants,
}
use stalky.Store.Search.{MemorySearchFilter, Sqlite, search}

module _ (fl : Float32) (display_i64 : ℤ → Text) (sqlite : Sqlite) where
  open fl use {F}

  -- A candidate whose memory is read from a stored row that the request wants.
  abbrev pub IsRead : Database F → MemoryContextRequest → RetrievedMemory F → Type 0
  IsRead db request r = IsStored sqlite db request r.memory

  add_result-IsRead :
      (db : Database F) (request : MemoryContextRequest) (signals : RetrievalSignals F)
      (m : Memory F) (cs : List (RetrievedMemory F))
      → IsStored sqlite db request m
      → All (IsRead db request) cs
      → All (IsRead db request) (add_result fl signals m cs)
  unfolding add_result
  add_result-IsRead db request signals m [] p h = (p, tt)
  add_result-IsRead db request signals m (c ∷ cs) p h =
      elim (Ordering-cases (cmp_text m.id c.memory.id)) [
        | inl e ↦ rw (e, add_result, All) (p, h)
        | inr (inl e) ↦ rw (e, add_result, All) h
        | inr (inr e) ↦
            rw (e, add_result, All) (h.0, add_result-IsRead db request signals m cs p h.1)
      ]

  add_search_results-IsRead :
      (db : Database F) (request : MemoryContextRequest) (signals : RetrievalSignals F)
      (ms : List (Memory F)) (cs : List (RetrievedMemory F))
      → All (IsStored sqlite db request) ms
      → All (IsRead db request) cs
      → All (IsRead db request) (add_search_results fl cs ms signals)
  unfolding add_search_results
  add_search_results-IsRead db request signals [] cs p h = h
  add_search_results-IsRead db request signals (m ∷ ms) cs p h =
      add_search_results-IsRead db request signals ms (add_result fl signals m cs) p.1
        (add_result-IsRead db request signals m cs p.0 h)

  -- A step that reads its candidates from the store, given such ones.
  abbrev Reads :
      Database F
      → MemoryContextRequest
      → List (RetrievedMemory F)
      → Result (List (RetrievedMemory F)) StoreError
      → Type 0
  Reads db request cs result =
      All (IsRead db request) cs
      → (out : List (RetrievedMemory F)) → result ≡ ok out
      → All (IsRead db request) out

  add_searched-Reads :
      (db : Database F) (request : MemoryContextRequest) (filter : MemorySearchFilter)
      (signals : RetrievalSignals F) (cs : List (RetrievedMemory F))
      → Wants sqlite db request filter
      → Reads db request cs (add_searched fl display_i64 sqlite db filter signals cs)
  unfolding add_searched
  add_searched-Reads db request filter signals cs wants h out e =
      let (ms, s, r) =
        bind-ok (search sqlite db filter)
          (λ memories. ok (add_search_results fl cs memories signals)) out e in
      let (_, _, found) = search-IsFound sqlite db filter ms s in
      let stored =
        All-map (IsFound sqlite db filter) (IsStored sqlite db request)
          (IsFound-IsStored sqlite db request filter wants) ms found in
      subst (All (IsRead db request)) (ok-injective r)
        (add_search_results-IsRead db request signals ms cs stored h)

  -- One step after another.
  then-Reads :
      (db : Database F) (request : MemoryContextRequest) (cs : List (RetrievedMemory F))
      (first : Result (List (RetrievedMemory F)) StoreError)
      (next : List (RetrievedMemory F) → Result (List (RetrievedMemory F)) StoreError)
      → Reads db request cs first
      → ((xs : List (RetrievedMemory F)) → Reads db request xs (next xs))
      → Reads db request cs (first >>= next)
  then-Reads db request cs first next f g h out e =
      let (xs, k, l) = bind-ok first next out e in g xs (f h xs k) out l

  ok-Reads :
      (db : Database F) (request : MemoryContextRequest) (cs : List (RetrievedMemory F))
      → Reads db request cs (ok cs)
  ok-Reads db request cs h out e = subst (All (IsRead db request)) (ok-injective e) h

  add_project-Reads :
      (db : Database F) (request : MemoryContextRequest) (cs : List (RetrievedMemory F))
      → Reads db request cs (add_project fl display_i64 sqlite db request cs)
  unfolding add_project
  add_project-Reads db request cs = elim (Option-cases request.active_project_key) [
    | inl e ↦ simp (e, add_project) (ok-Reads db request cs)
    | inr (key, e) ↦
        simp (e, add_project)
          (add_searched-Reads db request (project_filter request key) (default_signals fl) cs
            (project_filter-Wants sqlite db request key e))
  ]

  add_app-Reads :
      (db : Database F) (request : MemoryContextRequest) (cs : List (RetrievedMemory F))
      → Reads db request cs (add_app fl display_i64 sqlite db request cs)
  unfolding add_app
  add_app-Reads db request cs = elim (Option-cases request.current_app_id) [
    | inl e ↦ simp (e, add_app) (ok-Reads db request cs)
    | inr (id, e) ↦
        simp (e, add_app)
          (then-Reads db request cs
            (add_searched fl display_i64 sqlite db (applies_filter request id) (default_signals fl)
              cs)
            (add_searched fl display_i64 sqlite db (app_filter request id) (default_signals fl))
            (add_searched-Reads db request (applies_filter request id) (default_signals fl) cs
              (applies_filter-Wants sqlite db request id e))
            (λ xs.
              add_searched-Reads db request (app_filter request id) (default_signals fl) xs
                (app_filter-Wants sqlite db request id e)))
  ]

  add_entities-Reads :
      (db : Database F) (request : MemoryContextRequest) (ids : List Text)
      (cs : List (RetrievedMemory F))
      → All (λ id. In id (take 20 request.mentioned_entity_ids)) ids
      → Reads db request cs (add_entities fl display_i64 sqlite db request ids cs)
  unfolding add_entities
  add_entities-Reads db request [] cs h = ok-Reads db request cs
  add_entities-Reads db request (id ∷ ids) cs h =
      let signals = record (default_signals fl) { exact_entity_alias_match = true } in
      then-Reads db request cs
        (add_searched fl display_i64 sqlite db (entity_filter request id) signals cs)
        (add_entities fl display_i64 sqlite db request ids)
        (add_searched-Reads db request (entity_filter request id) signals cs
          (entity_filter-Wants sqlite db request id h.0))
        (λ xs. add_entities-Reads db request ids xs h.1)

  add_query-Reads :
      (db : Database F) (request : MemoryContextRequest) (cs : List (RetrievedMemory F))
      → Reads db request cs (add_query fl display_i64 sqlite db request cs)
  unfolding add_query
  add_query-Reads db request cs = elim (Bool-cases (is_blank request.query_text)) [
    | inl e ↦ rw (e, add_query) (ok-Reads db request cs)
    | inr e ↦
        rw (e, add_query)
          (add_searched-Reads db request (query_filter request) _ cs
            (query_filter-Wants sqlite db request e))
  ]

  -- Every candidate of a context.
  pub candidates_of-IsRead :
      (db : Database F) (request : MemoryContextRequest) (out : List (RetrievedMemory F))
      → candidates_of fl display_i64 sqlite db request ≡ ok out
      → All (IsRead db request) out
  unfolding candidates_of
  candidates_of-IsRead db request out e =
      let mentioned = take 20 request.mentioned_entity_ids in
      let of_entities = add_entities fl display_i64 sqlite db request mentioned in
      let globals =
        add_searched fl display_i64 sqlite db (global_filter request) (default_signals fl) in
      let queries = add_query fl display_i64 sqlite db request in
      let (a, a_ok, after_a) =
        bind-ok (add_project fl display_i64 sqlite db request [])
          (λ a. add_app fl display_i64 sqlite db request a >>= λ b.
            of_entities b >>= λ c. globals c >>= queries)
          out e in
      let (b, b_ok, after_b) =
        bind-ok (add_app fl display_i64 sqlite db request a)
          (λ b. of_entities b >>= λ c. globals c >>= queries) out after_a in
      let (c, c_ok, after_c) = bind-ok (of_entities b) (λ c. globals c >>= queries) out after_b in
      let (d, d_ok, after_d) = bind-ok (globals c) queries out after_c in
      let a_read = add_project-Reads db request [] tt a a_ok in
      let b_read = add_app-Reads db request a a_read b b_ok in
      let c_read = add_entities-Reads db request mentioned b (All-In mentioned) b_read c c_ok in
      let d_read =
        add_searched-Reads db request (global_filter request) (default_signals fl) c
          (global_filter-Wants sqlite db request) c_read d d_ok in
      add_query-Reads db request d d_read out after_d
