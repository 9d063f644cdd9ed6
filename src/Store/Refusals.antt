-- ===== src/Store/Refusals.antt =====
-- How `assemble_context` of crates/mega-store/src/context_repo.rs fails.
use stalky.Prelude.Int.{ℤ}
use stalky.Prelude.Text.{Text, is_blank}
use stalky.Prelude.{
  Bool, Bool-cases, List, Option, Option-cases, Result, arith, err, false, inl, inr, leb, length,
  ltb, none, not, ok, refl, reject_if, true, ◌<◌, ◌>>=◌, ◌>>◌, ◌&&◌, ◌||◌, ◌∷◌, ◌≡◌, ◌≢◌, [],
}
use stalky.Model.Floats.{Float32}
use stalky.Jobs.{MemoryEventType, context_assembled}
use stalky.Retrieval.{MemoryContextRequest, RetrievalSignals, RetrievedMemory, rank_memories}
use stalky.Retrieval.Render.{conservative_token_estimate, render_memory_context}
use stalky.Retrieval.Budget.{render_memory_context-IsContext}
use stalky.Store.{Database, StoreError, invalid_input, invariant, record_event_tx}
use stalky.Store.Context.{
  add_app, add_entities, add_project, add_query, add_searched, assemble_context, candidates_of,
  finish_context, validate_context_request,
}
use stalky.Extraction.{is_reversed}
use stalky.Prelude.Words.{u64_max}
use stalky.Store.Assemblies.{bounded_budget}
use stalky.Retrieval.{is_some_and}
use stalky.Store.Search.{MemorySearchFilter, Sqlite, search, validate}

-- It does not fail for an invariant that does not hold.
abbrev Sound : {A : Type 0} → Result A StoreError → Type 0
Sound {A} r = (t : Text) → r ≢ err (invariant t)

ok-Sound : {A : Type 0} (a : A) → Sound (ok a)
ok-Sound a t e = cc

bind-Sound :
    {A B : Type 0} (m : Result A StoreError) (f : A → Result B StoreError)
    → Sound m
    → ((a : A) → m ≡ ok a → Sound (f a))
    → Sound (m >>= f)
bind-Sound (ok a) f s g t e = g a refl t e
bind-Sound (err x) f s g t e = s t (cc)

reject-Sound : (b : Bool) (e : StoreError) → ((t : Text) → e ≢ invariant t) → Sound (reject_if b e)
reject-Sound true e h t k = h t (cc)
reject-Sound false e h t k = cc

invalid_input-Sound : (x t : Text) → invalid_input x ≢ invariant t
invalid_input-Sound x t e = cc

guard-Sound :
    {A : Type 0} (b : Bool) (e : StoreError) (m : Result A StoreError)
    → ((t : Text) → e ≢ invariant t)
    → Sound m
    → Sound (reject_if b e >> m)
guard-Sound true e m h s t k = h t (cc)
guard-Sound false e m h s t k = s t k

validate-Sound : (filter : MemorySearchFilter) → Sound (validate filter)
unfolding validate
validate-Sound filter =
    guard-Sound (not (leb 1 filter.limit && leb filter.limit 200)) _ _ (invalid_input-Sound _) (
      guard-Sound (is_some_and filter.query (λ q. is_blank q || ltb 500 (length q))) _ _
        (invalid_input-Sound _)
        (reject-Sound (is_reversed filter.from_ms filter.until_ms) _ (invalid_input-Sound _)))

validate_context_request-Sound :
    (request : MemoryContextRequest) → Sound (validate_context_request request)
unfolding validate_context_request
validate_context_request-Sound request =
    guard-Sound _ _ _ (invalid_input-Sound _) (reject-Sound _ _ (invalid_input-Sound _))

record_event_tx-Sound :
    {F : Type 0} (db : Database F) (type : MemoryEventType) (correlation_id : Text)
    (memory_id outcome : Option Text) (now : ℤ)
    → Sound (record_event_tx db type correlation_id memory_id outcome now)
unfolding record_event_tx
record_event_tx-Sound db type correlation_id memory_id outcome now =
    elim (Bool-cases (is_blank correlation_id || ltb 128 (length correlation_id))) [
      | inl e ↦ rw e (λ t k. cc)
      | inr e ↦ rw e (ok-Sound _)
    ]

module _ (fl : Float32) (display_i64 : ℤ → Text) (sqlite : Sqlite) where
  open fl use {F}

  search-Sound : (db : Database F) (filter : MemorySearchFilter) → Sound (search sqlite db filter)
  unfolding search
  search-Sound db filter =
      bind-Sound (validate filter) _ (validate-Sound filter)
        (λ u e. guard-Sound _ _ _ (λ t k. cc) (ok-Sound _))

  add_searched-Sound :
      (db : Database F) (filter : MemorySearchFilter) (signals : RetrievalSignals F)
      (cs : List (RetrievedMemory F))
      → Sound (add_searched fl display_i64 sqlite db filter signals cs)
  unfolding add_searched
  add_searched-Sound db filter signals cs =
      bind-Sound (search sqlite db filter) _ (search-Sound db filter) (λ ms e. ok-Sound _)

  add_project-Sound :
      (db : Database F) (request : MemoryContextRequest) (cs : List (RetrievedMemory F))
      → Sound (add_project fl display_i64 sqlite db request cs)
  unfolding add_project
  add_project-Sound db request cs = elim (Option-cases request.active_project_key) [
    | inl e ↦ rw (e, add_project) (ok-Sound cs)
    | inr (key, e) ↦ rw (e, add_project) (add_searched-Sound db _ _ cs)
  ]

  add_app-Sound :
      (db : Database F) (request : MemoryContextRequest) (cs : List (RetrievedMemory F))
      → Sound (add_app fl display_i64 sqlite db request cs)
  unfolding add_app
  add_app-Sound db request cs = elim (Option-cases request.current_app_id) [
    | inl e ↦ rw (e, add_app) (ok-Sound cs)
    | inr (id, e) ↦
        rw (e, add_app)
          (bind-Sound _ _ (add_searched-Sound db _ _ cs) (λ xs k. add_searched-Sound db _ _ xs))
  ]

  add_entities-Sound :
      (db : Database F) (request : MemoryContextRequest) (ids : List Text)
      (cs : List (RetrievedMemory F))
      → Sound (add_entities fl display_i64 sqlite db request ids cs)
  unfolding add_entities
  add_entities-Sound db request [] cs = ok-Sound cs
  add_entities-Sound db request (id ∷ ids) cs =
      bind-Sound _ _ (add_searched-Sound db _ _ cs) (λ xs k. add_entities-Sound db request ids xs)

  add_query-Sound :
      (db : Database F) (request : MemoryContextRequest) (cs : List (RetrievedMemory F))
      → Sound (add_query fl display_i64 sqlite db request cs)
  unfolding add_query
  add_query-Sound db request cs = elim (Bool-cases (is_blank request.query_text)) [
    | inl e ↦ rw (e, add_query) (ok-Sound cs)
    | inr e ↦ rw (e, add_query) (add_searched-Sound db _ _ cs)
  ]

  candidates_of-Sound :
      (db : Database F) (request : MemoryContextRequest)
      → Sound (candidates_of fl display_i64 sqlite db request)
  unfolding candidates_of
  candidates_of-Sound db request = bind-Sound _ _ (add_project-Sound db request []) (λ a h.
      bind-Sound _ _ (add_app-Sound db request a) (λ b i.
        bind-Sound _ _ (add_entities-Sound db request _ b) (λ c j.
          bind-Sound _ _ (add_searched-Sound db _ _ c) (λ d k. add_query-Sound db request d))))

  -- What is rendered fits the budget that it is rendered for.
  rendered-fits :
      (request : MemoryContextRequest) (ranked : List (RetrievedMemory F))
      → request.total_token_budget < u64_max
      → ltb request.total_token_budget
          (conservative_token_estimate (render_memory_context fl display_i64 request ranked))
        ≡ false
  rendered-fits request ranked b =
      elim (render_memory_context-IsContext fl display_i64 request ranked b) [
        | inl e ↦ rw e (unfold conservative_token_estimate in ground arith)
        | inr (kept, v) ↦ let w = v.within in ground (arith, w)
      ]

  finish_context-Sound :
      (db : Database F) (request : MemoryContextRequest) (correlation_id : Text) (now_ms : ℤ)
      (cs : List (RetrievedMemory F))
      → request.total_token_budget < u64_max
      → Sound (finish_context fl display_i64 sqlite db request correlation_id now_ms cs)
  unfolding finish_context
  finish_context-Sound db request correlation_id now_ms cs b =
      rw (rendered-fits request (rank_memories fl request cs) b) (
        bind-Sound _ _ (record_event_tx-Sound db context_assembled correlation_id none _ now_ms)
          (λ t e. ok-Sound _))

  -- No request fails because its rendered context exceeds the budget, or for another broken
  -- invariant, whatever is stored and whatever the searches find.
  pub assemble_context-Sound :
      (db : Database F) (request : MemoryContextRequest) (correlation_id : Text) (now_ms : ℤ)
      (message : Text)
      → assemble_context fl display_i64 sqlite db request correlation_id now_ms
        ≢ err (invariant message)
  unfolding assemble_context
  assemble_context-Sound db request correlation_id now_ms =
      bind-Sound (validate_context_request request) _ (validate_context_request-Sound request)
        (λ u valid. bind-Sound _ _ (candidates_of-Sound db request) (λ cs e.
          finish_context-Sound db request correlation_id now_ms cs
            (bounded_budget fl display_i64 sqlite request u valid)))
