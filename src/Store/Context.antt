-- ===== src/Store/Context.antt =====
-- crates/mega-store/src/context_repo.rs: the context for a request, from the memories that searches
-- find. The `BTreeMap` by memory id is the list of its values in the order of the ids; the Display text
-- of an `i64` is a parameter.
use Prim.Native.Nat.{Ordering}
use stalky.Prelude.Int.{ℤ}
use stalky.Prelude.Text.{Text, is_blank, is_empty, text}
use stalky.Prelude.Orders.{cmp_text}
use stalky.Prelude.{
  Bool, List, Result, false, if◌then◌else◌, length, ltb, map, none, ok, reject_if, retain, some,
  take, true, ℕ, ◌++◌, ◌>>=◌, ◌>>◌, ◌||◌, ◌∷◌, [],
}
use stalky.Model.Floats.{Float32}
use stalky.Model.{HistoricalMode, Memory, active_only, app, global, include_history, project}
use stalky.Jobs.{context_assembled}
use stalky.Privacy.{contains}
use stalky.Retrieval.{MemoryContextRequest, RetrievalSignals, RetrievedMemory, rank_memories}
use stalky.Retrieval.Render.{conservative_token_estimate, render_memory_context}
use stalky.Store.{Database, StoreError, invalid_input, invariant, record_event_tx}
use stalky.Store.Search.{MemorySearchFilter, Sqlite, applies_to_role, default_filter, search}

pub record MemoryContextAssembly : Type 0 where
  pub rendered : Text
  pub memory_ids : List Text
  pub estimated_tokens : ℕ

abbrev pub over_budget : StoreError
over_budget = invariant (text "rendered context exceeded its token budget")

abbrev pub includes_history : HistoricalMode → Bool
includes_history include_history = true
includes_history active_only = false

unfoldable pub validate_context_request : MemoryContextRequest → Result (Unit {0}) StoreError
validate_context_request request = do
  reject_if (ltb 16000 request.total_token_budget)
      (invalid_input (text "memory context budget exceeds 16,000 tokens"))
  reject_if (ltb 4000 (length request.query_text) || ltb 20 (length request.mentioned_entity_ids))
      (invalid_input (text "memory context request is unbounded"))

-- The five filters of `assemble_context`.
module _ (request : MemoryContextRequest) where
  abbrev base_filter : ℕ → MemorySearchFilter
  base_filter limit = record default_filter {
    include_history = includes_history request.historical_mode;
    limit = limit;
  }

  abbrev pub project_filter : Text → MemorySearchFilter
  project_filter key = record (base_filter 200) { scope_type = some project; scope_key = some key }

  abbrev pub applies_filter : Text → MemorySearchFilter
  applies_filter id = record (base_filter 200) { app_id = some id; app_role = applies_to_role }

  abbrev pub app_filter : Text → MemorySearchFilter
  app_filter id = record (base_filter 200) { scope_type = some app; scope_key = some id }

  abbrev pub entity_filter : Text → MemorySearchFilter
  entity_filter id = record (base_filter 100) { entity_id = some id }

  abbrev pub global_filter : MemorySearchFilter
  global_filter = record (base_filter 200) { scope_type = some global }

  abbrev pub query_filter : MemorySearchFilter
  query_filter = record (base_filter 200) { query = some request.query_text }

module _ (fl : Float32) where
  open fl use {F, hundredths, maximum}

  -- `RetrievalSignals::default()`
  abbrev pub default_signals : RetrievalSignals F
  default_signals = record {
    semantic_similarity = hundredths 0;
    fts_relevance = hundredths 0;
    freshness = hundredths 0;
    exact_entity_alias_match = false;
  }

  -- `and_modify`
  abbrev merged : RetrievalSignals F → RetrievedMemory F → RetrievedMemory F
  merged signals existing = record existing {
    signals = record existing.signals {
      fts_relevance = maximum existing.signals.fts_relevance signals.fts_relevance;
      exact_entity_alias_match =
          existing.signals.exact_entity_alias_match || signals.exact_entity_alias_match;
    };
  }

  abbrev fresh_candidate : RetrievalSignals F → Memory F → RetrievedMemory F
  fresh_candidate signals memory = record {
    memory = memory;
    signals = signals;
    score = hundredths 0;
    source_timestamp_ms = some memory.updated_at_ms;
  }

  -- The round of the loop of `add_search_results` for one memory.
  unfoldable pub add_result :
      RetrievalSignals F → Memory F → List (RetrievedMemory F) → List (RetrievedMemory F)
  add_result signals memory [] = fresh_candidate signals memory ∷ []
  add_result signals memory (c ∷ cs) =
      let rest = add_result signals memory cs in
      elim (cmp_text memory.id c.memory.id) [
        | Ordering.lt ↦ fresh_candidate signals memory ∷ c ∷ cs
        | Ordering.eq ↦ merged signals c ∷ cs
        | Ordering.gt ↦ c ∷ rest
      ]

  unfoldable pub add_search_results :
      List (RetrievedMemory F) → List (Memory F) → RetrievalSignals F → List (RetrievedMemory F)
  add_search_results candidates [] signals = candidates
  add_search_results candidates (m ∷ ms) signals =
      add_search_results (add_result signals m candidates) ms signals

  unfoldable pub included_ids : Text → List (RetrievedMemory F) → List Text
  included_ids rendered ranked =
      map (λ (r : RetrievedMemory F). r.memory.id)
        (retain (λ r. contains rendered (text "id=\"" ++ r.memory.id ++ text "\"")) ranked)

module _ (fl : Float32) (display_i64 : ℤ → Text) (sqlite : Sqlite) where
  open fl use {F, hundredths}

  -- One `add_search_results(&mut candidates, self.search(…)?, …)`.
  unfoldable pub add_searched :
      Database F
      → MemorySearchFilter
      → RetrievalSignals F
      → List (RetrievedMemory F)
      → Result (List (RetrievedMemory F)) StoreError
  add_searched db filter signals candidates = do
    memories ← search sqlite db filter
    ok (add_search_results fl candidates memories signals)

  unfoldable pub add_project :
      Database F
      → MemoryContextRequest
      → List (RetrievedMemory F)
      → Result (List (RetrievedMemory F)) StoreError
  add_project db request candidates = elim request.active_project_key [
    | none ↦ ok candidates
    | some key ↦ add_searched db (project_filter request key) (default_signals fl) candidates
  ]

  unfoldable pub add_app :
      Database F
      → MemoryContextRequest
      → List (RetrievedMemory F)
      → Result (List (RetrievedMemory F)) StoreError
  add_app db request candidates = elim request.current_app_id [
    | none ↦ ok candidates
    | some id ↦ do
      applicable ← add_searched db (applies_filter request id) (default_signals fl) candidates
      add_searched db (app_filter request id) (default_signals fl) applicable
  ]

  unfoldable pub add_entities :
      Database F
      → MemoryContextRequest
      → List Text
      → List (RetrievedMemory F)
      → Result (List (RetrievedMemory F)) StoreError
  add_entities db request [] candidates = ok candidates
  add_entities db request (id ∷ ids) candidates = do
    found ←
        add_searched db (entity_filter request id)
          (record (default_signals fl) { exact_entity_alias_match = true }) candidates
    add_entities db request ids found

  unfoldable pub add_query :
      Database F
      → MemoryContextRequest
      → List (RetrievedMemory F)
      → Result (List (RetrievedMemory F)) StoreError
  add_query db request candidates =
      if is_blank request.query_text
      then ok candidates
      else add_searched db (query_filter request)
          (record (default_signals fl) { fts_relevance = hundredths 100 }) candidates

  -- The candidates of a request.
  unfoldable pub candidates_of :
      Database F → MemoryContextRequest → Result (List (RetrievedMemory F)) StoreError
  candidates_of db request = do
    of_project ← add_project db request []
    of_app ← add_app db request of_project
    of_entities ← add_entities db request (take 20 request.mentioned_entity_ids) of_app
    of_all ← add_searched db (global_filter request) (default_signals fl) of_entities
    add_query db request of_all

  -- `assemble_context` from the ranking of its candidates on.
  unfoldable pub finish_context :
      Database F
      → MemoryContextRequest
      → Text
      → ℤ
      → List (RetrievedMemory F)
      → Result (Database F × MemoryContextAssembly) StoreError
  finish_context db request correlation_id now_ms candidates =
      let ranked = rank_memories fl request candidates in
      let rendered = render_memory_context fl display_i64 request ranked in
      let memory_ids = included_ids fl rendered ranked in
      let estimated_tokens = conservative_token_estimate rendered in
      do
        reject_if (ltb request.total_token_budget estimated_tokens) over_budget
        told ←
            record_event_tx db context_assembled correlation_id none
              (some (if is_empty memory_ids then text "empty" else text "bounded")) now_ms
        ok (
          told,
          record {
            rendered = rendered;
            memory_ids = memory_ids;
            estimated_tokens = estimated_tokens;
          },
        )

  unfoldable pub assemble_context :
      Database F
      → MemoryContextRequest
      → Text
      → ℤ
      → Result (Database F × MemoryContextAssembly) StoreError
  assemble_context db request correlation_id now_ms = do
    validate_context_request request
    candidates ← candidates_of db request
    finish_context db request correlation_id now_ms candidates
