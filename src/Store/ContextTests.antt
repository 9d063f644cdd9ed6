-- ===== src/Store/ContextTests.antt =====
-- Searches of a few memories and a context from them, with numbers in hundredths. The text search
-- takes a document whose content is the one word of the query.
use stalky.Prelude.Int.{ℤ, pos}
use stalky.Prelude.Text.{
  Text, is_blank, is_whitespace, split_whitespace, text, text_eq, text_mem, words_from,
}
use stalky.Prelude.Orders.{IsSorted, cmp_text, insert_by, sort_by, sort_by-All, sort_by-IsSorted}
use stalky.Prelude.Comparisons.{cmp_ℤ}
use stalky.Store.Index.{IsIndexed}
use stalky.Prelude.{
  arith, All, List, Result, err, false, length, ltb→lt, leb→le, none, ok, refl, some, suc, true,
  zero, ℕ, ◌++◌, ◌<◌, ◌∷◌, ◌≡◌, ◌≢◌, ◌≤◌, [],
}
use stalky.Model.Hundredths.{hundredths_f32}
use stalky.Model.{
  Memory, MemoryStatus, MemoryStatus-discrete, active, allows, explicit, pending_review, global,
  label, preference, private, superseded,
}
use stalky.Privacy.{contains, starts_with}
use stalky.Extraction.{is_reversed}
use stalky.Retrieval.{
  MemoryContextRequest, RetrievedMemory, default_request, eligible, mentions, rank_memories,
  rank_order, scope_allows,
}
use stalky.Retrieval.Render.{
  conservative_token_estimate, escape_xml, mode_name, render_item, render_items,
  render_memory_context, replace_char, type_name,
}
use stalky.Store.{Database, MemoryRow, ScopeType-discrete, StoreError, invariant, record_event_tx}
use stalky.Store.Assemblies.{IsAssembled, assemble_context-IsAssembled, deleted_is_left_out}
use stalky.Store.Context.{
  MemoryContextAssembly, add_app, add_entities, add_project, add_query, add_result,
  add_search_results, add_searched, assemble_context, candidates_of, finish_context, included_ids,
  validate_context_request,
}
use stalky.Store.Deletes.{
  bury, delete_empty_segments, delete_memory, delete_row, delete_sources,
  invalidate_affected_profiles, is_affected, is_under, permanent,
}
use stalky.Store.Found.{IsFound, search-IsFound, search-active}
use stalky.Store.LongQueries.{long_query_is_refused}
use stalky.Store.Plans.{remove_document}
use stalky.Store.Refusals.{assemble_context-Sound}
use stalky.Store.Reviews.{ensure_revision}
use stalky.Store.Search.{
  MemorySearchFilter, Sqlite, base_memory_select, default_filter, fts_literal_query, hydrate_memory,
  is_found, is_selected, search, search_rows, status_allows, validate,
}

abbrev sqlite : Sqlite
sqlite = record {
  matches = λ query d. contains query (34 ∷ d.display_content ++ (34 ∷ []));
  like = λ value pattern. text_eq value pattern;
  order_by = λ cmp rows. sort_by cmp rows;
  order_by-All = λ cmp P rows h. sort_by-All cmp P rows h;
  order_by-IsSorted = λ cmp o rows. sort_by-IsSorted cmp o rows;
}

abbrev show : ℤ → Text
show i = text "0"

abbrev row : Text → MemoryStatus → ℕ → MemoryRow ℕ
row id status updated_at = record {
  id = id;
  normalized_content = text "tea";
  display_content = text "tea";
  memory_type = preference;
  assertion_mode = explicit;
  status = status;
  scope_id = text "g";
  importance = 50;
  confidence = 100;
  sensitivity = private;
  valid_from = none;
  valid_until = none;
  revision = 1;
  created_at = pos 1;
  updated_at = pos updated_at;
}

-- An active memory, one that was superseded, and one to be reviewed.
abbrev stored : Database ℕ
stored = record {
  memories =
      row (text "m1") active 5
      ∷ row (text "m2") superseded 6
      ∷ row (text "m3") pending_review 7
      ∷ [];
  memory_scopes =
      record {
        id = text "g";
        scope_type = global;
        scope_key = text "global";
        display_name = text "Global";
      }
      ∷ [];
  categories = [];
  apps = [];
  source_events = [];
  entities = [];
  entity_aliases = [];
  memory_categories = [];
  memory_apps = [];
  memory_sources = [];
  memory_entities = [];
  memory_relations = [];
  memory_search_documents =
      record {
        memory_id = text "m1";
        display_content = text "tea";
        category_text = [];
        entity_text = [];
        app_text = [];
      }
      ∷ [];
  memory_embeddings = [];
  extraction_candidates = [];
  projection_jobs = [];
  memory_events = [];
  memory_profiles = [];
  activity_segments = [];
  activity_segment_sources = [];
  memory_tombstones = [];
}

-- Everything that mentions tea, the history too.
abbrev history_filter : MemorySearchFilter
history_filter = record default_filter {
  query = some (text "tea");
  include_history = true;
  limit = 10;
}

abbrev results_of : Result (List (Memory ℕ)) StoreError → List (Memory ℕ)
results_of (ok ms) = ms
results_of (err e) = []

abbrev found : List (Memory ℕ)
found = results_of (search sqlite stored history_filter)

stored-IsIndexed : IsIndexed stored
unfolding text_eq MemoryStatus-discrete
stored-IsIndexed = ((refl, tt), (refl, (refl, (refl, tt))))

found-ok : (search sqlite stored history_filter ≡ ok found) × (length found ≡ 1)
unfolding search validate search_rows base_memory_select is_selected is_found is_blank is_whitespace
    is_reversed status_allows fts_literal_query split_whitespace words_from replace_char contains
    starts_with text_eq sort_by insert_by MemoryStatus-discrete
found-ok = (refl, refl)

search-active_example : All (λ m. m.status ≡ active) found
search-active_example =
    search-active sqlite stored history_filter (text "tea") found stored-IsIndexed refl found-ok.0

search-IsFound_example :
    (length found ≤ 10)
    × IsSorted (λ a b. cmp_ℤ b.updated_at_ms a.updated_at_ms) found
    × All (IsFound sqlite stored history_filter) found
search-IsFound_example = search-IsFound sqlite stored history_filter found found-ok.0

abbrev request : MemoryContextRequest
request = record default_request { query_text = text "tea" }

abbrev assembled : Database ℕ → Result (Database ℕ × MemoryContextAssembly) StoreError
assembled db = assemble_context hundredths_f32 show sqlite db request (text "ask") (pos 9)

abbrev nothing : MemoryContextAssembly
nothing = record { rendered = []; memory_ids = []; estimated_tokens = 0 }

abbrev outcome_of :
    Result (Database ℕ × MemoryContextAssembly) StoreError → Database ℕ × MemoryContextAssembly
outcome_of (ok x) = x
outcome_of (err e) = (stored, nothing)

abbrev left_of : Result (Database ℕ) StoreError → Database ℕ
left_of (ok db) = db
left_of (err e) = stored

abbrev deleted : Result (Database ℕ) StoreError
deleted = delete_memory stored (text "m1") 1 permanent (text "user") (pos 8)

context-ok :
    (assembled stored ≡ ok (outcome_of (assembled stored)))
    × ((outcome_of (assembled stored)).1.memory_ids ≡ text "m1" ∷ [])
    × (deleted ≡ ok (left_of deleted))
    × (assembled (left_of deleted) ≡ ok (outcome_of (assembled (left_of deleted))))
unfolding assemble_context candidates_of finish_context validate_context_request add_app
    add_entities add_project add_query add_result add_search_results add_searched included_ids
    rank_memories rank_order eligible mentions scope_allows render_memory_context render_items
    render_item escape_xml mode_name type_name conservative_token_estimate record_event_tx
    hydrate_memory search validate search_rows base_memory_select is_selected is_found is_blank
    is_whitespace is_reversed status_allows fts_literal_query split_whitespace words_from
    replace_char contains starts_with text_eq sort_by insert_by MemoryStatus-discrete
    ScopeType-discrete cmp_text text_mem allows label delete_memory ensure_revision
    invalidate_affected_profiles is_affected is_under delete_row delete_sources
    delete_empty_segments bury remove_document
context-ok = (refl, refl, refl, refl)

assemble_context-IsAssembled_example :
    IsAssembled hundredths_f32 show sqlite stored request
      (outcome_of (assembled stored)).0
      (outcome_of (assembled stored)).1
assemble_context-IsAssembled_example =
    assemble_context-IsAssembled hundredths_f32 show sqlite stored request (text "ask") (pos 9)
      (outcome_of (assembled stored)).0 (outcome_of (assembled stored)).1 context-ok.0

deleted_is_left_out_example :
    (v : IsAssembled hundredths_f32 show sqlite
      (left_of deleted)
      request
      (outcome_of (assembled (left_of deleted))).0
      (outcome_of (assembled (left_of deleted))).1)
    × All (λ (r : RetrievedMemory ℕ). r.memory.id ≢ text "m1") v.ranked
deleted_is_left_out_example =
    deleted_is_left_out hundredths_f32 show sqlite stored (text "m1") 1 (text "user") (pos 8)
      (left_of deleted) request (text "ask") (pos 9) (outcome_of (assembled (left_of deleted))).0
      (outcome_of (assembled (left_of deleted))).1 context-ok.2 context-ok.3

assemble_context-Sound_example : assembled stored ≢ err (invariant (text "over"))
assemble_context-Sound_example =
    assemble_context-Sound hundredths_f32 show sqlite stored request (text "ask") (pos 9)
      (text "over")

abbrev repeated : ℕ → Text
repeated zero = []
repeated (suc n) = 97 ∷ repeated n

abbrev long_request : MemoryContextRequest
long_request = record default_request { query_text = repeated 501 }

long_request-IsLong :
    (is_blank long_request.query_text ≡ false)
    × (500 < length long_request.query_text)
    × (length long_request.query_text ≤ 4000)
unfolding is_blank is_whitespace
long_request-IsLong = (
  refl,
  ltb→lt 500 (length long_request.query_text) refl,
  leb→le (length long_request.query_text) 4000 refl,
)

long_query_is_refused_example :
    (validate_context_request long_request ≡ ok tt)
    × ((x : Database ℕ × MemoryContextAssembly)
        → assemble_context hundredths_f32 show sqlite stored long_request (text "ask") (pos 9)
          ≢ ok x)
long_query_is_refused_example =
    long_query_is_refused hundredths_f32 show sqlite stored long_request (text "ask") (pos 9)
      (omega arith) (omega arith) long_request-IsLong.0 long_request-IsLong.1 long_request-IsLong.2
