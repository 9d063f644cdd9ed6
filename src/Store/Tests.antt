-- ===== src/Store/Tests.antt =====
-- Concrete tables, plans and deletions, with numbers in hundredths.
use stalky.Prelude.Int.{pos}
use stalky.Store.Checks.{
  validate_plan_for_storage, validate_candidate_for_storage, validate_categories_exist,
  validate_references_exist,
}
use stalky.Extraction.{normalize_content, is_global, is_reversed, is_inferred}
use stalky.Prelude.Text.{
  collapse_whitespace, is_blank, is_whitespace, join_space, split_whitespace, text_eq, words_from,
}
use stalky.Model.{ceiling_hundredths, MemoryStatus-discrete, trust_rank}
use stalky.Privacy.{
  inspect_private_content, has_private_key, contains, lower_char, has_any, has_card, digit_runs,
  split, is_break, is_ascii_digit, is_card, luhn_digit, luhn_sum, luhn_valid, starts_with,
}
use stalky.Reconcile.{idempotency_key}
use stalky.Store.{
  AppRole-discrete, EntityRole-discrete, EntityType-discrete, ScopeType-discrete, record_event_tx,
  scope_type_str,
}
use stalky.Store.Applies.{enqueue_written, finish_plan}
use stalky.Store.Inserts.{
  document_of, enqueue_projection, enqueue_projection_refresh_tx, insert_candidate_tx,
  refresh_search_document, scope_id_of,
}
use stalky.Store.Plans.{
  outcome_status, relate, remove_document, saturating_succ, supersede, support, write_plan,
}
use stalky.Store.Writes.{
  assign_categories, insert_memory, link_apps, link_categories, link_category, link_entity,
  link_sources, mentioned_ids, resolve_entities, upsert_scope,
}
use stalky.Prelude.Text.{Text, text}
use stalky.Prelude.{
  List, Bool, In, Result, ◌∷◌, ◌≡◌, [], err, inl, none, ok, refl, some, true, false, ℕ,
}
use stalky.Model.{active, explicit, global, pending_review, preference, private}
use stalky.Model.Hundredths.{hundredths_f32}
use stalky.Candidate.{MemoryCandidate}
use stalky.Reconcile.{MemoryMutationPlan, create, extend}
use stalky.Store.{Database, StoreError}
use stalky.Store.Applies.{apply_plan}
use stalky.Store.Deletes.{
  delete_memory, forget, permanent, invalidate_affected_profiles, is_affected, is_under, delete_row,
  delete_sources, delete_empty_segments, bury,
}
use stalky.Store.Erasures.{IsErased, delete_memory-IsErased, is_kept, sources_of, supports}
use stalky.Store.Plans.{MemoryMutationResult}
use stalky.Store.Reviews.{ensure_revision}
use stalky.Store.Evidence.{delete_memory-supported}
use stalky.Store.Histories.{StoreCall, applies, confirms, deletes, run_calls, run_calls-IsIndexed}
use stalky.Store.Index.{IsIndexed}
use stalky.Store.Replays.{apply_plan-replayed}

abbrev candidate : MemoryCandidate ℕ
candidate = record {
  content = text "Likes tea a lot";
  memory_type = preference;
  assertion_mode = explicit;
  category_slugs = [];
  scope = record { scope_type = global; scope_key = text "global"; display_name = text "Global" };
  source_app_ids = [];
  applicable_app_ids = [];
  entity_mentions = [];
  importance = 80;
  confidence = 75;
  valid_from_ms = none;
  valid_until_ms = none;
  supporting_source_event_ids = text "s1" ∷ [];
  sensitivity = private;
  from_password_field = false;
}

abbrev plan : MemoryMutationPlan ℕ
plan = create (record { extraction_run_id = text "run"; candidate_index = 0 }) candidate active

abbrev start : Database ℕ
start = record {
  memories = [];
  memory_scopes = [];
  categories = record { id = text "c"; slug = text "uncategorized" } ∷ [];
  apps = [];
  source_events = text "s1" ∷ [];
  entities = [];
  entity_aliases = [];
  memory_categories = [];
  memory_apps = [];
  memory_sources = [];
  memory_entities = [];
  memory_relations = [];
  memory_search_documents = [];
  memory_embeddings = [];
  extraction_candidates = [];
  projection_jobs = [];
  memory_events = [];
  memory_profiles = [];
  activity_segments = [];
  activity_segment_sources = [];
  memory_tombstones = [];
}

abbrev same_text : Text → Text
same_text t = t

abbrev applied : Result (Database ℕ × MemoryMutationResult) StoreError
applied = apply_plan hundredths_f32 same_text same_text start plan (text "m1") (pos 7)

-- The tables after a run, if it succeeds.
abbrev tables_of : Result (Database ℕ × MemoryMutationResult) StoreError → Database ℕ
tables_of (ok x) = x.0
tables_of (err e) = start

abbrev created : MemoryMutationResult
created = record { memory_id = some (text "m1"); status = active; was_already_applied = false }

-- A plan that adds a memory for review to the one that is there.
abbrev extension : MemoryMutationPlan ℕ
extension =
    extend (record { extraction_run_id = text "run"; candidate_index = 1 }) (text "m1") candidate
      pending_review

abbrev extended : Result (Database ℕ × MemoryMutationResult) StoreError
extended =
    apply_plan hundredths_f32 same_text same_text (tables_of applied) extension (text "m2") (pos 8)

abbrev added : MemoryMutationResult
added = record {
  memory_id = some (text "m2");
  status = pending_review;
  was_already_applied = false;
}

abbrev deleted : Result (Database ℕ) StoreError
deleted = delete_memory (tables_of applied) (text "m1") 1 permanent (text "user") (pos 10)

abbrev left_of : Result (Database ℕ) StoreError → Database ℕ
left_of (ok db) = db
left_of (err e) = start

-- The same deletion while another memory has the same source.
abbrev deleted_first : Result (Database ℕ) StoreError
deleted_first = delete_memory (tables_of extended) (text "m1") 1 permanent (text "user") (pos 10)

abbrev has_source : Database ℕ → Bool
has_source db = is_kept db (text "s1")

-- The runs succeed; the source of the deleted memory is its first one, and is kept.
runs-ok :
    (applied ≡ ok (tables_of applied, created))
    × (extended ≡ ok (tables_of extended, added))
    × (deleted ≡ ok (left_of deleted))
    × (deleted_first ≡ ok (left_of deleted_first))
    × (has_source (left_of deleted_first) ≡ true)
    × In (text "s1") (sources_of (tables_of extended) (text "m1"))
unfolding delete_memory ensure_revision invalidate_affected_profiles is_affected is_under delete_row
    delete_sources delete_empty_segments bury apply_plan validate_plan_for_storage
    validate_candidate_for_storage normalize_content collapse_whitespace ceiling_hundredths
    is_global is_reversed inspect_private_content has_private_key contains lower_char has_any
    has_card digit_runs split is_break is_inferred MemoryStatus-discrete trust_rank is_blank
    is_whitespace join_space split_whitespace text_eq words_from is_ascii_digit is_card luhn_digit
    luhn_sum luhn_valid starts_with idempotency_key AppRole-discrete enqueue_written finish_plan
    validate_categories_exist validate_references_exist EntityRole-discrete EntityType-discrete
    document_of enqueue_projection enqueue_projection_refresh_tx insert_candidate_tx
    refresh_search_document scope_id_of outcome_status relate remove_document saturating_succ
    supersede support write_plan ScopeType-discrete assign_categories insert_memory link_apps
    link_categories link_category link_entity link_sources mentioned_ids resolve_entities
    upsert_scope record_event_tx scope_type_str
runs-ok = (refl, refl, refl, refl, refl, inl refl)

apply_plan-replayed_example :
    apply_plan hundredths_f32 same_text same_text (tables_of extended) extension (text "m3") (pos 9)
    ≡ ok (
      tables_of extended,
      record {
        memory_id = some (text "m2");
        status = outcome_status (text "extend");
        was_already_applied = true;
      },
    )
apply_plan-replayed_example =
    apply_plan-replayed hundredths_f32 same_text same_text (tables_of applied) extension (text "m2")
      (pos 8) (tables_of extended) added (text "m3") (pos 9) runs-ok.1

delete_memory-IsErased_example : IsErased (left_of deleted) (text "m1")
delete_memory-IsErased_example =
    delete_memory-IsErased (tables_of applied) (text "m1") 1 (text "user") (pos 10)
      (left_of deleted) runs-ok.2

delete_memory-supported_example : supports (left_of deleted_first) (text "s1") ≡ true
delete_memory-supported_example =
    delete_memory-supported (tables_of extended) (text "m1") 1 (text "user") (pos 10)
      (left_of deleted_first) (text "s1") runs-ok.3 runs-ok.5 runs-ok.4

-- A memory is added, another one for review, which is confirmed, and the first one is forgotten.
abbrev calls : List (StoreCall hundredths_f32 same_text same_text)
calls =
    applies plan (text "m1") (pos 7)
    ∷ applies extension (text "m2") (pos 8)
    ∷ confirms (text "m2") 1 (text "user") (pos 9)
    ∷ deletes (text "m1") 1 forget (text "user") (pos 10)
    ∷ []

run_calls-IsIndexed_example : IsIndexed (run_calls hundredths_f32 same_text same_text start calls)
run_calls-IsIndexed_example =
    run_calls-IsIndexed hundredths_f32 same_text same_text start calls (tt, tt)
