-- ===== src/Retrieval.antt =====
-- crates/mega-memory/src/retrieval.rs: the memories that a request may see, their ranking, and the
-- context that is rendered from them. `F` is `f32`; the `HashSet` of mentioned entities is its
-- `contains`; the Display text of an `i64` is a parameter.
pub mod Render
pub mod Ranking
pub mod Scopes
pub mod Escape
pub mod Budget
pub mod Vectors
mod Tests
use stalky.Prelude.Orders.{sort_by}
use stalky.Prelude.Text.{Text, text_eq, text_mem, is_empty}
use stalky.Prelude.Int.{ℤ}
use stalky.Prelude.{
  Bool, Option, none, ℕ, List, [], any, false, if◌then◌else◌, true, ◌&&◌, not, some, map, ◌*◌, ◌||◌,
  retain,
}
use stalky.Model.Floats.{Float32}
use Prim.Native.Nat.{Ordering}
use stalky.Prelude.Orders.{then_with, cmp_text}
use stalky.Prelude.Comparisons.{cmp_ℤ}
use stalky.Model.{
  global, app, entity, AssertionMode, HistoricalMode, Memory, MemoryStatus, MemoryType, ScopeType,
  SensitivityAllowance, active, active_only, decision, explicit, forgotten, freshness_sensitive,
  project, EntityReference, allows, include_history, include_private, manual, rejected,
  pending_review, trust_rank,
}

abbrev pub default_context_token_budget : ℕ
default_context_token_budget = 1600

pub record MemoryContextRequest : Type 0 where
  pub current_app_id : Option Text
  pub active_project_key : Option Text
  pub query_text : Text
  pub mentioned_entity_ids : List Text
  pub historical_mode : HistoricalMode
  pub sensitivity_allowance : SensitivityAllowance
  pub total_token_budget : ℕ
  pub temporal_query : Bool

abbrev pub default_request : MemoryContextRequest
default_request = record {
  current_app_id = none;
  active_project_key = none;
  query_text = [];
  mentioned_entity_ids = [];
  historical_mode = active_only;
  sensitivity_allowance = include_private;
  total_token_budget = default_context_token_budget;
  temporal_query = false;
}

pub record RetrievalSignals (F : Type 0) : Type 0 where
  pub semantic_similarity : F
  pub fts_relevance : F
  pub freshness : F
  pub exact_entity_alias_match : Bool

pub record RetrievedMemory (F : Type 0) : Type 0 where
  pub memory : Memory F
  pub signals : RetrievalSignals F
  pub score : F
  pub source_timestamp_ms : Option ℤ

-- `Option::is_some_and`.
abbrev pub is_some_and {ℓ} : {A : Type ℓ} → Option A → (A → Bool) → Bool
is_some_and none p = false
is_some_and (some a) p = p a

abbrev is_active_only : HistoricalMode → Bool
is_active_only active_only = true
is_active_only include_history = false

abbrev is_active_status : MemoryStatus → Bool
is_active_status active = true
is_active_status _ = false

abbrev is_hidden : MemoryStatus → Bool
is_hidden forgotten = true
is_hidden rejected = true
is_hidden pending_review = true
is_hidden _ = false

-- An entity of the memory is mentioned.
unfoldable pub mentions : {F : Type 0} → MemoryContextRequest → Memory F → Bool
mentions request memory =
    any (λ e. text_mem (EntityReference.entity_id e) request.mentioned_entity_ids) memory.entities

unfoldable pub scope_allows : {F : Type 0} → MemoryContextRequest → Memory F → Bool
scope_allows request memory = elim memory.scope.scope_type [
  | global ↦ true
  | app ↦ is_some_and request.current_app_id (λ a. text_eq a memory.scope.scope_key)
  | project ↦ is_some_and request.active_project_key (λ p. text_eq p memory.scope.scope_key)
  | entity ↦ mentions request memory
]

unfoldable pub eligible : {F : Type 0} → MemoryContextRequest → Memory F → Bool
eligible request memory =
    if is_active_only request.historical_mode && not (is_active_status memory.status)
    then false
    else if is_hidden memory.status
    then false
    else if not (allows request.sensitivity_allowance memory.sensitivity)
    then false
    else if not (is_empty memory.applicable_app_ids)
        && not (is_some_and request.current_app_id (λ a. text_mem a memory.applicable_app_ids))
    then false
    else scope_allows request memory

abbrev is_some {ℓ} : {A : Type ℓ} → Option A → Bool
is_some none = false
is_some (some a) = true

abbrev is_decision : MemoryType → Bool
is_decision decision = true
is_decision _ = false

abbrev is_project : ScopeType → Bool
is_project project = true
is_project _ = false

abbrev is_high_trust : AssertionMode → Bool
is_high_trust explicit = true
is_high_trust manual = true
is_high_trust _ = false

module _ (fl : Float32) where
  open fl use {F, total_le, add, mul, div, clamp, hundredths, fixed2}

  scope_match : MemoryContextRequest → Memory F → F
  scope_match request memory = elim memory.scope.scope_type [
    | global ↦ hundredths 50
    | app ↦ if is_some request.current_app_id then hundredths 100 else hundredths 0
    | project ↦ if is_some request.active_project_key then hundredths 100 else hundredths 0
    | entity ↦ hundredths 100
  ]

  unit : F → F
  unit a = clamp a (hundredths 0) (hundredths 100)

  blended : MemoryContextRequest → RetrievedMemory F → F
  blended request candidate =
      let memory = candidate.memory in
      let freshness =
        if freshness_sensitive memory.memory_type
        then unit candidate.signals.freshness
        else hundredths 100 in
      let trust =
        mul (div (hundredths (100 * trust_rank memory.assertion_mode)) (hundredths 500))
          memory.confidence in
      add
        (add
          (add
            (add
              (add (mul (hundredths 40) (unit candidate.signals.semantic_similarity))
                (mul (hundredths 20) (unit candidate.signals.fts_relevance)))
              (mul (hundredths 15) (scope_match request memory)))
            (mul (hundredths 10) memory.importance))
          (mul (hundredths 10) trust))
        (mul (hundredths 5) freshness)

  -- `if test { n } else { 0.0 }`, with `n` in hundredths.
  bonus : Bool → ℕ → F
  bonus test n = if test then hundredths n else hundredths 0

  pub score : MemoryContextRequest → RetrievedMemory F → F
  score request candidate =
      let memory = candidate.memory in
      let exact_project_decision =
        is_decision memory.memory_type
        && is_project memory.scope.scope_type
        && is_some_and request.active_project_key (λ p. text_eq p memory.scope.scope_key) in
      let app_match =
        is_some_and request.current_app_id (λ a. text_mem a memory.applicable_app_ids) in
      let entity_match = candidate.signals.exact_entity_alias_match || mentions request memory in
      add
        (add
          (add (add (blended request candidate) (bonus exact_project_decision 400))
            (bonus app_match 200))
          (bonus entity_match 100))
        (bonus (is_high_trust memory.assertion_mode) 50)

  -- A candidate with its score for the request.
  abbrev pub scored : MemoryContextRequest → RetrievedMemory F → RetrievedMemory F
  scored request c = record c { score = score request c }

  -- `f32::total_cmp`.
  abbrev pub total_cmp : F → F → Ordering
  total_cmp a b =
      if total_le a b then if total_le b a then Ordering.eq else Ordering.lt else Ordering.gt

  unfoldable pub rank_order : RetrievedMemory F → RetrievedMemory F → Ordering
  rank_order left right = then_with (total_cmp right.score left.score) (
      then_with (cmp_ℤ right.memory.updated_at_ms left.memory.updated_at_ms)
        (cmp_text left.memory.id right.memory.id))

  unfoldable pub rank_memories :
      MemoryContextRequest → List (RetrievedMemory F) → List (RetrievedMemory F)
  rank_memories request candidates =
      sort_by rank_order (map (scored request) (retain (λ c. eligible request c.memory) candidates))
