-- ===== src/Extraction.antt =====
-- crates/mega-memory/src/extraction.rs: the contract with the extractor. What it returns is checked
-- against its batch, and normalized, before anything else sees it. `F` is `f32`; a set is a list, and
-- the catalog of apps is its `contains`.
pub mod Candidates
pub mod Accepted
pub mod Responses
mod Tests
use stalky.Privacy.{PrivacyRejection, inspect_private_content}
use stalky.Prelude.Int.{ℤ, ltb_ℤ}
use stalky.Candidate.{CandidateEntity, MemoryCandidate, CandidateScope}
use stalky.Prelude.Text.{Text, collapse_whitespace, text, is_blank, is_empty, text_eq, text_mem}
use stalky.Model.Floats.{Float32, in_unit}
use stalky.Model.{
  AssertionMode, ScopeType, ceiling_hundredths, global, inferred, manual, explicit, observed,
  imported, MemoryType, Sensitivity,
}
use stalky.Prelude.{
  ◌>>◌, ◌>>=◌, List, Option, Result, ℕ, Bool, [], false, reject_if, ◌∷◌, if◌then◌else◌, length, ltb,
  not, ok, true, err, leb, ◌&&◌, ◌||◌, ◌++◌, some, none,
}

abbrev pub max_extraction_input_chars : ℕ
max_extraction_input_chars = 12000

abbrev pub extractor_prompt_version : Text
extractor_prompt_version = text "stalky-memory-v1"

pub record ExtractionBatch : Type 0 where
  pub extraction_run_id : Text
  pub activity_segment_ids : List Text
  pub source_event_ids : List Text
  pub privacy_filtered_text : Text

pub record ExtractionMetadata : Type 0 where
  pub extractor_prompt_version : Text
  pub provider : Text
  pub model : Text
  pub private_content_left_device : Bool

pub record ProviderUsage : Type 0 where
  pub input_tokens : Option ℕ
  pub output_tokens : Option ℕ
  pub latency_ms : ℕ

pub record ExtractionResponse (F : Type 0) : Type 0 where
  pub candidates : List (MemoryCandidate F)
  pub metadata : ExtractionMetadata
  pub usage : ProviderUsage

pub record CandidateValidationContext : Type 0 where
  pub extraction_batch_source_ids : List Text
  pub category_slugs : List Text
  pub app_catalog : Text → Bool

pub record ManualMemoryInput (F : Type 0) : Type 0 where
  pub content : Text
  pub memory_type : MemoryType
  pub category_slugs : List Text
  pub scope : CandidateScope
  pub applicable_app_ids : List Text
  pub entity_mentions : List (CandidateEntity F)
  pub importance : F
  pub sensitivity : Sensitivity
  pub valid_from_ms : Option ℤ
  pub valid_until_ms : Option ℤ

pub data ValidationError (F : Type 0) : Type 0 where
  content_length : ℕ → ValidationError F
  invalid_unit_value : Text → ValidationError F
  confidence_above_mode_ceiling : F → F → ValidationError F
  too_many_categories : ValidationError F
  unknown_category : Text → ValidationError F
  invalid_source_count : ValidationError F
  source_outside_batch : Text → ValidationError F
  unknown_app : Text → ValidationError F
  missing_scope_key invalid_validity_interval empty_entity_mention : ValidationError F
  privacy : PrivacyRejection → ValidationError F
  extraction_batch_too_large : ℕ → ValidationError F
  missing_activity_segment too_many_candidates : ValidationError F
  unexpected_prompt_version invalid_provider_metadata : ValidationError F

-- `normalize_content`
unfoldable pub normalize_content : Text → Text
normalize_content t = collapse_whitespace t

-- `ExtractionBatch::validate`
unfoldable pub validate_batch :
    {F : Type 0} → ExtractionBatch → Result (Unit {0}) (ValidationError F)
validate_batch batch = do
  reject_if (ltb max_extraction_input_chars (length batch.privacy_filtered_text))
      (extraction_batch_too_large (length batch.privacy_filtered_text))
  reject_if (is_empty batch.activity_segment_ids) missing_activity_segment
  ok tt

-- A loop that returns an error at the first text that fails a test.
unfoldable pub check_each :
    {E : Type 0} → (Text → Bool) → (Text → E) → List Text → Result (Unit {0}) E
check_each p e [] = ok tt
check_each p e (t ∷ ts) = reject_if (not (p t)) (e t) >> check_each p e ts

-- `deduplicate`, with the values seen before.
unfoldable pub dedup_from : List Text → List Text → List Text
dedup_from seen [] = []
dedup_from seen (v ∷ vs) =
    let old = dedup_from seen vs in
    let new = dedup_from (v ∷ seen) vs in if text_mem v seen then old else v ∷ new

unfoldable pub deduplicate : List Text → List Text
deduplicate values = dedup_from [] values

-- The privacy guard's errors, by `?`.
abbrev pub as_validation :
    {F : Type 0} → Result (Unit {0}) PrivacyRejection → Result (Unit {0}) (ValidationError F)
as_validation (ok u) = ok u
as_validation (err e) = err (privacy e)

unfoldable pub is_reversed : Option ℤ → Option ℤ → Bool
is_reversed (Option.some from) (Option.some until) = ltb_ℤ until from
is_reversed none until = false
is_reversed (some from) none = false

unfoldable pub source_count_fails : AssertionMode → ℕ → Bool
source_count_fails manual count = ltb 20 count
source_count_fails explicit count = not (leb 1 count && leb count 20)
source_count_fails observed count = not (leb 1 count && leb count 20)
source_count_fails inferred count = not (leb 1 count && leb count 20)
source_count_fails imported count = not (leb 1 count && leb count 20)

unfoldable pub is_global : ScopeType → Bool
is_global global = true
is_global _ = false

unfoldable pub is_inferred : AssertionMode → Bool
is_inferred inferred = true
is_inferred _ = false

module _ (fl : Float32) where
  open fl use {F, is_finite, lt, hundredths}

  unfoldable pub finite_unit : Text → F → Result (Unit {0}) (ValidationError F)
  finite_unit field value =
      reject_if (not (is_finite value && in_unit fl value)) (invalid_unit_value field)

  -- `AssertionMode::confidence_ceiling`
  abbrev pub confidence_ceiling : AssertionMode → F
  confidence_ceiling mode = hundredths (ceiling_hundredths mode)

  -- `ManualMemoryInput::into_candidate`
  unfoldable pub into_candidate : ManualMemoryInput F → MemoryCandidate F
  into_candidate input = record {
    content = input.content;
    memory_type = input.memory_type;
    assertion_mode = manual;
    category_slugs = input.category_slugs;
    scope = input.scope;
    source_app_ids = [];
    applicable_app_ids = input.applicable_app_ids;
    entity_mentions = input.entity_mentions;
    importance = input.importance;
    confidence = hundredths 100;
    valid_from_ms = input.valid_from_ms;
    valid_until_ms = input.valid_until_ms;
    supporting_source_event_ids = [];
    sensitivity = input.sensitivity;
    from_password_field = false;
  }

  unfoldable pub validate_sources :
      MemoryCandidate F → CandidateValidationContext → Result (Unit {0}) (ValidationError F)
  validate_sources candidate context = do
    reject_if
        (source_count_fails candidate.assertion_mode (length candidate.supporting_source_event_ids))
        invalid_source_count
    check_each (λ id. text_mem id context.extraction_batch_source_ids) source_outside_batch
        candidate.supporting_source_event_ids

  -- The loop over the mentioned entities.
  unfoldable pub validate_entities :
      List (CandidateEntity F) → Result (List (CandidateEntity F)) (ValidationError F)
  validate_entities [] = ok []
  validate_entities (e ∷ es) = do
    reject_if (is_empty (normalize_content e.mention)) empty_entity_mention
    finite_unit (text "entity confidence") e.confidence
    rest ← validate_entities es
    ok (record e { mention = normalize_content e.mention } ∷ rest)

  -- `MemoryCandidate::validate`
  unfoldable pub validate :
      MemoryCandidate F
      → CandidateValidationContext
      → Result (MemoryCandidate F) (ValidationError F)
  validate c context = do
    reject_if
        (not (
          leb 8 (length (normalize_content c.content))
          && leb (length (normalize_content c.content)) 500))
        (content_length (length (normalize_content c.content)))
    finite_unit (text "importance") c.importance
    finite_unit (text "confidence") c.confidence
    reject_if (lt (confidence_ceiling c.assertion_mode) c.confidence)
        (confidence_above_mode_ceiling c.confidence (confidence_ceiling c.assertion_mode))
    reject_if (ltb 5 (length c.category_slugs)) too_many_categories
    check_each (λ slug. text_mem slug context.category_slugs) unknown_category
        (deduplicate c.category_slugs)
    validate_sources c context
    check_each context.app_catalog unknown_app (c.source_app_ids ++ c.applicable_app_ids)
    reject_if (not (is_global c.scope.scope_type) && is_blank c.scope.scope_key) missing_scope_key
    reject_if (is_reversed c.valid_from_ms c.valid_until_ms) invalid_validity_interval
    mentions ← validate_entities c.entity_mentions
    as_validation (
        inspect_private_content (normalize_content c.content) c.from_password_field
          (is_inferred c.assertion_mode))
    ok (record c {
      content = normalize_content c.content;
      category_slugs = deduplicate c.category_slugs;
      entity_mentions = mentions;
    })

  -- `map(validate).collect::<Result<_, _>>()`
  unfoldable pub validate_all :
      List (MemoryCandidate F)
      → CandidateValidationContext
      → Result (List (MemoryCandidate F)) (ValidationError F)
  validate_all [] context = ok []
  validate_all (c ∷ cs) context = do
    v ← validate c context
    vs ← validate_all cs context
    ok (v ∷ vs)

  unfoldable pub is_bad_name : Text → Bool
  is_bad_name name = is_blank name || ltb 128 (length name)

  unfoldable pub validate_extraction_response :
      ExtractionBatch
      → ExtractionResponse F
      → CandidateValidationContext
      → Result (List (MemoryCandidate F) × ExtractionMetadata × ProviderUsage) (ValidationError F)
  validate_extraction_response batch response context = do
    validate_batch batch
    reject_if (ltb 64 (length response.candidates)) too_many_candidates
    reject_if (not (text_eq response.metadata.extractor_prompt_version extractor_prompt_version))
        unexpected_prompt_version
    reject_if (is_bad_name response.metadata.provider || is_bad_name response.metadata.model)
        invalid_provider_metadata
    candidates ← validate_all response.candidates context
    ok (candidates, response.metadata, response.usage)
