-- ===== src/Extraction/Tests.antt =====
-- The candidate of the repository's own tests, with numbers in hundredths.
use stalky.Extraction.{
  normalize_content, finite_unit, check_each, deduplicate, dedup_from, validate_sources,
  source_count_fails, is_global, is_reversed, validate_entities, is_inferred, validate_batch,
  is_bad_name, validate_all,
}
use stalky.Privacy.{
  inspect_private_content, has_private_key, contains, starts_with, digit_runs, has_any, has_card,
  is_ascii_digit, is_break, is_card, lower_char, luhn_digit, luhn_sum, luhn_valid, split,
}
use stalky.Prelude.Text.{
  collapse_whitespace, text_mem, text_eq, is_blank, is_whitespace, join_space, split_whitespace,
  words_from,
}
use stalky.Model.{ceiling_hundredths}
use stalky.Model.{preference, explicit, global, private}
use stalky.Prelude.Text.{text}
use stalky.Prelude.{none, ℕ, false, ◌∷◌, ◌≡◌, [], ok, refl, ◌↔◌}
use stalky.Model.Hundredths.{hundredths_f32}
use stalky.Extraction.Accepted.{validate_iff}
use stalky.Extraction.Responses.{IsAccepted, validate_extraction_response-IsAccepted}
use stalky.Extraction.Candidates.{IsValid}
use stalky.Extraction.{
  CandidateValidationContext, ExtractionBatch, ExtractionMetadata, ExtractionResponse,
  ProviderUsage, validate, validate_extraction_response,
}
use stalky.Candidate.{MemoryCandidate}

abbrev context : CandidateValidationContext
context = record {
  extraction_batch_source_ids = text "source-1" ∷ [];
  category_slugs = text "choices.communication.length" ∷ [];
  app_catalog = text_eq (text "slack");
}

abbrev raw_candidate : MemoryCandidate ℕ
raw_candidate = record {
  content = text "  User   prefers concise explanations. ";
  memory_type = preference;
  assertion_mode = explicit;
  category_slugs = text "choices.communication.length" ∷ text "choices.communication.length" ∷ [];
  scope = record { scope_type = global; scope_key = text "global"; display_name = text "Global" };
  source_app_ids = text "slack" ∷ [];
  applicable_app_ids = [];
  entity_mentions = [];
  importance = 70;
  confidence = 70;
  valid_from_ms = none;
  valid_until_ms = none;
  supporting_source_event_ids = text "source-1" ∷ [];
  sensitivity = private;
  from_password_field = false;
}

abbrev clean_candidate : MemoryCandidate ℕ
clean_candidate = record raw_candidate {
  content = text "User prefers concise explanations.";
  category_slugs = text "choices.communication.length" ∷ [];
}

raw-accepted : validate hundredths_f32 raw_candidate context ≡ ok clean_candidate
unfolding validate normalize_content collapse_whitespace finite_unit ceiling_hundredths check_each
    deduplicate dedup_from text_mem text_eq validate_sources source_count_fails is_global
    is_reversed validate_entities inspect_private_content has_private_key contains starts_with
    is_inferred is_blank is_whitespace join_space split_whitespace words_from digit_runs has_any
    has_card is_ascii_digit is_break is_card lower_char luhn_digit luhn_sum luhn_valid split
raw-accepted = refl

validate_iff_example :
    ((validate hundredths_f32 raw_candidate context ≡ ok raw_candidate)
      ↔ IsValid hundredths_f32 raw_candidate context)
    × ((v : MemoryCandidate ℕ)
        → validate hundredths_f32 raw_candidate context ≡ ok v
        → validate hundredths_f32 v context ≡ ok v)
validate_iff_example = validate_iff hundredths_f32 raw_candidate context

abbrev batch : ExtractionBatch
batch = record {
  extraction_run_id = text "run";
  activity_segment_ids = text "segment" ∷ [];
  source_event_ids = text "source-1" ∷ [];
  privacy_filtered_text = text "I prefer concise explanations";
}

abbrev metadata : ExtractionMetadata
metadata = record {
  extractor_prompt_version = text "stalky-memory-v1";
  provider = text "local";
  model = text "small";
  private_content_left_device = false;
}

abbrev usage : ProviderUsage
usage = record { input_tokens = none; output_tokens = none; latency_ms = 3 }

abbrev response : ExtractionResponse ℕ
response = record { candidates = raw_candidate ∷ []; metadata = metadata; usage = usage }

response-accepted :
    validate_extraction_response hundredths_f32 batch response context
    ≡ ok (clean_candidate ∷ [], metadata, usage)
unfolding validate_extraction_response validate_batch is_bad_name validate_all text_eq is_blank
    is_whitespace
response-accepted = simp (raw-accepted, validate_extraction_response, validate_all) refl

validate_extraction_response-IsAccepted_example :
    IsAccepted hundredths_f32 batch response context (clean_candidate ∷ []) metadata usage
validate_extraction_response-IsAccepted_example =
    validate_extraction_response-IsAccepted hundredths_f32 batch response context
      (clean_candidate ∷ []) metadata usage response-accepted
