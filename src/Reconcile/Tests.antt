-- ===== src/Reconcile/Tests.antt =====
-- Candidates and matches with confidences in hundredths.
use stalky.Prelude.Int.{pos}
use stalky.Reconcile.Safety.{update_is_trusted}
use stalky.Prelude.Text.{text}
use stalky.Reconcile.Review.{asserts, sensitive_inference_reason, NeedsReview-holds}
use stalky.Prelude.{
  ℕ, ◌≡◌, In, List, ok, arith, ◌⊎◌, [], ◌∷◌, ◌≢◌, inl, none, refl, some, false, ◌≤◌, inr,
}
use stalky.Model.{
  Memory, global, private, active, AssertionMode, Sensitivity, explicit, inferred,
  ceiling_hundredths, observed, preference, sensitive, trust_rank, MemoryStatus-discrete,
}
use stalky.Model.Hundredths.{hundredths_f32}
use stalky.Candidate.{MemoryCandidate}
use stalky.Reconcile.{
  reconcile_candidate, ReconciliationInput, ReconciliationMatch, PlanFields, best_match,
  CandidateRelationship, plan_duplicate, plan_update, request_review, update, exact_duplicate,
  status_of, duplicate, updates, contradicts, CandidateRelationship-discrete, is_valid_confidence,
}

abbrev candidate_of : AssertionMode → Sensitivity → MemoryCandidate ℕ
candidate_of mode s = record {
  content = text "User prefers Svelte for new projects.";
  memory_type = preference;
  assertion_mode = mode;
  category_slugs = [];
  scope = record { scope_type = global; scope_key = text "global"; display_name = text "Global" };
  source_app_ids = [];
  applicable_app_ids = [];
  entity_mentions = [];
  importance = 80;
  confidence = 75;
  valid_from_ms = none;
  valid_until_ms = none;
  supporting_source_event_ids = text "s1" ∷ [];
  sensitivity = s;
  from_password_field = false;
}

abbrev memory_of : AssertionMode → Memory ℕ
memory_of mode = record {
  id = text "m1";
  normalized_content = text "user prefers react";
  display_content = text "User prefers React.";
  memory_type = preference;
  assertion_mode = mode;
  status = active;
  scope = record {
    id = text "global";
    scope_type = global;
    scope_key = text "global";
    display_name = text "Global";
  };
  source_app_ids = [];
  applicable_app_ids = [];
  category_slugs = [];
  entities = [];
  source_event_ids = [];
  importance = 70;
  confidence = 100;
  sensitivity = private;
  valid_from_ms = none;
  valid_until_ms = none;
  created_at_ms = pos 0;
  updated_at_ms = pos 0;
  revision = 1;
}

abbrev match_of : AssertionMode → CandidateRelationship → ReconciliationMatch ℕ
match_of mode r = record { memory = memory_of mode; relationship = r; confidence = 90 }

abbrev input_of : MemoryCandidate ℕ → List (ReconciliationMatch ℕ) → ReconciliationInput ℕ
input_of c ms = record {
  extraction_run_id = text "run";
  candidate_index = 0;
  candidate = c;
  existing_matches = ms;
  supporting_observation_count = 1;
  supporting_activity_segment_count = 1;
}

abbrev superseding : ReconciliationInput ℕ
superseding = input_of (candidate_of explicit private) (match_of observed updates ∷ [])

abbrev key : PlanFields
key = record { extraction_run_id = text "run"; candidate_index = 0 }

superseding_test :
    reconcile_candidate hundredths_f32 superseding
    ≡ ok (update key (text "m1") (candidate_of explicit private) active)
unfolding reconcile_candidate best_match plan_update status_of trust_rank is_valid_confidence
    CandidateRelationship-discrete MemoryStatus-discrete
superseding_test = refl

update_is_trusted_example :
    (m : ReconciliationMatch ℕ) × In m (match_of observed updates ∷ [])
    × ((m.relationship ≡ updates) ⊎ (m.relationship ≡ contradicts))
    × (m.memory.id ≡ text "m1")
    × (trust_rank m.memory.assertion_mode ≤ trust_rank explicit)
    × (candidate_of explicit private ≡ candidate_of explicit private)
    × (active ≡ active)
    × (status_of hundredths_f32 superseding ≡ active)
update_is_trusted_example =
    update_is_trusted hundredths_f32 superseding key (text "m1") (candidate_of explicit private)
      active superseding_test

abbrev repeating : ReconciliationInput ℕ
repeating = input_of (candidate_of inferred private) (match_of explicit exact_duplicate ∷ [])

repeating_test :
    reconcile_candidate hundredths_f32 repeating
    ≡ ok (duplicate key (text "m1") (text "s1" ∷ []) 75)
unfolding reconcile_candidate best_match plan_duplicate ceiling_hundredths is_valid_confidence
    CandidateRelationship-discrete MemoryStatus-discrete
repeating_test = refl

abbrev sensitive_input : ReconciliationInput ℕ
sensitive_input = input_of (candidate_of inferred sensitive) []

sensitive_input-reviewed :
    reconcile_candidate hundredths_f32 sensitive_input
    ≡ ok (
        request_review key
          (candidate_of inferred sensitive)
          (text "observed preference requires three observations across two activity segments"))
sensitive_input-reviewed =
    sensitive_inference_reason hundredths_f32 sensitive_input refl refl refl (inl (omega arith))

NeedsReview-holds_example :
    asserts (
      request_review key
        (candidate_of inferred sensitive)
        (text "observed preference requires three observations across two activity segments"))
    ≢ some active
NeedsReview-holds_example =
    NeedsReview-holds hundredths_f32 sensitive_input _ (inr (refl, refl)) sensitive_input-reviewed
