-- ===== src/Reconcile.antt =====
-- crates/mega-memory/src/reconcile.rs: a validated candidate against the memories that match it
-- gives the plan of one mutation. `MemoryCandidate` is that of extraction.rs beside it.
pub mod Matches
pub mod Safety
pub mod Review
mod Tests
use stalky.Prelude.Text.{Text, text}
use stalky.Prelude.{
  Bool, List, Option, Result, if◌then◌else◌, ℕ, any, ltb, none, same, some, ◌&&◌, ◌∷◌, [], not, ok,
  retain, ◌||◌, err,
}
use stalky.Model.Floats.{Float32, in_unit}
use stalky.Model.{
  Memory, MemoryType, MemoryType-discrete, AssertionMode, MemoryStatus, active, pending_review,
  MemoryStatus-discrete, Sensitivity, observed, inferred, explicit, imported, manual, sensitive,
  preference, ceiling_hundredths, trust_rank,
}
use stalky.Candidate.{MemoryCandidate}

pub data CandidateRelationship : Type 0 where
  exact_duplicate updates extends contradicts related : CandidateRelationship

unfoldable pub CandidateRelationship-discrete : Discrete CandidateRelationship
CandidateRelationship-discrete = hlevel

pub record ReconciliationMatch (F : Type 0) : Type 0 where
  pub memory : Memory F
  pub relationship : CandidateRelationship
  pub confidence : F

pub record ReconciliationInput (F : Type 0) : Type 0 where
  pub extraction_run_id : Text
  pub candidate_index : ℕ
  pub candidate : MemoryCandidate F
  pub existing_matches : List (ReconciliationMatch F)
  pub supporting_observation_count : ℕ
  pub supporting_activity_segment_count : ℕ

-- The fields that all plans share are those of `PlanFields`.
pub record PlanFields : Type 0 where
  pub extraction_run_id : Text
  pub candidate_index : ℕ

pub data MemoryMutationPlan (F : Type 0) : Type 0 where
  create : PlanFields → MemoryCandidate F → MemoryStatus → MemoryMutationPlan F
  duplicate : PlanFields → Text → List Text → F → MemoryMutationPlan F
  update : PlanFields → Text → MemoryCandidate F → MemoryStatus → MemoryMutationPlan F
  extend : PlanFields → Text → MemoryCandidate F → MemoryStatus → MemoryMutationPlan F
  ignore : PlanFields → Text → MemoryMutationPlan F
  request_review : PlanFields → MemoryCandidate F → Text → MemoryMutationPlan F

unfoldable pub idempotency_key : {F : Type 0} → MemoryMutationPlan F → Text × ℕ
idempotency_key (create k c s) = (k.extraction_run_id, k.candidate_index)
idempotency_key (duplicate k i s c) = (k.extraction_run_id, k.candidate_index)
idempotency_key (update k i c s) = (k.extraction_run_id, k.candidate_index)
idempotency_key (extend k i c s) = (k.extraction_run_id, k.candidate_index)
idempotency_key (ignore k r) = (k.extraction_run_id, k.candidate_index)
idempotency_key (request_review k c r) = (k.extraction_run_id, k.candidate_index)

pub data ReconciliationError : Type 0 where
  invalid_match_confidence duplicate_target_not_active : ReconciliationError

lacks_support : ℕ → ℕ → Bool
lacks_support observations segments = ltb observations 3 || ltb segments 2

unfoldable pub promotion_status : MemoryType → AssertionMode → Sensitivity → ℕ → ℕ → MemoryStatus
unfolding lacks_support
promotion_status preference observed s observations segments =
    if lacks_support observations segments then pending_review else active
promotion_status t inferred sensitive observations segments = pending_review
promotion_status t m s observations segments = active

unfoldable pub review_reason : ℕ → ℕ → Text
unfolding lacks_support
review_reason observations segments =
    if lacks_support observations segments
    then text "observed preference requires three observations across two activity segments"
    else text "sensitive inferred memory requires review"

abbrev pub low_trust_reason : Text
low_trust_reason = text "lower-trust assertion cannot supersede higher-trust memory"

abbrev pub ineligible_reason : Text
ineligible_reason = text "candidate is not eligible to supersede an active memory"

module _ (fl : Float32) where
  open fl use {F, is_finite, total_le, maximum, minimum, hundredths}

  -- `max_by` keeps the later of two equals.
  unfoldable pub best_from :
      Option (ReconciliationMatch F) → List (ReconciliationMatch F) → Option (ReconciliationMatch F)
  best_from best [] = best
  best_from none (m ∷ ms) = best_from (some m) ms
  best_from (some b) (m ∷ ms) =
      best_from (some (if total_le b.confidence m.confidence then m else b)) ms

  unfoldable pub best_match :
      List (ReconciliationMatch F) → CandidateRelationship → Option (ReconciliationMatch F)
  unfolding best_from
  best_match matches r =
      best_from none (retain (λ m. same CandidateRelationship-discrete m.relationship r) matches)

  unfoldable pub is_valid_confidence : F → Bool
  is_valid_confidence x = is_finite x && in_unit fl x

  -- `Option::or_else`
  abbrev pub or_else : {A : Type 0} → Option A → Option A → Option A
  or_else none b = b
  or_else (some a) b = some a

  unfoldable pub status_of : ReconciliationInput F → MemoryStatus
  unfolding promotion_status
  status_of input =
      let c = input.candidate in
      promotion_status c.memory_type c.assertion_mode c.sensitivity
        input.supporting_observation_count input.supporting_activity_segment_count

  abbrev pub fields_of : ReconciliationInput F → PlanFields
  fields_of input = record {
    extraction_run_id = input.extraction_run_id;
    candidate_index = input.candidate_index;
  }

  unfoldable pub plan_duplicate :
      ReconciliationInput F
      → ReconciliationMatch F
      → Result (MemoryMutationPlan F) ReconciliationError
  plan_duplicate input m =
      if same MemoryStatus-discrete m.memory.status active
      then ok (
          duplicate (fields_of input) m.memory.id input.candidate.supporting_source_event_ids (
            minimum (maximum m.memory.confidence input.candidate.confidence)
              (hundredths (ceiling_hundredths input.candidate.assertion_mode))))
      else err duplicate_target_not_active

  unfoldable pub plan_update : ReconciliationInput F → ReconciliationMatch F → MemoryMutationPlan F
  plan_update input m =
      if ltb (trust_rank input.candidate.assertion_mode) (trust_rank m.memory.assertion_mode)
      then request_review (fields_of input) input.candidate low_trust_reason
      else if not (same MemoryStatus-discrete (status_of input) active)
      then request_review (fields_of input) input.candidate ineligible_reason
      else update (fields_of input) m.memory.id input.candidate (status_of input)

  -- The plan for a candidate that supersedes nothing.
  unfoldable pub plan_new :
      ReconciliationInput F → Option (ReconciliationMatch F) → MemoryMutationPlan F
  plan_new input (some m) = extend (fields_of input) m.memory.id input.candidate (status_of input)
  plan_new input none =
      if same MemoryStatus-discrete (status_of input) pending_review
      then request_review (fields_of input) input.candidate
          (review_reason input.supporting_observation_count input.supporting_activity_segment_count)
      else create (fields_of input) input.candidate (status_of input)

  unfoldable pub reconcile_candidate :
      ReconciliationInput F → Result (MemoryMutationPlan F) ReconciliationError
  reconcile_candidate input =
      let ms = input.existing_matches in
      if any (λ m. not (is_valid_confidence m.confidence)) ms
      then err invalid_match_confidence
      else elim (best_match ms exact_duplicate) [
        | some m ↦ plan_duplicate input m
        | none ↦ elim (or_else (best_match ms updates) (best_match ms contradicts)) [
          | some m ↦ ok (plan_update input m)
          | none ↦ ok (plan_new input (best_match ms extends))
        ]
      ]
