-- ===== src/Reconcile/Review.antt =====
-- Which candidates `reconcile_candidate` of crates/mega-memory/src/reconcile.rs holds back for
-- review.
use stalky.Prelude.Text.{text}
use stalky.Reconcile.Safety.{Way, refused, repeats, supersedes, adds, Way-total}
use stalky.Model.{
  pending_review, preference, MemoryStatus, observed, inferred, active, sensitive,
  MemoryStatus-discrete,
}
use stalky.Prelude.{
  ◌≡◌, Option, ok, [], arith, none, ◌≢◌, some, ◌<◌, refl, ◌⊎◌, same→eq, sym, ◌∙◌, ap, ok-injective,
  inr, same, true, Bool-cases, inl,
}
use stalky.Model.Floats.{Float32}
use stalky.Reconcile.{
  ReconciliationInput, MemoryMutationPlan, plan_duplicate, plan_new, plan_update,
  reconcile_candidate, status_of, ReconciliationMatch, best_match, idempotency_key, create,
  duplicate, request_review, update, extend, fields_of, ignore, best_from, review_reason,
  lacks_support,
}

-- What the plan makes part of the active memories as an assertion of its own.
abbrev pub asserts : {F : Type 0} → MemoryMutationPlan F → Option MemoryStatus
asserts (create k c s) = some s
asserts (duplicate k id sources confidence) = none
asserts (update k id c s) = some s
asserts (extend k id c s) = some s
asserts (ignore k reason) = none
asserts (request_review k c reason) = none

-- An observed preference without three observations in two segments, or a sensitive inference.
abbrev pub NeedsReview : {F : Type 0} → ReconciliationInput F → Type 0
NeedsReview input =
    ((input.candidate.memory_type ≡ preference)
      × (input.candidate.assertion_mode ≡ observed)
      × ((input.supporting_observation_count < 3) ⊎ (input.supporting_activity_segment_count < 2)))
    ⊎ ((input.candidate.assertion_mode ≡ inferred) × (input.candidate.sensitivity ≡ sensitive))

module _ (fl : Float32) where
  open fl use {F}

  status_of-NeedsReview :
      (input : ReconciliationInput F) → NeedsReview input → status_of fl input ≡ pending_review
  unfolding status_of
  status_of-NeedsReview input h = ground arith

  plan_update-holds :
      (input : ReconciliationInput F) (m : ReconciliationMatch F)
      → status_of fl input ≡ pending_review
      → asserts (plan_update fl input m) ≢ some active
  unfolding plan_update
  plan_update-holds input m h e =
      ground (arith, same→eq MemoryStatus-discrete (status_of fl input) active)

  plan_new-holds :
      (input : ReconciliationInput F) (o : Option (ReconciliationMatch F))
      → status_of fl input ≡ pending_review
      → asserts (plan_new fl input o) ≢ some active
  unfolding plan_new
  plan_new-holds input none h e = ground arith
  plan_new-holds input (some m) h e = ground arith

  plan_duplicate-holds :
      (input : ReconciliationInput F) (m : ReconciliationMatch F) (plan : MemoryMutationPlan F)
      → plan_duplicate fl input m ≡ ok plan
      → asserts plan ≡ none
  unfolding plan_duplicate
  plan_duplicate-holds input m plan e = ground arith

  -- No plan for a candidate that needs review creates an active memory, updates one, or extends one
  -- by an active assertion.
  pub NeedsReview-holds :
      (input : ReconciliationInput F) (plan : MemoryMutationPlan F)
      → NeedsReview input
      → reconcile_candidate fl input ≡ ok plan
      → asserts plan ≢ some active
  NeedsReview-holds input plan n e a = on (Way-total fl input)
    where
      pending : status_of fl input ≡ pending_review
      pending = status_of-NeedsReview input n

      on : Way fl input → ⊥
      on (refused b w) = cc
      on (repeats m d w) = ground (arith, plan_duplicate-holds input m plan (sym w ∙ e), a)
      on (supersedes m u w) =
          plan_update-holds input m pending (ap asserts (ok-injective (sym w ∙ e)) ∙ a)
      on (adds d u w) = plan_new-holds input _ pending (ap asserts (ok-injective (sym w ∙ e)) ∙ a)

  plan_update-key :
      (input : ReconciliationInput F) (m : ReconciliationMatch F)
      → idempotency_key (plan_update fl input m) ≡ (input.extraction_run_id, input.candidate_index)
  unfolding plan_update idempotency_key
  plan_update-key input m = ground arith

  plan_new-key :
      (input : ReconciliationInput F) (o : Option (ReconciliationMatch F))
      → idempotency_key (plan_new fl input o) ≡ (input.extraction_run_id, input.candidate_index)
  unfolding plan_new idempotency_key
  plan_new-key input none = ground arith
  plan_new-key input (some m) = refl

  plan_duplicate-key :
      (input : ReconciliationInput F) (m : ReconciliationMatch F) (plan : MemoryMutationPlan F)
      → plan_duplicate fl input m ≡ ok plan
      → idempotency_key plan ≡ (input.extraction_run_id, input.candidate_index)
  unfolding plan_duplicate idempotency_key
  plan_duplicate-key input m plan e = ground arith

  -- Every plan carries the run and the index of the candidate that it is for.
  pub idempotency_key-reconcile :
      (input : ReconciliationInput F) (plan : MemoryMutationPlan F)
      → reconcile_candidate fl input ≡ ok plan
      → idempotency_key plan ≡ (input.extraction_run_id, input.candidate_index)
  idempotency_key-reconcile input plan e = on (Way-total fl input)
    where
      on : Way fl input → idempotency_key plan ≡ (input.extraction_run_id, input.candidate_index)
      on (refused b w) = cc
      on (repeats m d w) = plan_duplicate-key input m plan (sym w ∙ e)
      on (supersedes m u w) =
          ap idempotency_key (sym (ok-injective (sym w ∙ e))) ∙ plan_update-key input m
      on (adds d u w) = ap idempotency_key (sym (ok-injective (sym w ∙ e))) ∙ plan_new-key input _

  reconcile-no_match :
      (input : ReconciliationInput F)
      → input.existing_matches ≡ []
      → reconcile_candidate fl input ≡ ok (plan_new fl input none)
  unfolding reconcile_candidate best_match best_from
  reconcile-no_match input m = ground arith

  plan_new-review :
      (input : ReconciliationInput F)
      → status_of fl input ≡ pending_review
      → (input.supporting_observation_count < 3) ⊎ (input.supporting_activity_segment_count < 2)
      → plan_new fl input none
        ≡ request_review
            (fields_of fl input)
            input.candidate
            (text "observed preference requires three observations across two activity segments")
  unfolding plan_new review_reason
  plan_new-review input h few =
      elim (Bool-cases (
        lacks_support input.supporting_observation_count input.supporting_activity_segment_count)) [
          | inl e ↦ rw (pending h, e)
          | inr e ↦ absurd (unfold lacks_support in ground arith)
        ]
    where
      pending :
          status_of fl input ≡ pending_review
          → same MemoryStatus-discrete (status_of fl input) pending_review ≡ true
      pending h = ground arith

  -- The reason that is given for a sensitive inference depends on the counts that only an observed
  -- preference is judged by: with less than three observations or two segments, and no match at
  -- all, it is sent to review as an observed preference.
  pub sensitive_inference_reason :
      (input : ReconciliationInput F)
      → input.existing_matches ≡ []
      → input.candidate.assertion_mode ≡ inferred
      → input.candidate.sensitivity ≡ sensitive
      → (input.supporting_observation_count < 3) ⊎ (input.supporting_activity_segment_count < 2)
      → reconcile_candidate fl input
        ≡ ok (
            request_review
              (fields_of fl input)
              input.candidate
              (text "observed preference requires three observations across two activity segments"))
  sensitive_inference_reason input m i s few =
      reconcile-no_match input m
      ∙ ap ok (plan_new-review input (status_of-NeedsReview input (inr (i, s))) few)
