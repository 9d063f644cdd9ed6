-- ===== src/Reconcile/Safety.antt =====
-- What each plan of `reconcile_candidate` in crates/mega-memory/src/reconcile.rs rests on.
use stalky.Reconcile.Matches.{best_match-some}
use stalky.Model.{MemoryStatus, trust_rank, active, MemoryStatus-discrete, ceiling_hundredths}
use stalky.Candidate.{MemoryCandidate}
use stalky.Prelude.Text.{Text}
use stalky.Prelude.{
  Bool-cases, List, any, Option, not, inl, ◌≡◌, inr, true, Option-cases, err, some, ok, none, refl,
  In, ◌⊎◌, ◌∙◌, ◌≢◌, arith, ◌≤◌, same→eq, sym, ok-injective,
}
use stalky.Model.Floats.{Float32}
use stalky.Reconcile.{
  exact_duplicate, updates, extends, contradicts, ReconciliationMatch, ReconciliationInput,
  invalid_match_confidence, or_else, best_match, is_valid_confidence, plan_duplicate, plan_update,
  plan_new, reconcile_candidate, PlanFields, update, status_of, duplicate,
}

module _ (fl : Float32) where
  open fl use {F, total_le, le, hundredths, minimum-le_constant}

  abbrev pub superseded_by : List (ReconciliationMatch F) → Option (ReconciliationMatch F)
  superseded_by ms = or_else fl (best_match fl ms updates) (best_match fl ms contradicts)

  -- The four ways through `reconcile_candidate`.
  pub data Way (input : ReconciliationInput F) : Type 0 where
    refused :
        any (λ m. not (is_valid_confidence fl m.confidence)) input.existing_matches ≡ true
        → reconcile_candidate fl input ≡ err invalid_match_confidence
        → Way input
    repeats :
        (m : ReconciliationMatch F)
        → best_match fl input.existing_matches exact_duplicate ≡ some m
        → reconcile_candidate fl input ≡ plan_duplicate fl input m
        → Way input
    supersedes :
        (m : ReconciliationMatch F)
        → superseded_by input.existing_matches ≡ some m
        → reconcile_candidate fl input ≡ ok (plan_update fl input m)
        → Way input
    adds :
        best_match fl input.existing_matches exact_duplicate ≡ none
        → superseded_by input.existing_matches ≡ none
        → reconcile_candidate fl input
          ≡ ok (plan_new fl input (best_match fl input.existing_matches extends))
        → Way input

  pub Way-total : (input : ReconciliationInput F) → Way input
  Way-total input =
      let ms = input.existing_matches in
      elim (Bool-cases (any (λ m. not (is_valid_confidence fl m.confidence)) ms)) [
        | inl bad ↦ refused bad (unfold reconcile_candidate in rw bad refl)
        | inr good ↦ elim (Option-cases (best_match fl ms exact_duplicate)) [
          | inr (m, d) ↦ repeats m d (unfold reconcile_candidate in rw (good, d) refl)
          | inl d ↦ elim (Option-cases (superseded_by ms)) [
            | inr (m, u) ↦ supersedes m u (unfold reconcile_candidate in rw (good, d, u) refl)
            | inl u ↦ adds d u (unfold reconcile_candidate in rw (good, d, u) refl)
          ]
        ]
      ]

  superseded_by-In :
      (ms : List (ReconciliationMatch F)) (m : ReconciliationMatch F)
      → superseded_by ms ≡ some m
      → In m ms × ((m.relationship ≡ updates) ⊎ (m.relationship ≡ contradicts))
  superseded_by-In ms m e = elim (Option-cases (best_match fl ms updates)) [
    | inr (n, u) ↦
        let k : best_match fl ms updates ≡ some m = u ∙ (rw u at e) in
        let b = best_match-some fl ms updates m k in (b.0, inl b.1)
    | inl u ↦ let b = best_match-some fl ms contradicts m (rw u at e) in (b.0, inr b.1)
  ]

  plan_new_not_update :
      (input : ReconciliationInput F) (o : Option (ReconciliationMatch F)) (k : PlanFields)
      (id : Text) (c : MemoryCandidate F) (s : MemoryStatus)
      → plan_new fl input o ≢ update k id c s
  unfolding plan_new
  plan_new_not_update input none k id c s e = ground (arith, e)
  plan_new_not_update input (some m) k id c s e = cc

  plan_duplicate_not_update :
      (input : ReconciliationInput F) (m : ReconciliationMatch F) (k : PlanFields) (id : Text)
      (c : MemoryCandidate F) (s : MemoryStatus)
      → plan_duplicate fl input m ≢ ok (update k id c s)
  unfolding plan_duplicate
  plan_duplicate_not_update input m k id c s e = ground (arith, e)

  plan_update-eq-update :
      (input : ReconciliationInput F) (m : ReconciliationMatch F) (k : PlanFields) (id : Text)
      (c : MemoryCandidate F) (s : MemoryStatus)
      → plan_update fl input m ≡ update k id c s
      → (m.memory.id ≡ id)
        × (trust_rank m.memory.assertion_mode ≤ trust_rank input.candidate.assertion_mode)
        × (c ≡ input.candidate)
        × (s ≡ active)
        × (status_of fl input ≡ active)
  unfolding plan_update
  plan_update-eq-update input m k id c s e =
      ground (arith, same→eq MemoryStatus-discrete (status_of fl input) active)

  -- If the plan is to update a memory, then that memory is one of the given matches, which the
  -- candidate updates or contradicts, the candidate's assertion mode is trusted at least as much as
  -- the memory's, and the candidate is planned as it is, with the active status that it is due.
  pub update_is_trusted :
      (input : ReconciliationInput F) (k : PlanFields) (id : Text) (c : MemoryCandidate F)
      (s : MemoryStatus)
      → reconcile_candidate fl input ≡ ok (update k id c s)
      → (m : ReconciliationMatch F) × In m input.existing_matches
        × ((m.relationship ≡ updates) ⊎ (m.relationship ≡ contradicts))
        × (m.memory.id ≡ id)
        × (trust_rank m.memory.assertion_mode ≤ trust_rank input.candidate.assertion_mode)
        × (c ≡ input.candidate)
        × (s ≡ active)
        × (status_of fl input ≡ active)
  update_is_trusted input k id c s e = on (Way-total input)
    where
      on :
          Way input
          → (m : ReconciliationMatch F) × In m input.existing_matches
            × ((m.relationship ≡ updates) ⊎ (m.relationship ≡ contradicts))
            × (m.memory.id ≡ id)
            × (trust_rank m.memory.assertion_mode ≤ trust_rank input.candidate.assertion_mode)
            × (c ≡ input.candidate)
            × (s ≡ active)
            × (status_of fl input ≡ active)
      on (refused b w) = cc
      on (repeats m d w) = absurd (plan_duplicate_not_update input m k id c s (sym w ∙ e))
      on (supersedes m u w) =
          let i = superseded_by-In input.existing_matches m u in
          let p = plan_update-eq-update input m k id c s (ok-injective (sym w ∙ e)) in
          (m, i.0, i.1, p.0, p.1, p.2, p.3, p.4)
      on (adds d u w) = absurd (plan_new_not_update input _ k id c s (ok-injective (sym w ∙ e)))

  plan_duplicate-eq-duplicate :
      (input : ReconciliationInput F) (m : ReconciliationMatch F) (k : PlanFields) (id : Text)
      (sources : List Text) (confidence : F)
      → plan_duplicate fl input m ≡ ok (duplicate k id sources confidence)
      → (m.memory.id ≡ id)
        × (m.memory.status ≡ active)
        × (sources ≡ input.candidate.supporting_source_event_ids)
        × (le confidence (hundredths (ceiling_hundredths input.candidate.assertion_mode)) ≡ true)
  unfolding plan_duplicate
  plan_duplicate-eq-duplicate input m k id sources confidence e = ground (
    arith,
    same→eq MemoryStatus-discrete m.memory.status active,
    minimum-le_constant (fl.maximum m.memory.confidence input.candidate.confidence)
        (ceiling_hundredths input.candidate.assertion_mode),
  )

  plan_update_not_duplicate :
      (input : ReconciliationInput F) (m : ReconciliationMatch F) (k : PlanFields) (id : Text)
      (sources : List Text) (confidence : F)
      → plan_update fl input m ≢ duplicate k id sources confidence
  unfolding plan_update
  plan_update_not_duplicate input m k id sources confidence e = ground (arith, e)

  no_duplicate :
      (input : ReconciliationInput F) (o : Option (ReconciliationMatch F)) (k : PlanFields)
      (id : Text) (sources : List Text) (confidence : F)
      → plan_new fl input o ≢ duplicate k id sources confidence
  unfolding plan_new
  no_duplicate input none k id sources confidence e = ground (arith, e)
  no_duplicate input (some m) k id sources confidence e = cc

  -- If the plan is to attach evidence to a memory, then that memory is an active exact duplicate
  -- among the matches, none of the exact duplicates is surer, the evidence is the candidate's, and
  -- the new confidence is at most the ceiling of the candidate's assertion mode.
  duplicate_is_active :
      (input : ReconciliationInput F) (k : PlanFields) (id : Text) (sources : List Text)
      (confidence : F)
      → reconcile_candidate fl input ≡ ok (duplicate k id sources confidence)
      → (m : ReconciliationMatch F) × In m input.existing_matches
        × (m.relationship ≡ exact_duplicate)
        × ((n : ReconciliationMatch F)
            → In n input.existing_matches
            → n.relationship ≡ exact_duplicate
            → total_le n.confidence m.confidence ≡ true)
        × (m.memory.id ≡ id)
        × (m.memory.status ≡ active)
        × (sources ≡ input.candidate.supporting_source_event_ids)
        × (le confidence (hundredths (ceiling_hundredths input.candidate.assertion_mode)) ≡ true)
  duplicate_is_active input k id sources confidence e = on (Way-total input)
    where
      on :
          Way input
          → (m : ReconciliationMatch F) × In m input.existing_matches
            × (m.relationship ≡ exact_duplicate)
            × ((n : ReconciliationMatch F)
                → In n input.existing_matches
                → n.relationship ≡ exact_duplicate
                → total_le n.confidence m.confidence ≡ true)
            × (m.memory.id ≡ id)
            × (m.memory.status ≡ active)
            × (sources ≡ input.candidate.supporting_source_event_ids)
            × (le confidence (hundredths (ceiling_hundredths input.candidate.assertion_mode))
                ≡ true)
      on (refused b w) = cc
      on (repeats m d w) =
          let i = best_match-some fl input.existing_matches exact_duplicate m d in
          let p = plan_duplicate-eq-duplicate input m k id sources confidence (sym w ∙ e) in
          (m, i.0, i.1, i.2, p.0, p.1, p.2, p.3)
      on (supersedes m u w) =
          absurd
            (plan_update_not_duplicate input m k id sources confidence (ok-injective (sym w ∙ e)))
      on (adds d u w) =
          absurd (no_duplicate input _ k id sources confidence (ok-injective (sym w ∙ e)))
