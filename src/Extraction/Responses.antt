-- ===== src/Extraction/Responses.antt =====
-- What gets past `validate_extraction_response` of crates/mega-memory/src/extraction.rs.
use stalky.Extraction.Accepted.{entities_fail, validate-IsValid}
use stalky.Prelude.{◌||◌, [], refl}
use stalky.Prelude.Text.{is_empty, text_eq_iff}
use stalky.Extraction.Candidates.{IsValid, validate-Passes}
use stalky.Candidate.{CandidateEntity, MemoryCandidate}
use stalky.Prelude.{
  List, ◌≡◌, ok, All, Result-cases, length, err, inl, ◌≤◌, arith, subst, inr, ok-injective, false,
  ◌∷◌,
}
use stalky.Extraction.{
  ExtractionBatch, validate_all, validate_extraction_response, ExtractionResponse, validate_batch,
  CandidateValidationContext, ExtractionMetadata, ProviderUsage, ValidationError,
  max_extraction_input_chars, extractor_prompt_version, is_bad_name, validate, deduplicate,
  normalize_content, validate_entities,
}
use stalky.Model.Floats.{Float32}

module _ (fl : Float32) where
  open fl use {F}

  -- What `validate` makes of a candidate: the same one with its content normalized, its categories
  -- without repetitions, and the names of its entities normalized.
  abbrev pub IsCleaned : MemoryCandidate F → MemoryCandidate F → Type 0
  IsCleaned c v =
      (v ≡ record c {
        content = normalize_content c.content;
        category_slugs = deduplicate c.category_slugs;
        entity_mentions = v.entity_mentions;
      })
      × (validate_entities fl c.entity_mentions ≡ ok v.entity_mentions)

  -- One for each candidate, in the same order.
  abbrev pub AllCleaned : List (MemoryCandidate F) → List (MemoryCandidate F) → Type 0
  AllCleaned [] [] = Unit
  AllCleaned [] (v ∷ vs) = ⊥
  AllCleaned (c ∷ cs) [] = ⊥
  AllCleaned (c ∷ cs) (v ∷ vs) = IsCleaned c v × AllCleaned cs vs

  entities_pass :
      (c v : MemoryCandidate F) (context : CandidateValidationContext)
      → validate fl c context ≡ ok v
      → (ms : List (CandidateEntity F)) × (validate_entities fl c.entity_mentions ≡ ok ms)
  entities_pass c v context h = elim (Result-cases (validate_entities fl c.entity_mentions)) [
    | inl (ms, e) ↦ (ms, e)
    | inr (x, e) ↦ absurd (entities_fail fl c v context x e h)
  ]

  validate-IsCleaned :
      (c v : MemoryCandidate F) (context : CandidateValidationContext)
      → validate fl c context ≡ ok v
      → IsCleaned c v
  validate-IsCleaned c v context h =
      let (ms, e) = entities_pass c v context h in
      subst (IsCleaned c) (validate-Passes fl c v ms context e h).result (refl, e)

  validate_all-IsValid :
      (cs vs : List (MemoryCandidate F)) (context : CandidateValidationContext)
      → validate_all fl cs context ≡ ok vs
      → All (λ v. IsValid fl v context) vs × AllCleaned cs vs
  unfolding validate_all
  validate_all-IsValid [] vs context h =
      subst (λ ws. All (λ v. IsValid fl v context) ws × AllCleaned [] ws) (ok-injective h) (tt, tt)
  validate_all-IsValid (c ∷ cs) vs context h = elim (Result-cases (validate fl c context)) [
    | inl (w, e) ↦ elim (Result-cases (validate_all fl cs context)) [
      | inl (ws, k) ↦
          let (a, b) = validate_all-IsValid cs ws context k in
          subst (λ us. All (λ v. IsValid fl v context) us × AllCleaned (c ∷ cs) us)
            (ok-injective (rw (e, k) at h))
            ((validate-IsValid fl c w context e, a), (validate-IsCleaned c w context e, b))
      | inr (x, k) ↦ let h' = rw (e, k) at h in cc
    ]
    | inr (x, e) ↦ let h' = rw e at h in cc
  ]

  AllCleaned-length : (cs vs : List (MemoryCandidate F)) → AllCleaned cs vs → length vs ≡ length cs
  AllCleaned-length [] [] h = refl
  AllCleaned-length [] (v ∷ vs) h = absurd h
  AllCleaned-length (c ∷ cs) [] h = absurd h
  AllCleaned-length (c ∷ cs) (v ∷ vs) h = omega (arith, AllCleaned-length cs vs h.1)

  -- What an accepted response says of the batch, the response and the candidates let through.
  pub record IsAccepted (batch : ExtractionBatch) (response : ExtractionResponse F)
      (context : CandidateValidationContext) (vs : List (MemoryCandidate F))
      (m : ExtractionMetadata) (u : ProviderUsage) : Type 0 where
    pub batch_bounded : length batch.privacy_filtered_text ≤ max_extraction_input_chars
    pub batch_has_segment : is_empty batch.activity_segment_ids ≡ false
    pub all_cleaned : AllCleaned response.candidates vs
    pub few : length vs ≤ 64
    pub all_valid : All (λ v. IsValid fl v context) vs
    pub metadata_kept : m ≡ response.metadata
    pub usage_kept : u ≡ response.usage
    pub prompt_expected : m.extractor_prompt_version ≡ extractor_prompt_version
    pub names_sound : (is_bad_name fl m.provider || is_bad_name fl m.model) ≡ false

  response_checked :
      (batch : ExtractionBatch) (response : ExtractionResponse F)
      (context : CandidateValidationContext) (vs ws : List (MemoryCandidate F))
      (m : ExtractionMetadata) (u : ProviderUsage)
      → validate_all fl response.candidates context ≡ ok ws
      → All (λ v. IsValid fl v context) ws
      → AllCleaned response.candidates ws
      → validate_extraction_response fl batch response context ≡ ok (vs, m, u)
      → IsAccepted batch response context ws response.metadata response.usage
        × ((ws ≡ vs) × (response.metadata ≡ m) × (response.usage ≡ u))
  unfolding validate_extraction_response validate_batch
  response_checked batch response context vs ws m u e a l h = (
    record {
      batch_bounded = ground arith;
      batch_has_segment = ground arith;
      all_cleaned = l;
      few = let n = AllCleaned-length response.candidates ws l in ground (arith, n);
      all_valid = a;
      metadata_kept = refl;
      usage_kept = refl;
      prompt_expected =
          ground (
            arith,
            text_eq_iff response.metadata.extractor_prompt_version extractor_prompt_version,
          );
      names_sound = ground arith;
    },
    (ground arith, ground arith, ground arith),
  )

  response_fails :
      (batch : ExtractionBatch) (response : ExtractionResponse F)
      (context : CandidateValidationContext) (vs : List (MemoryCandidate F))
      (m : ExtractionMetadata) (u : ProviderUsage) (x : ValidationError F)
      → validate_all fl response.candidates context ≡ err x
      → validate_extraction_response fl batch response context ≡ ok (vs, m, u)
      → ⊥
  unfolding validate_extraction_response validate_batch
  response_fails batch response context vs m u x e h = ground arith

  -- An accepted response has the expected prompt version and sound names of its provider and model,
  -- and belongs to a batch within the input bound that names a segment. It has at most 64
  -- candidates. What is let through is one valid candidate for each of them, in their order: the
  -- same one with its content normalized, its categories without repetitions and its entities' names
  -- normalized. The metadata and usage are those of the response.
  pub validate_extraction_response-IsAccepted :
      (batch : ExtractionBatch) (response : ExtractionResponse F)
      (context : CandidateValidationContext) (vs : List (MemoryCandidate F))
      (m : ExtractionMetadata) (u : ProviderUsage)
      → validate_extraction_response fl batch response context ≡ ok (vs, m, u)
      → IsAccepted batch response context vs m u
  validate_extraction_response-IsAccepted batch response context vs m u h =
      elim (Result-cases (validate_all fl response.candidates context)) [
        | inl (ws, e) ↦
            let (a, l) = validate_all-IsValid response.candidates ws context e in
            let (k, (p, q, r)) = response_checked batch response context vs ws m u e a l h in
            subst (λ us. IsAccepted batch response context us m u) p
              (subst (λ n. IsAccepted batch response context ws n u) q
                (subst (λ n. IsAccepted batch response context ws response.metadata n) r k))
        | inr (x, e) ↦ elim (response_fails batch response context vs m u x e h) [ ]
      ]
