-- ===== src/Extraction/Accepted.antt =====
-- What gets past `MemoryCandidate::validate` of crates/mega-memory/src/extraction.rs.
use stalky.Prelude.Text.{text_mem, text}
use stalky.Extraction.Candidates.{
  IsValid, All-check_each, Passes, dedup_from_fresh, validate-Passes, mention_idem,
  IsUnit-finite_unit, finite_unit-IsUnit, length-dedup_from, dedup_from-IsFresh, check_each-All,
  IsNamed-validate_entities, validate_entities-IsNamed,
}
use stalky.Prelude.{
  List, ◌≡◌, ok, Result-cases, err, arith, inl, length, false, [], subst, inr, ◌++◌, ◌↔◌,
}
use stalky.Extraction.{
  deduplicate, validate, validate_sources, CandidateValidationContext, ValidationError,
  normalize_content, validate_entities, source_count_fails, check_each, source_outside_batch,
  unknown_category, unknown_app,
}
use stalky.Candidate.{MemoryCandidate, CandidateEntity}
use stalky.Model.Floats.{Float32}

module _ (fl : Float32) where
  open fl use {F}

  sources_checked :
      (c : MemoryCandidate F) (context : CandidateValidationContext)
      → validate_sources fl c context ≡ ok tt
      → (source_count_fails c.assertion_mode (length c.supporting_source_event_ids) ≡ false)
        × (check_each {E = ValidationError F}
              (λ id. text_mem id context.extraction_batch_source_ids)
              source_outside_batch
              c.supporting_source_event_ids
            ≡ ok tt)
  unfolding validate_sources
  sources_checked c context h = (ground arith, ground arith)

  -- The candidate that `validate` makes.
  abbrev normalized_candidate : MemoryCandidate F → List (CandidateEntity F) → MemoryCandidate F
  normalized_candidate c ms = record c {
    content = normalize_content c.content;
    category_slugs = deduplicate c.category_slugs;
    entity_mentions = ms;
  }

  Passes-IsValid :
      (c v : MemoryCandidate F) (ms : List (CandidateEntity F))
      (context : CandidateValidationContext)
      → validate_entities fl c.entity_mentions ≡ ok ms
      → Passes fl c v ms context
      → IsValid fl (normalized_candidate c ms) context
  unfolding deduplicate
  Passes-IsValid c v ms context e p =
      let (count, inside) = sources_checked c context p.sources_ok in
      record {
        normalized = mention_idem fl c.content;
        not_short = p.long;
        not_long = p.short;
        importance_unit = finite_unit-IsUnit fl (text "importance") c.importance p.importance_ok;
        confidence_unit = finite_unit-IsUnit fl (text "confidence") c.confidence p.confidence_ok;
        under_ceiling = p.ceiling;
        few_categories = omega (arith, p.few, length-dedup_from c.category_slugs []);
        distinct_categories = dedup_from-IsFresh c.category_slugs [];
        known_categories = check_each-All _ _ (deduplicate c.category_slugs) p.categories_ok;
        sources_counted = count;
        sources_in_batch = check_each-All _ _ c.supporting_source_event_ids inside;
        known_apps = check_each-All _ _ (c.source_app_ids ++ c.applicable_app_ids) p.apps_ok;
        scope_has_key = p.key_ok;
        not_reversed = p.interval_ok;
        named_entities = validate_entities-IsNamed fl c.entity_mentions ms e;
        not_private = p.privacy_ok;
      }

  pub entities_fail :
      (c v : MemoryCandidate F) (context : CandidateValidationContext) (x : ValidationError F)
      → validate_entities fl c.entity_mentions ≡ err x
      → validate fl c context ≡ ok v
      → ⊥
  unfolding validate
  entities_fail c v context x e h = ground arith

  -- A candidate that gets through is valid: its content is normalized, has 8 to 500 characters and
  -- passes the privacy guard; its numbers are finite and from 0 to 1, its confidence not above the
  -- ceiling of its mode; it has at most five categories, distinct and known; its sources are as many
  -- as its mode asks for and of the batch; its apps are known; a scope that is not global has a key;
  -- its validity is not reversed; its entities have normalized names.
  pub validate-IsValid :
      (c v : MemoryCandidate F) (context : CandidateValidationContext)
      → validate fl c context ≡ ok v
      → IsValid fl v context
  validate-IsValid c v context h = elim (Result-cases (validate_entities fl c.entity_mentions)) [
    | inl (ms, e) ↦
        let p = validate-Passes fl c v ms context e h in
        subst (λ w. IsValid fl w context) p.result (Passes-IsValid c v ms context e p)
    | inr (x, e) ↦ elim (entities_fail c v context x e h) [ ]
  ]

  sources_pass :
      (c : MemoryCandidate F) (context : CandidateValidationContext)
      → IsValid fl c context
      → validate_sources fl c context ≡ ok tt
  unfolding validate_sources
  sources_pass c context k =
      rw (k.sources_counted) (All-check_each _ _ c.supporting_source_event_ids k.sources_in_batch)

  IsValid-validate :
      (c : MemoryCandidate F) (context : CandidateValidationContext)
      → IsValid fl c context
      → validate fl c context ≡ ok c
  unfolding validate deduplicate
  IsValid-validate c context k =
      let fresh = dedup_from_fresh c.category_slugs [] k.distinct_categories in
      let unit1 = IsUnit-finite_unit fl (text "importance") c.importance k.importance_unit in
      let unit2 = IsUnit-finite_unit fl (text "confidence") c.confidence k.confidence_unit in
      let categories =
        All-check_each {E = ValidationError F} (λ slug. text_mem slug context.category_slugs)
          unknown_category c.category_slugs k.known_categories in
      let apps =
        All-check_each {E = ValidationError F} context.app_catalog unknown_app
          (c.source_app_ids ++ c.applicable_app_ids) k.known_apps in
      let entities = IsNamed-validate_entities fl c.entity_mentions k.named_entities in
      ground (arith, k, fresh, sources_pass c context k)

  -- Validation lets a candidate through unchanged exactly when it is valid already; what it lets
  -- through, it lets through again.
  pub validate_iff :
      (c : MemoryCandidate F) (context : CandidateValidationContext)
      → ((validate fl c context ≡ ok c) ↔ IsValid fl c context)
        × ((v : MemoryCandidate F) → validate fl c context ≡ ok v → validate fl v context ≡ ok v)
  validate_iff c context = (
    (validate-IsValid c c context, IsValid-validate c context),
    λ v h. IsValid-validate v context (validate-IsValid c v context h),
  )
