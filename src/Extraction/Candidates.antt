-- ===== src/Extraction/Candidates.antt =====
-- The candidates that crates/mega-memory/src/extraction.rs lets through: exactly those that are valid
-- once normalized.
use stalky.Privacy.{inspect_private_content}
use stalky.Prelude.Text.{Text, is_empty, text_mem, text, is_blank, collapse_whitespace_idem}
use stalky.Candidate.{CandidateEntity, MemoryCandidate}
use stalky.Prelude.{
  List, ◌≡◌, All, Bool, length, ok, true, ◌∷◌, Bool-cases, [], arith, ◌≤◌, false, inl, refl, inr,
  ◌++◌, ◌||◌, not, subst, err, ok-injective, Result-cases, sym,
}
use stalky.Model.Floats.{Float32}
use stalky.Extraction.{
  check_each, dedup_from, finite_unit, validate, validate_entities, CandidateValidationContext,
  normalize_content, confidence_ceiling, source_count_fails, is_global, is_reversed,
  ValidationError, is_inferred, unknown_category, deduplicate, validate_sources, unknown_app,
}

-- Each text once, and none that was seen before.
abbrev pub IsFresh : List Text → List Text → Type 0
IsFresh seen [] = Unit
IsFresh seen (t ∷ ts) = (text_mem t seen ≡ false) × IsFresh (t ∷ seen) ts

pub dedup_from-IsFresh : (vs seen : List Text) → IsFresh seen (dedup_from seen vs)
unfolding dedup_from
dedup_from-IsFresh [] seen = tt
dedup_from-IsFresh (v ∷ vs) seen = elim (Bool-cases (text_mem v seen)) [
  | inl h ↦ rw h (dedup_from-IsFresh vs seen)
  | inr h ↦ rw h (h, dedup_from-IsFresh vs (v ∷ seen))
]

pub dedup_from_fresh : (vs seen : List Text) → IsFresh seen vs → dedup_from seen vs ≡ vs
unfolding dedup_from
dedup_from_fresh [] seen h = refl
dedup_from_fresh (v ∷ vs) seen (h, k) = rw (h, dedup_from_fresh vs (v ∷ seen) k) refl

pub length-dedup_from : (vs seen : List Text) → length (dedup_from seen vs) ≤ length vs
unfolding dedup_from
length-dedup_from [] seen = omega arith
length-dedup_from (v ∷ vs) seen =
    ground (arith, length-dedup_from vs seen, length-dedup_from vs (v ∷ seen))

pub check_each-All :
    {E : Type 0} (p : Text → Bool) (e : Text → E) (ts : List Text)
    → check_each p e ts ≡ ok tt
    → All (λ t. p t ≡ true) ts
unfolding check_each
check_each-All p e [] h = tt
check_each-All p e (t ∷ ts) h = elim (Bool-cases (p t)) [
  | inl k ↦ (k, check_each-All p e ts (rw k at h))
  | inr k ↦ let h' = rw k at h in cc
]

pub All-check_each :
    {E : Type 0} (p : Text → Bool) (e : Text → E) (ts : List Text)
    → All (λ t. p t ≡ true) ts
    → check_each p e ts ≡ ok tt
unfolding check_each
All-check_each p e [] h = refl
All-check_each p e (t ∷ ts) (h, k) = rw h (All-check_each p e ts k)

module _ (fl : Float32) where
  open fl use {F, is_finite, le, hundredths}

  -- A number that passes `finite_unit`.
  abbrev pub IsUnit : F → Type 0
  IsUnit x = (is_finite x ≡ true) × (le (hundredths 0) x ≡ true) × (le x (hundredths 100) ≡ true)

  abbrev pub IsNamed : CandidateEntity F → Type 0
  IsNamed e =
      (normalize_content e.mention ≡ e.mention) × (is_empty e.mention ≡ false) × IsUnit e.confidence

  -- What a candidate keeps to.
  pub record IsValid (c : MemoryCandidate F) (context : CandidateValidationContext) : Type 0 where
    pub normalized : normalize_content c.content ≡ c.content
    pub not_short : 8 ≤ length c.content
    pub not_long : length c.content ≤ 500
    pub importance_unit : IsUnit c.importance
    pub confidence_unit : IsUnit c.confidence
    pub under_ceiling : fl.lt (confidence_ceiling fl c.assertion_mode) c.confidence ≡ false
    pub few_categories : length c.category_slugs ≤ 5
    pub distinct_categories : IsFresh [] c.category_slugs
    pub known_categories :
        All (λ slug. text_mem slug context.category_slugs ≡ true) c.category_slugs
    pub sources_counted :
        source_count_fails c.assertion_mode (length c.supporting_source_event_ids) ≡ false
    pub sources_in_batch :
        All
          (λ id. text_mem id context.extraction_batch_source_ids ≡ true)
          c.supporting_source_event_ids
    pub known_apps :
        All (λ app. context.app_catalog app ≡ true) (c.source_app_ids ++ c.applicable_app_ids)
    pub scope_has_key : (is_global c.scope.scope_type || not (is_blank c.scope.scope_key)) ≡ true
    pub not_reversed : is_reversed c.valid_from_ms c.valid_until_ms ≡ false
    pub named_entities : All IsNamed c.entity_mentions
    pub not_private :
        inspect_private_content c.content c.from_password_field (is_inferred c.assertion_mode)
        ≡ ok tt

  pub finite_unit-IsUnit : (field : Text) (x : F) → finite_unit fl field x ≡ ok tt → IsUnit x
  unfolding finite_unit
  finite_unit-IsUnit field x h = ground arith

  pub IsUnit-finite_unit : (field : Text) (x : F) → IsUnit x → finite_unit fl field x ≡ ok tt
  unfolding finite_unit
  IsUnit-finite_unit field x h = ground arith

  pub mention_idem : (t : Text) → normalize_content (normalize_content t) ≡ normalize_content t
  unfolding normalize_content
  mention_idem t = collapse_whitespace_idem t

  named_head :
      (e : CandidateEntity F) (es ms rest : List (CandidateEntity F))
      → validate_entities fl es ≡ ok rest
      → validate_entities fl (e ∷ es) ≡ ok ms
      → (is_empty (normalize_content e.mention) ≡ false)
        × IsUnit e.confidence
        × (ms ≡ record e { mention = normalize_content e.mention } ∷ rest)
  unfolding validate_entities finite_unit
  named_head e es ms rest k h = (ground arith, ground arith, ground arith)

  named_fails :
      (e : CandidateEntity F) (es ms : List (CandidateEntity F)) (x : ValidationError F)
      → validate_entities fl es ≡ err x
      → validate_entities fl (e ∷ es) ≡ ok ms
      → ⊥
  unfolding validate_entities finite_unit
  named_fails e es ms x k h = ground arith

  pub validate_entities-IsNamed :
      (es ms : List (CandidateEntity F)) → validate_entities fl es ≡ ok ms → All IsNamed ms
  unfolding validate_entities
  validate_entities-IsNamed [] ms h = subst (All IsNamed) (ok-injective h) tt
  validate_entities-IsNamed (e ∷ es) ms h = elim (Result-cases (validate_entities fl es)) [
    | inl (rest, k) ↦
        let (a, b, c) = named_head e es ms rest k h in
        subst (All IsNamed) (sym c)
          ((mention_idem e.mention, a, b), validate_entities-IsNamed es rest k)
    | inr (x, k) ↦ elim (named_fails e es ms x k h) [ ]
  ]

  pub IsNamed-validate_entities :
      (es : List (CandidateEntity F)) → All IsNamed es → validate_entities fl es ≡ ok es
  unfolding validate_entities
  IsNamed-validate_entities [] h = refl
  IsNamed-validate_entities (e ∷ es) ((n, m, u), k) =
      rw
        (
          n,
          m,
          IsUnit-finite_unit (text "entity confidence") e.confidence u,
          IsNamed-validate_entities es k,
        )
        refl

  -- What `validate` finds of a candidate, check by check, and what it makes of it.
  pub record Passes (c v : MemoryCandidate F) (ms : List (CandidateEntity F))
      (context : CandidateValidationContext) : Type 0 where
    pub long : 8 ≤ length (normalize_content c.content)
    pub short : length (normalize_content c.content) ≤ 500
    pub importance_ok : finite_unit fl (text "importance") c.importance ≡ ok tt
    pub confidence_ok : finite_unit fl (text "confidence") c.confidence ≡ ok tt
    pub ceiling : fl.lt (confidence_ceiling fl c.assertion_mode) c.confidence ≡ false
    pub few : length c.category_slugs ≤ 5
    pub categories_ok :
        check_each {E = ValidationError F}
          (λ slug. text_mem slug context.category_slugs)
          unknown_category
          (deduplicate c.category_slugs)
        ≡ ok tt
    pub sources_ok : validate_sources fl c context ≡ ok tt
    pub apps_ok :
        check_each {E = ValidationError F} context.app_catalog unknown_app
          (c.source_app_ids ++ c.applicable_app_ids)
        ≡ ok tt
    pub key_ok : (is_global c.scope.scope_type || not (is_blank c.scope.scope_key)) ≡ true
    pub interval_ok : is_reversed c.valid_from_ms c.valid_until_ms ≡ false
    pub privacy_ok :
        inspect_private_content
          (normalize_content c.content)
          c.from_password_field
          (is_inferred c.assertion_mode)
        ≡ ok tt
    pub result :
        record c {
          content = normalize_content c.content;
          category_slugs = deduplicate c.category_slugs;
          entity_mentions = ms;
        }
        ≡ v

  pub validate-Passes :
      (c v : MemoryCandidate F) (ms : List (CandidateEntity F))
      (context : CandidateValidationContext)
      → validate_entities fl c.entity_mentions ≡ ok ms
      → validate fl c context ≡ ok v
      → Passes c v ms context
  unfolding validate
  validate-Passes c v ms context e h = record {
    long = ground arith;
    short = ground arith;
    importance_ok = ground arith;
    confidence_ok = ground arith;
    ceiling = ground arith;
    few = ground arith;
    categories_ok = ground arith;
    sources_ok = ground arith;
    apps_ok = ground arith;
    key_ok = ground arith;
    interval_ok = ground arith;
    privacy_ok = ground arith;
    result = ground arith;
  }
