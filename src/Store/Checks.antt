-- ===== src/Store/Checks.antt =====
-- `validate_plan_for_storage` of crates/mega-store/src/memory_repo.rs: what a plan must meet before it
-- is applied.
use stalky.Prelude.Text.{Text, is_blank, text, text_eq}
use stalky.Prelude.{
  Bool, List, Result, any, err, false, ok, true, ◌&&◌, ◌++◌, ◌∷◌, [], ◌>>◌, leb, length, ltb, not,
  reject_if, ◌||◌,
}
use stalky.Model.Floats.{Float32, in_unit}
use stalky.Model.{AssertionMode, ceiling_hundredths, manual}
use stalky.Candidate.{MemoryCandidate}
use stalky.Extraction.{is_global, is_inferred, is_reversed, normalize_content}
use stalky.Privacy.{PrivacyRejection, inspect_private_content}
use stalky.Reconcile.{MemoryMutationPlan, create, duplicate, extend, ignore, request_review, update}
use stalky.Store.{Database, StoreError, invalid_plan, unknown_category}

abbrev unknown_records : StoreError
unknown_records = invalid_plan (text "candidate references unknown records")

-- `validate_references_exist` on one of its two tables.
unfoldable pub validate_references_exist : (Text → Bool) → List Text → Result (Unit {0}) StoreError
validate_references_exist exists [] = ok tt
validate_references_exist exists (id ∷ ids) =
    reject_if (not (exists id)) unknown_records >> validate_references_exist exists ids

-- `.map_err(|_| …)` on the privacy guard.
abbrev privacy_checked : Result (Unit {0}) PrivacyRejection → Result (Unit {0}) StoreError
privacy_checked (ok u) = ok u
privacy_checked (err e) = err (invalid_plan (text "candidate failed privacy policy"))

abbrev is_manual : AssertionMode → Bool
is_manual manual = true
is_manual _ = false

module _ {F : Type 0} where
  unfoldable pub validate_categories_exist : Database F → List Text → Result (Unit {0}) StoreError
  validate_categories_exist db [] = ok tt
  validate_categories_exist db (slug ∷ slugs) = do
    reject_if (not (any (λ c. text_eq c.slug slug) db.categories)) (unknown_category slug)
    validate_categories_exist db slugs

module _ (fl : Float32) where
  open fl use {F, hundredths, is_finite, le}

  unfoldable pub validate_candidate_for_storage :
      Database F → MemoryCandidate F → Result (Unit {0}) StoreError
  validate_candidate_for_storage db c = do
    reject_if
        (not (
            leb 8 (length (normalize_content c.content))
            && leb (length (normalize_content c.content)) 500)
          || not (is_finite c.importance)
          || not (in_unit fl c.importance)
          || not (is_finite c.confidence)
          || not (
              le (hundredths 0) c.confidence
              && le c.confidence (hundredths (ceiling_hundredths c.assertion_mode)))
          || ltb 5 (length c.category_slugs))
        (invalid_plan (text "candidate failed scalar validation"))
    reject_if
        (not (is_manual c.assertion_mode)
          && not (
              leb 1 (length c.supporting_source_event_ids)
              && leb (length c.supporting_source_event_ids) 20))
        (invalid_plan (text "candidate provenance is missing or unbounded"))
    reject_if (is_manual c.assertion_mode && ltb 20 (length c.supporting_source_event_ids))
        (invalid_plan (text "manual candidate provenance is unbounded"))
    reject_if
        ((not (is_global c.scope.scope_type) && is_blank c.scope.scope_key)
          || is_reversed c.valid_from_ms c.valid_until_ms)
        (invalid_plan (text "candidate scope or validity is invalid"))
    privacy_checked (
        inspect_private_content (normalize_content c.content) c.from_password_field
          (is_inferred c.assertion_mode))
    validate_references_exist (λ id. any (λ e. text_eq e id) db.source_events)
        c.supporting_source_event_ids
    validate_references_exist (λ id. any (λ a. text_eq a.id id) db.apps)
        (c.source_app_ids ++ c.applicable_app_ids)
    validate_categories_exist db c.category_slugs

  unfoldable pub validate_plan_for_storage :
      Database F → MemoryMutationPlan F → Result (Unit {0}) StoreError
  validate_plan_for_storage db (create k c status) = validate_candidate_for_storage db c
  validate_plan_for_storage db (duplicate k id source_ids confidence) = do
    reject_if (not (is_finite confidence) || not (in_unit fl confidence))
        (invalid_plan (text "invalid duplicate confidence"))
    validate_references_exist (λ id. any (λ e. text_eq e id) db.source_events) source_ids
  validate_plan_for_storage db (update k id c status) = validate_candidate_for_storage db c
  validate_plan_for_storage db (extend k id c status) = validate_candidate_for_storage db c
  validate_plan_for_storage db (ignore k reason) =
      reject_if (is_blank reason || ltb 256 (length reason))
        (invalid_plan (text "invalid bounded audit reason"))
  validate_plan_for_storage db (request_review k c reason) = validate_candidate_for_storage db c
