-- ===== src/Store/Inputs.antt =====
-- The tables that `validate_plan_for_storage` of crates/mega-store/src/memory_repo.rs reads: what the
-- writes of a plan leave of them.
use stalky.Prelude.Int.{ℤ}
use stalky.Prelude.Text.{Text}
use stalky.Prelude.{
  subst, Bool-cases, List, Option-cases, Result, ℕ, if◌then◌else◌, inl, inr, ok, ok-injective, refl,
  ◌&&◌, ◌∙◌, ◌∷◌, ◌≡◌, [],
}
use stalky.Model.Floats.{Float32}
use stalky.Model.{MemoryStatus}
use stalky.Candidate.{MemoryCandidate}
use stalky.Reconcile.{MemoryMutationPlan, create, duplicate, extend, ignore, request_review, update}
use stalky.Jobs.{find_row}
use stalky.Store.{Database, StoreError, has_id, is_active}
use stalky.Store.Checks.{
  validate_candidate_for_storage, validate_categories_exist, validate_plan_for_storage,
}
use stalky.Store.Inserts.{insert_candidate_tx, refresh_search_document}
use stalky.Store.Insertions.{insert_candidate_tx-IsInserted}
use stalky.Store.Effects.{Keeps}

module _ {F : Type 0} where
  -- The tables that the checks of a plan read.
  pub record Inputs (db db' : Database F) : Type 0 where
    pub sources_kept : db'.source_events ≡ db.source_events
    pub apps_kept : db'.apps ≡ db.apps
    pub categories_kept : db'.categories ≡ db.categories

  -- These, and the candidates.
  pub record Checked (db db' : Database F) : Type 0 where
    pub sources_kept : db'.source_events ≡ db.source_events
    pub apps_kept : db'.apps ≡ db.apps
    pub categories_kept : db'.categories ≡ db.categories
    pub candidates_kept : db'.extraction_candidates ≡ db.extraction_candidates

  pub Checked-refl : (db : Database F) → Checked db db
  Checked-refl db = record {
    sources_kept = refl;
    apps_kept = refl;
    categories_kept = refl;
    candidates_kept = refl;
  }

  pub Checked-trans : (a b c : Database F) → Checked a b → Checked b c → Checked a c
  Checked-trans a b c k l = record {
    sources_kept = l.sources_kept ∙ k.sources_kept;
    apps_kept = l.apps_kept ∙ k.apps_kept;
    categories_kept = l.categories_kept ∙ k.categories_kept;
    candidates_kept = l.candidates_kept ∙ k.candidates_kept;
  }

  pub Keeps-Checked : (a b : Database F) → Keeps a b → Checked a b
  Keeps-Checked a b k = record {
    sources_kept = k.sources_kept;
    apps_kept = k.apps_kept;
    categories_kept = k.categories_kept;
    candidates_kept = k.candidates_kept;
  }

  -- A write to other tables.
  pub Checked-ok :
      (a b : Database F) (db' : Database F)
      → Checked a b
      → ◌≡◌ {A = Result (Database F) StoreError} (ok b) (ok db')
      → Checked a db'
  Checked-ok a b db' k e = subst (Checked a) (ok-injective e) k

  refresh_search_document-Checked :
      (db : Database F) (id : Text) → Checked db (refresh_search_document db id)
  unfolding refresh_search_document
  refresh_search_document-Checked db id =
      elim (Option-cases (find_row (λ m. has_id id m && is_active m.status) db.memories)) [
        | inl e ↦ rw (e, refresh_search_document) (Checked-refl db)
        | inr (m, e) ↦
            rw (e, refresh_search_document)
              (record {
                sources_kept = refl;
                apps_kept = refl;
                categories_kept = refl;
                candidates_kept = refl;
              })
      ]

  shown-Checked :
      (db : Database F) (id : Text) (status : MemoryStatus)
      → Checked db (if is_active status then refresh_search_document db id else db)
  shown-Checked db id status = elim (Bool-cases (is_active status)) [
    | inl e ↦ rw e (refresh_search_document-Checked db id)
    | inr e ↦ rw e (Checked-refl db)
  ]

  validate_categories_exist-Inputs :
      (slugs : List Text) (a b : Database F)
      → Inputs a b
      → validate_categories_exist b slugs ≡ validate_categories_exist a slugs
  unfolding validate_categories_exist
  validate_categories_exist-Inputs [] a b k = refl
  validate_categories_exist-Inputs (s ∷ slugs) a b k =
      rw (k.categories_kept, validate_categories_exist-Inputs slugs a b k) refl

module _ (fl : Float32) where
  open fl use {F}

  validate_candidate-Inputs :
      (c : MemoryCandidate F) (a b : Database F)
      → Inputs a b
      → validate_candidate_for_storage fl b c ≡ validate_candidate_for_storage fl a c
  unfolding validate_candidate_for_storage
  validate_candidate-Inputs c a b k =
      rw (validate_categories_exist-Inputs c.category_slugs a b k, k.sources_kept, k.apps_kept) refl

  pub validate_plan-Inputs :
      (plan : MemoryMutationPlan F) (a b : Database F)
      → Inputs a b
      → validate_plan_for_storage fl b plan ≡ validate_plan_for_storage fl a plan
  unfolding validate_plan_for_storage
  validate_plan-Inputs (create k c s) a b h = validate_candidate-Inputs c a b h
  validate_plan-Inputs (duplicate k i s f) a b h = rw h.sources_kept refl
  validate_plan-Inputs (update k i c s) a b h = validate_candidate-Inputs c a b h
  validate_plan-Inputs (extend k i c s) a b h = validate_candidate-Inputs c a b h
  validate_plan-Inputs (ignore k r) a b h = refl
  validate_plan-Inputs (request_review k c r) a b h = validate_candidate-Inputs c a b h

module _ (fl : Float32) (to_lowercase deterministic_id : Text → Text) where
  open fl use {F}

  pub insert_candidate_tx-Checked :
      (db : Database F) (id : Text) (c : MemoryCandidate F) (status : MemoryStatus) (revision : ℕ)
      (now : ℤ) (db' : Database F)
      → insert_candidate_tx fl to_lowercase deterministic_id db id c status revision now ≡ ok db'
      → Checked db db'
  insert_candidate_tx-Checked db id c status revision now db' h =
      let (k, i, e) =
        insert_candidate_tx-IsInserted fl to_lowercase deterministic_id db id c status revision now
          db' h in
      let kept : Checked db k = record {
        sources_kept = i.sources_kept;
        apps_kept = i.apps_kept;
        categories_kept = i.categories_kept;
        candidates_kept = i.candidates_kept;
      } in
      subst (Checked db) e (Checked-trans db k _ kept (shown-Checked k id status))
