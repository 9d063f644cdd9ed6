-- ===== src/Store/Replays.antt =====
-- Plans of crates/mega-store/src/memory_repo.rs that are applied again.
use stalky.Prelude.Int.{ℤ}
use stalky.Prelude.Text.{Text, text_eq_refl}
use stalky.Prelude.{
  ltb, Bool, Bool-cases, List, Option, Option-cases, Result, Result-cases, ℕ, ap, arith, bind-ok,
  false, if◌then◌else◌, inl, inr, none, ok, ok-injective, refl, some, sym, true, ◌++◌, ◌>>=◌, ◌∙◌,
  ◌∷◌, ◌≡◌, [], subst,
}
use stalky.Model.Floats.{Float32}
use stalky.Reconcile.{MemoryMutationPlan, idempotency_key}
use stalky.Jobs.{MemoryEventType, find_row, reconciliation_applied}
use stalky.Store.{
  u32_max, CandidateRow, Database, StoreError, has_id, record_event_tx, RelationType,
}
use stalky.Store.Checks.{validate_plan_for_storage}
use stalky.Store.Inserts.{enqueue_projection, enqueue_projection_refresh_tx}
use stalky.Store.Plans.{
  MemoryMutationResult, Written, outcome_status, relate, remove_document, supersede, support,
  write_plan,
}
use stalky.Store.Applies.{apply_plan, candidate_row, enqueue_written, finish_plan, has_key}
use stalky.Store.Effects.{reject-ok, support-Keeps}
use stalky.Store.Written.{IsWritten, plan_outcome, strengthened, write_plan-IsWritten}
use stalky.Store.Inputs.{
  Checked, Checked-ok, Checked-refl, Checked-trans, insert_candidate_tx-Checked,
  validate_plan-Inputs,
}

-- The first row that a test finds when it finds none before the new one.
find_row-snoc :
    {A : Type 0} (p : A → Bool) (rs : List A) (x : A)
    → find_row p rs ≡ none
    → p x ≡ true
    → find_row p (rs ++ x ∷ []) ≡ some x
find_row-snoc p [] x h t = rw t refl
find_row-snoc p (r ∷ rs) x h t = elim (Bool-cases (p r)) [
  | inl k ↦ absurd (cc (rw k at h))
  | inr k ↦ rw k (find_row-snoc p rs x (rw k at h) t)
]

module _ {F : Type 0} where
  record_event_tx-Checked :
      (db : Database F) (type : MemoryEventType) (correlation_id : Text)
      (memory_id outcome : Option Text) (now : ℤ) (db' : Database F)
      → record_event_tx db type correlation_id memory_id outcome now ≡ ok db'
      → Checked db db'
  unfolding record_event_tx
  record_event_tx-Checked db type correlation_id memory_id outcome now db' h = ground (arith, h)

  enqueue_written-Checked :
      (db : Database F) (id : Option Text) (now : ℤ) (db' : Database F)
      → enqueue_written db id now ≡ ok db'
      → Checked db db'
  unfolding enqueue_written enqueue_projection_refresh_tx enqueue_projection
  enqueue_written-Checked db none now db' h = Checked-ok db db db' (Checked-refl db) h
  enqueue_written-Checked db (some id) now db' h =
      elim (Option-cases (find_row (has_id id) db.memories)) [
        | inl e ↦ absurd (cc (rw (e, enqueue_written) at h))
        | inr (m, e) ↦
            let (_, k) = reject-ok (ltb u32_max m.revision) _ _ _ (rw (e, enqueue_written) at h) in
            Checked-ok db (enqueue_projection_refresh_tx db id m.revision now) db'
              (record {
                sources_kept = refl;
                apps_kept = refl;
                categories_kept = refl;
                candidates_kept = refl;
              })
              k
      ]

  supersede-Checked : (db : Database F) (id : Text) (now : ℤ) → Checked db (supersede db id now)
  unfolding supersede remove_document
  supersede-Checked db id now = record {
    sources_kept = refl;
    apps_kept = refl;
    categories_kept = refl;
    candidates_kept = refl;
  }

  relate-Checked :
      (db : Database F) (fresh id : Text) (t : RelationType) (now : ℤ)
      → Checked db (relate db fresh id t now)
  unfolding relate
  relate-Checked db fresh id t now = record {
    sources_kept = refl;
    apps_kept = refl;
    categories_kept = refl;
    candidates_kept = refl;
  }

module _ (fl : Float32) where
  open fl use {F}

  strengthened-Checked :
      (db : Database F) (id : Text) (ids : List Text) (confidence : F) (now : ℤ) (a : Database F)
      → support db id ids ≡ ok a
      → Checked db (strengthened fl a id confidence now)
  strengthened-Checked db id ids confidence now a h =
      let s = support-Keeps ids db id a h in
      record {
        sources_kept = s.sources_kept;
        apps_kept = s.apps_kept;
        categories_kept = s.categories_kept;
        candidates_kept = s.candidates_kept;
      }

module _ (fl : Float32) (to_lowercase deterministic_id : Text → Text) where
  open fl use {F}

  write_plan-Checked :
      (db : Database F) (plan : MemoryMutationPlan F) (fresh : Text) (now : ℤ) (w : Written F)
      → write_plan fl to_lowercase deterministic_id db plan fresh now ≡ ok w
      → IsWritten (Checked db) plan w
  write_plan-Checked db =
      write_plan-IsWritten fl to_lowercase deterministic_id (Checked db) db (Checked-refl db)
        (insert_candidate_tx-Checked fl to_lowercase deterministic_id db)
        (strengthened-Checked fl db)
        (λ a id now k. Checked-trans db a _ k (supersede-Checked a id now))
        (λ a from to t now k. Checked-trans db a _ k (relate-Checked a from to t now))

module _ {F : Type 0} where
  has_key_refl :
      (key : Text × ℕ) (w : Written F) (now : ℤ) → has_key key (candidate_row key w now) ≡ true
  has_key_refl key w now = rw (text_eq_refl key.0) (ground arith)

  finish_plan-row :
      (key : Text × ℕ) (w : Written F) (now : ℤ) (db' : Database F) (r : MemoryMutationResult)
      → finish_plan key w now ≡ ok (db', r)
      → (r ≡ record { memory_id = w.memory_id; status = w.status; was_already_applied = false })
        × Checked
            (record (w.tables) {
              extraction_candidates =
                  w.tables.extraction_candidates ++ candidate_row key w now ∷ [];
            })
            db'
  unfolding finish_plan
  finish_plan-row key w now db' r h =
      let start = record (w.tables) {
        extraction_candidates = w.tables.extraction_candidates ++ candidate_row key w now ∷ [];
      } in
      let result : MemoryMutationResult = record {
        memory_id = w.memory_id;
        status = w.status;
        was_already_applied = false;
      } in
      let told = λ (x : Database F).
        record_event_tx x reconciliation_applied key.0 w.memory_id (some w.outcome) now in
      let last : Database F → Result (Database F × MemoryMutationResult) StoreError =
        λ x. ok (x, result) in
      let (a, ha, h1) =
        bind-ok (enqueue_written start w.memory_id now) (λ x. told x >>= last) (db', r) h in
      let (b, hb, h2) = bind-ok (told a) last (db', r) h1 in
      let e = ok-injective h2 in
      (
        sym (ap (λ x. x.1) e),
        Checked-trans start a db' (enqueue_written-Checked start w.memory_id now a ha) (
            record_event_tx-Checked a reconciliation_applied key.0 w.memory_id (some w.outcome) now
              db' (hb ∙ ap (λ x. ok (x.0)) e)),
      )

module _ (fl : Float32) (to_lowercase deterministic_id : Text → Text) where
  open fl use {F}

  -- What a plan reports when it is applied again.
  abbrev pub replayed : MemoryMutationPlan F → MemoryMutationResult → MemoryMutationResult
  replayed plan r = record {
    memory_id = r.memory_id;
    status = if r.was_already_applied then r.status else outcome_status (plan_outcome plan);
    was_already_applied = true;
  }

  -- A plan whose key has a row.
  apply_plan-known :
      (db : Database F) (plan : MemoryMutationPlan F) (fresh : Text) (now : ℤ) (row : CandidateRow)
      → validate_plan_for_storage fl db plan ≡ ok tt
      → find_row (has_key (idempotency_key plan)) db.extraction_candidates ≡ some row
      → apply_plan fl to_lowercase deterministic_id db plan fresh now
        ≡ ok (
          db,
          record {
            memory_id = row.memory_id;
            status = outcome_status row.outcome;
            was_already_applied = true;
          },
        )
  unfolding apply_plan
  apply_plan-known db plan fresh now row v f = rw (v, f, apply_plan) refl

  -- The tables and the result after a plan whose key had no row.
  apply_plan-first :
      (db : Database F) (plan : MemoryMutationPlan F) (fresh : Text) (now : ℤ) (db' : Database F)
      (r : MemoryMutationResult)
      → validate_plan_for_storage fl db plan ≡ ok tt
      → find_row (has_key (idempotency_key plan)) db.extraction_candidates ≡ none
      → apply_plan fl to_lowercase deterministic_id db plan fresh now ≡ ok (db', r)
      → (w : Written F) × IsWritten (Checked db) plan w
        × (finish_plan (idempotency_key plan) w now ≡ ok (db', r))
  unfolding apply_plan
  apply_plan-first db plan fresh now db' r v f h =
      let (w, hw, hf) =
        bind-ok (write_plan fl to_lowercase deterministic_id db plan fresh now)
          (λ w. finish_plan (idempotency_key plan) w now) (db', r) (rw (v, f, apply_plan) at h) in
      (w, write_plan-Checked fl to_lowercase deterministic_id db plan fresh now w hw, hf)

  -- The row that a plan records under its key is found.
  recorded-found :
      (db : Database F) (plan : MemoryMutationPlan F) (w : Written F) (now : ℤ) (db' : Database F)
      (r : MemoryMutationResult)
      → find_row (has_key (idempotency_key plan)) db.extraction_candidates ≡ none
      → IsWritten (Checked db) plan w
      → finish_plan (idempotency_key plan) w now ≡ ok (db', r)
      → find_row (has_key (idempotency_key plan)) db'.extraction_candidates
        ≡ some (candidate_row (idempotency_key plan) w now)
  recorded-found db plan w now db' r f (c, o) h =
      let key = idempotency_key plan in
      let (_, k) = finish_plan-row key w now db' r h in
      rw k.candidates_kept (
        find_row-snoc (has_key key) w.tables.extraction_candidates (candidate_row key w now)
          (rw c.candidates_kept f) (has_key_refl key w now))

  -- A plan that was applied is not applied again: on the tables that it left, with any other fresh
  -- id and time, it succeeds, changes nothing, and reports the memory of the first time, as
  -- already applied. Its status is then the one of the first result if that was a repetition
  -- itself, and else the one that `outcome_status` reads from the plan's name.
  pub apply_plan-replayed :
      (db : Database F) (plan : MemoryMutationPlan F) (fresh : Text) (now : ℤ) (db' : Database F)
      (r : MemoryMutationResult) (fresh' : Text) (now' : ℤ)
      → apply_plan fl to_lowercase deterministic_id db plan fresh now ≡ ok (db', r)
      → apply_plan fl to_lowercase deterministic_id db' plan fresh' now' ≡ ok (db', replayed plan r)
  unfolding apply_plan
  apply_plan-replayed db plan fresh now db' r fresh' now' h =
      let key = idempotency_key plan in
      elim (Result-cases (validate_plan_for_storage fl db plan)) [
        | inr (e, v) ↦ absurd (cc (rw (v, apply_plan) at h))
        | inl (u, v) ↦ elim (Option-cases (find_row (has_key key) db.extraction_candidates)) [
          | inr (row, f) ↦
              subst
                (λ x.
                  apply_plan fl to_lowercase deterministic_id x.0 plan fresh' now'
                  ≡ ok (x.0, replayed plan x.1))
                (ok-injective (rw (v, f, apply_plan) at h))
                (apply_plan-known db plan fresh' now' row v f)
          | inl f ↦
              let (w, k, hf) = apply_plan-first db plan fresh now db' r v f h in
              let (e, c) = finish_plan-row key w now db' r hf in
              apply_plan-known db' plan fresh' now' (candidate_row key w now)
                (validate_plan-Inputs fl plan db db' (record {
                  sources_kept = c.sources_kept ∙ k.0.sources_kept;
                  apps_kept = c.apps_kept ∙ k.0.apps_kept;
                  categories_kept = c.categories_kept ∙ k.0.categories_kept;
                })
                  ∙ v)
                (recorded-found db plan w now db' r f k hf)
              ∙ rw (ap (λ x. x.memory_id) e, ap (λ x. x.was_already_applied) e, k.1) refl
        ]
      ]
