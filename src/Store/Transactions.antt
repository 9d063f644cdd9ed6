-- ===== src/Store/Transactions.antt =====
-- What the transactions of crates/mega-store/src/memory_repo.rs, and of the reviews in
-- operations_repo.rs, keep of the search documents.
use stalky.Prelude.Int.{ℤ}
use stalky.Prelude.Text.{Text, text}
use stalky.Prelude.{
  Bool-cases, List, Option-cases, Result-cases, ap, any, arith, bind-ok, inl, inr, not, ok,
  ok-injective, refl, some, subst, true, ℕ, ◌&&◌, ◌==◌, ◌≡◌, ◌||◌,
}
use stalky.Model.Floats.{Float32}
use stalky.Model.{MemoryStatus, MemoryStatus-discrete, active, forgotten, rejected}
use stalky.Candidate.{MemoryCandidate}
use stalky.Reconcile.{MemoryMutationPlan, idempotency_key}
use stalky.Jobs.{find_row, memory_confirmed, memory_edited, memory_rejected, reconciliation_applied}
use stalky.Store.{Database, has_id, is_active, record_event_tx, updates}
use stalky.Store.Inserts.{
  ManualMemoryInput, enqueue_projection_refresh_tx, insert_candidate_tx, insert_manual_tx,
}
use stalky.Store.Checks.{validate_plan_for_storage}
use stalky.Store.Plans.{MemoryMutationResult, saturating_succ, support, write_plan}
use stalky.Store.Applies.{apply_plan, finish_plan, has_key}
use stalky.Store.Reviews.{
  confirm_pending, create_manual, edit_manual, ensure_revision, has_status, is_reviewed,
  next_revision, reject_pending, validate_manual,
}
use stalky.Store.Effects.{reject-ok, support-Keeps}
use stalky.Store.Insertions.{insert_candidate_tx-IsInserted, insert_manual_tx-IsInserted}
use stalky.Store.Written.{strengthened, write_plan-IsWritten}
use stalky.Store.Index.{
  IsIndexed, added-IsIndexed, hidden-IsIndexed, refresh_search_document-IsIndexed,
  updated-IsIndexed, kept-IsIndexed,
}
use stalky.Store.Shown.{
  enqueue-IsIndexed, finish_plan-IsIndexed, record_event_tx-IsIndexed, relate-IsIndexed,
  supersede-IsIndexed,
}

is_active_active : is_active active ≡ true
unfolding MemoryStatus-discrete
is_active_active = refl

module _ {F : Type 0} where
  pub reject_pending-IsIndexed :
      (db : Database F) (id : Text) (expected : ℕ) (correlation_id : Text) (now : ℤ)
      (db' : Database F) (revision : ℕ)
      → reject_pending db id expected correlation_id now ≡ ok (db', revision)
      → IsIndexed db
      → IsIndexed db'
  unfolding reject_pending
  reject_pending-IsIndexed db id expected correlation_id now db' revision h k =
      let (_, _, h1) = bind-ok (ensure_revision db id expected) (λ _. _) (db', revision) h in
      let (_, h2) = reject-ok (not (any (is_reviewed id expected) db.memories)) _ _ _ h1 in
      let (told, ht, h3) =
        bind-ok
          (record_event_tx _ memory_rejected correlation_id (some id) (some (text "rejected")) now)
          (λ _. _) (db', revision) h2 in
      subst IsIndexed (ap (λ x. x.0) (ok-injective h3)) (
        record_event_tx-IsIndexed _ memory_rejected correlation_id (some id)
          (some (text "rejected")) now told ht
          (hidden-IsIndexed db (is_reviewed id expected) _ id (λ m e. ground arith) (λ m. refl) k))

module _ (fl : Float32) where
  open fl use {F}

  pub confirm_pending-IsIndexed :
      (db : Database F) (id : Text) (expected : ℕ) (correlation_id : Text) (now : ℤ)
      (db' : Database F) (revision : ℕ)
      → confirm_pending fl db id expected correlation_id now ≡ ok (db', revision)
      → IsIndexed db
      → IsIndexed db'
  unfolding confirm_pending
  confirm_pending-IsIndexed db id expected correlation_id now db' revision h k =
      let (_, _, h1) = bind-ok (ensure_revision db id expected) (λ _. _) (db', revision) h in
      let (_, h2) = reject-ok (not (any (is_reviewed id expected) db.memories)) _ _ _ h1 in
      let (told, ht, h3) =
        bind-ok
          (record_event_tx _ memory_confirmed correlation_id (some id) (some (text "active")) now)
          (λ _. _) (db', revision) h2 in
      subst IsIndexed (ap (λ x. x.0) (ok-injective h3)) (
        record_event_tx-IsIndexed _ memory_confirmed correlation_id (some id) (some (text "active"))
          now told ht
          (enqueue-IsIndexed _ id (next_revision expected) now (
            refresh_search_document-IsIndexed _ id (
              updated-IsIndexed db (is_reviewed id expected) _ (λ m. refl) (λ m e. is_active_active)
                k))))

module _ (fl : Float32) (to_lowercase deterministic_id : Text → Text) where
  open fl use {F}

  insert_candidate_tx-IsIndexed :
      (db : Database F)
      → IsIndexed db
      → (id : Text) (c : MemoryCandidate F) (status : MemoryStatus) (revision : ℕ) (now : ℤ)
        (db' : Database F)
      → insert_candidate_tx fl to_lowercase deterministic_id db id c status revision now ≡ ok db'
      → IsIndexed db'
  insert_candidate_tx-IsIndexed db h id c status revision now db' r =
      let (k, i, e) =
        insert_candidate_tx-IsInserted fl to_lowercase deterministic_id db id c status revision now
          db' r in
      let added = added-IsIndexed db k _ i.memory_added i.is_fresh i.documents_kept h in
      subst IsIndexed e (elim (Bool-cases (is_active status)) [
        | inl t ↦ rw t (refresh_search_document-IsIndexed k id added)
        | inr t ↦ rw t added
      ])

  insert_manual_tx-IsIndexed :
      (db : Database F)
      → IsIndexed db
      → (id : Text) (input : ManualMemoryInput F) (revision : ℕ) (db' : Database F)
      → insert_manual_tx fl to_lowercase deterministic_id db id input revision ≡ ok db'
      → IsIndexed db'
  insert_manual_tx-IsIndexed db h id input revision db' r =
      let (k, i, e) =
        insert_manual_tx-IsInserted fl to_lowercase deterministic_id db id input revision db' r in
      subst IsIndexed e (
        refresh_search_document-IsIndexed k id
          (added-IsIndexed db k _ i.memory_added i.is_fresh i.documents_kept h))

  strengthened-IsIndexed :
      (db : Database F)
      → IsIndexed db
      → (id : Text) (ids : List Text) (confidence : F) (now : ℤ) (a : Database F)
      → support db id ids ≡ ok a
      → IsIndexed (strengthened fl a id confidence now)
  strengthened-IsIndexed db h id ids confidence now a r =
      let s = support-Keeps ids db id a r in
      updated-IsIndexed a (has_id id) _ (λ m. refl) (λ m e. e)
        (kept-IsIndexed db a s.documents_kept (λ i k. rw s.memories_kept k)
          (λ k. rw s.memories_kept k) h)

  pub apply_plan-IsIndexed :
      (db : Database F) (plan : MemoryMutationPlan F) (fresh : Text) (now : ℤ) (db' : Database F)
      (r : MemoryMutationResult)
      → apply_plan fl to_lowercase deterministic_id db plan fresh now ≡ ok (db', r)
      → IsIndexed db
      → IsIndexed db'
  unfolding apply_plan
  apply_plan-IsIndexed db plan fresh now db' r h k =
      let key = idempotency_key plan in
      elim (Result-cases (validate_plan_for_storage fl db plan)) [
        | inr (e, v) ↦ absurd (cc (rw (v, apply_plan) at h))
        | inl (u, v) ↦ elim (Option-cases (find_row (has_key key) db.extraction_candidates)) [
          | inr (row, f) ↦
              subst IsIndexed (ap (λ x. x.0) (ok-injective (rw (v, f, apply_plan) at h))) k
          | inl f ↦
              let (w, hw, hf) =
                bind-ok (write_plan fl to_lowercase deterministic_id db plan fresh now)
                  (λ w. finish_plan key w now) (db', r) (rw (v, f, apply_plan) at h) in
              finish_plan-IsIndexed key w now db' r hf
                (write_plan-IsWritten fl to_lowercase deterministic_id IsIndexed db k
                  (insert_candidate_tx-IsIndexed db k) (strengthened-IsIndexed db k)
                  supersede-IsIndexed relate-IsIndexed plan fresh now w hw).0
        ]
      ]

  pub create_manual-IsIndexed :
      (db : Database F) (input : ManualMemoryInput F) (correlation_id fresh : Text)
      (db' : Database F) (id : Text)
      → create_manual fl to_lowercase deterministic_id db input correlation_id fresh ≡ ok (db', id)
      → IsIndexed db
      → IsIndexed db'
  unfolding create_manual
  create_manual-IsIndexed db input correlation_id fresh db' id h k =
      let (_, _, h1) = bind-ok (validate_manual fl input) (λ _. _) (db', id) h in
      let (a, ha, h2) =
        bind-ok (insert_manual_tx fl to_lowercase deterministic_id db fresh input 1) (λ _. _)
          (db', id) h1 in
      let (told, ht, h3) =
        bind-ok
          (record_event_tx (enqueue_projection_refresh_tx a fresh 1 input.now_ms)
            reconciliation_applied correlation_id (some fresh) (some (text "manual_create"))
            input.now_ms)
          (λ _. _) (db', id) h2 in
      subst IsIndexed (ap (λ x. x.0) (ok-injective h3)) (
        record_event_tx-IsIndexed _ reconciliation_applied correlation_id (some fresh)
          (some (text "manual_create")) input.now_ms told ht
          (enqueue-IsIndexed a fresh 1 input.now_ms
            (insert_manual_tx-IsIndexed db k fresh input 1 a ha)))

  pub edit_manual-IsIndexed :
      (db : Database F) (id : Text) (expected : ℕ) (correlation_id : Text)
      (input : ManualMemoryInput F) (fresh : Text) (db' : Database F) (made : Text)
      → edit_manual fl to_lowercase deterministic_id db id expected correlation_id input fresh
        ≡ ok (db', made)
      → IsIndexed db
      → IsIndexed db'
  unfolding edit_manual
  edit_manual-IsIndexed db id expected correlation_id input fresh db' made h k =
      let (_, _, h1) = bind-ok (validate_manual fl input) (λ _. _) (db', made) h in
      let (status, _, h2) = bind-ok (ensure_revision db id expected) (λ _. _) (db', made) h1 in
      let (_, h3) =
        reject-ok (has_status status forgotten || has_status status rejected) _ _ _ h2 in
      let (a, ha, h4) =
        bind-ok
          (insert_manual_tx fl to_lowercase deterministic_id db fresh input
            (saturating_succ expected))
          (λ _. _) (db', made) h3 in
      let (told, ht, h5) =
        bind-ok
          (record_event_tx _ memory_edited correlation_id (some fresh)
            (some (text "manual_revision")) input.now_ms)
          (λ _. _) (db', made) h4 in
      subst IsIndexed (ap (λ x. x.0) (ok-injective h5)) (
        record_event_tx-IsIndexed _ memory_edited correlation_id (some fresh)
          (some (text "manual_revision")) input.now_ms told ht
          (enqueue-IsIndexed _ fresh (saturating_succ expected) input.now_ms (
            relate-IsIndexed _ fresh id updates input.now_ms (
              hidden-IsIndexed a (λ m. has_id id m && (m.revision == expected)) _ id
                (λ m e. ground arith) (λ m. refl)
                (insert_manual_tx-IsIndexed db k fresh input (saturating_succ expected) a ha)))))
