-- ===== src/Store/Shown.antt =====
-- What the steps of the transactions of crates/mega-store/src/memory_repo.rs keep of the search
-- documents.
use stalky.Prelude.Int.{ℤ}
use stalky.Prelude.Text.{Text, text}
use stalky.Prelude.{
  ltb, List, Option, Option-cases, Result, ap, arith, bind-ok, false, inl, inr, none, ok,
  ok-injective, refl, some, subst, ℕ, ◌&&◌, ◌++◌, ◌==◌, ◌>>=◌, ◌∷◌, ◌≡◌, [],
}
use stalky.Jobs.{MemoryEventType, find_row, memory_forgotten, reconciliation_applied}
use stalky.Store.{u32_max, Database, RelationType, StoreError, has_id, record_event_tx}
use stalky.Store.Inserts.{enqueue_projection, enqueue_projection_refresh_tx}
use stalky.Store.Plans.{MemoryMutationResult, Written, relate, remove_document, supersede}
use stalky.Store.Applies.{candidate_row, enqueue_written, finish_plan}
use stalky.Store.Reviews.{ensure_revision}
use stalky.Store.Deletes.{
  DeleteMode, bury, delete_empty_segments, delete_memory, delete_row, delete_sources, forget,
  invalidate_affected_profiles, permanent, remove_rebuildable_projections,
}
use stalky.Store.Erasures.{
  delete_memory-permanent, delete_sources-round, record_event_tx-ok, sources_of, without_source,
}
use stalky.Store.Effects.{reject-ok}
use stalky.Store.Index.{IsIndexed, deleted-IsIndexed, hidden-IsIndexed}

module _ {F : Type 0} where
  pub record_event_tx-IsIndexed :
      (db : Database F) (type : MemoryEventType) (correlation_id : Text)
      (memory_id outcome : Option Text) (now : ℤ) (db' : Database F)
      → record_event_tx db type correlation_id memory_id outcome now ≡ ok db'
      → IsIndexed db
      → IsIndexed db'
  record_event_tx-IsIndexed db type correlation_id memory_id outcome now db' h k =
      let (events, e) = record_event_tx-ok db type correlation_id memory_id outcome now db' h in
      subst IsIndexed e k

  -- The jobs are in another table.
  pub enqueue-IsIndexed :
      (db : Database F) (id : Text) (revision : ℕ) (now : ℤ)
      → IsIndexed db
      → IsIndexed (enqueue_projection_refresh_tx db id revision now)
  unfolding enqueue_projection_refresh_tx enqueue_projection
  enqueue-IsIndexed db id revision now k = k

  pub relate-IsIndexed :
      (db : Database F) (from to : Text) (t : RelationType) (now : ℤ)
      → IsIndexed db
      → IsIndexed (relate db from to t now)
  unfolding relate
  relate-IsIndexed db from to t now k = k

  pub supersede-IsIndexed :
      (db : Database F) (id : Text) (now : ℤ) → IsIndexed db → IsIndexed (supersede db id now)
  unfolding supersede
  supersede-IsIndexed db id now k = hidden-IsIndexed db (has_id id) _ id (λ m e. e) (λ m. refl) k

  enqueue_written-IsIndexed :
      (db : Database F) (id : Option Text) (now : ℤ) (db' : Database F)
      → enqueue_written db id now ≡ ok db'
      → IsIndexed db
      → IsIndexed db'
  unfolding enqueue_written
  enqueue_written-IsIndexed db none now db' h k = subst IsIndexed (ok-injective h) k
  enqueue_written-IsIndexed db (some id) now db' h k =
      elim (Option-cases (find_row (has_id id) db.memories)) [
        | inl e ↦ absurd (cc (rw (e, enqueue_written) at h))
        | inr (m, e) ↦
            let (_, l) = reject-ok (ltb u32_max m.revision) _ _ _ (rw (e, enqueue_written) at h) in
            subst IsIndexed (ok-injective l) (enqueue-IsIndexed db id m.revision now k)
      ]

  pub finish_plan-IsIndexed :
      (key : Text × ℕ) (w : Written F) (now : ℤ) (db' : Database F) (r : MemoryMutationResult)
      → finish_plan key w now ≡ ok (db', r)
      → IsIndexed w.tables
      → IsIndexed db'
  unfolding finish_plan
  finish_plan-IsIndexed key w now db' r h k =
      let start = record (w.tables) {
        extraction_candidates = w.tables.extraction_candidates ++ candidate_row key w now ∷ [];
      } in
      let result : MemoryMutationResult = record {
        memory_id = w.memory_id;
        status = w.status;
        was_already_applied = false;
      } in
      let told = λ (x : Database F).
        record_event_tx x reconciliation_applied key.0 w.memory_id (some w.outcome) now in
      let last : Database F → Result (Database F × MemoryMutationResult) StoreError =
        λ x. ok (x, result) in
      let (a, ha, h1) =
        bind-ok (enqueue_written start w.memory_id now) (λ x. told x >>= last) (db', r) h in
      let (b, hb, h2) = bind-ok (told a) last (db', r) h1 in
      subst IsIndexed (ap (λ x. x.0) (ok-injective h2)) (
        record_event_tx-IsIndexed a reconciliation_applied key.0 w.memory_id (some w.outcome) now b
          hb (enqueue_written-IsIndexed start w.memory_id now a ha k))

  delete_sources-IsIndexed :
      (ids : List Text) (db db' : Database F)
      → delete_sources db ids ≡ ok db'
      → IsIndexed db
      → IsIndexed db'
  unfolding delete_sources
  delete_sources-IsIndexed [] db db' h k = subst IsIndexed (ok-injective h) k
  delete_sources-IsIndexed (s ∷ ids) db db' h k = elim (delete_sources-round s ids db db' h) [
    | inl (_, e) ↦ delete_sources-IsIndexed ids db db' e k
    | inr (_, e) ↦ delete_sources-IsIndexed ids (without_source db s) db' e k
  ]

  delete_row-IsIndexed :
      (db : Database F) (id : Text)
      → IsIndexed db
      → IsIndexed (delete_row (invalidate_affected_profiles db id) id)
  unfolding delete_row remove_document invalidate_affected_profiles
  delete_row-IsIndexed db id k = unfold remove_document in deleted-IsIndexed db id k

  pub delete_memory-IsIndexed :
      (db : Database F) (id : Text) (expected : ℕ) (mode : DeleteMode) (correlation_id : Text)
      (now : ℤ) (db' : Database F)
      → delete_memory db id expected mode correlation_id now ≡ ok db'
      → IsIndexed db
      → IsIndexed db'
  unfolding delete_memory remove_rebuildable_projections invalidate_affected_profiles bury
      delete_empty_segments
  delete_memory-IsIndexed db id expected forget correlation_id now db' h k =
      let (_, _, h1) = bind-ok (ensure_revision db id expected) (λ _. _) db' h in
      record_event_tx-IsIndexed _ memory_forgotten correlation_id (some id)
        (some (text "forgotten")) now db' h1
        (hidden-IsIndexed db (λ m. has_id id m && (m.revision == expected)) _ id
          (λ m e. ground arith) (λ m. refl) k)
  delete_memory-IsIndexed db id expected permanent correlation_id now db' h k =
      let (left, hl, events, e) = delete_memory-permanent db id expected correlation_id now db' h in
      subst IsIndexed e
        (delete_sources-IsIndexed (sources_of db id) _ left hl (delete_row-IsIndexed db id k))
