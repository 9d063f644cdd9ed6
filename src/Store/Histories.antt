-- ===== src/Store/Histories.antt =====
-- Any calls of the transactions of crates/mega-store/src/memory_repo.rs and operations_repo.rs beside
-- it, one after the other, and what they keep of the search documents.
use stalky.Prelude.Int.{ℤ}
use stalky.Prelude.Text.{Text}
use stalky.Prelude.{List, Result, Result-cases, err, inl, inr, ok, refl, ℕ, ◌∷◌, ◌≡◌, []}
use stalky.Model.Floats.{Float32}
use stalky.Reconcile.{MemoryMutationPlan}
use stalky.Store.{Database, StoreError}
use stalky.Store.Inserts.{ManualMemoryInput}
use stalky.Store.Applies.{apply_plan}
use stalky.Store.Reviews.{confirm_pending, create_manual, edit_manual, reject_pending}
use stalky.Store.Deletes.{DeleteMode, delete_memory}
use stalky.Store.Index.{IsIndexed}
use stalky.Store.Shown.{delete_memory-IsIndexed}
use stalky.Store.Transactions.{
  apply_plan-IsIndexed, confirm_pending-IsIndexed, create_manual-IsIndexed, edit_manual-IsIndexed,
  reject_pending-IsIndexed,
}

module _ (fl : Float32) (to_lowercase deterministic_id : Text → Text) where
  open fl use {F}

  -- A call of one of the transactions; the fresh ids are arguments.
  pub data StoreCall : Type 0 where
    applies : MemoryMutationPlan F → Text → ℤ → StoreCall
    creates : ManualMemoryInput F → Text → Text → StoreCall
    edits : Text → ℕ → Text → ManualMemoryInput F → Text → StoreCall
    confirms rejects : Text → ℕ → Text → ℤ → StoreCall
    deletes : Text → ℕ → DeleteMode → Text → ℤ → StoreCall

  -- The tables after a transaction, which are the ones before it if it fails.
  abbrev committed : {A : Type 0} → Database F → Result (Database F × A) StoreError → Database F
  committed db (ok x) = x.0
  committed db (err e) = db

  abbrev pub run_one : Database F → StoreCall → Database F
  run_one db (applies plan fresh now) =
      committed db (apply_plan fl to_lowercase deterministic_id db plan fresh now)
  run_one db (creates input correlation_id fresh) =
      committed db (create_manual fl to_lowercase deterministic_id db input correlation_id fresh)
  run_one db (edits id expected correlation_id input fresh) =
      committed db
        (edit_manual fl to_lowercase deterministic_id db id expected correlation_id input fresh)
  run_one db (confirms id expected correlation_id now) =
      committed db (confirm_pending fl db id expected correlation_id now)
  run_one db (rejects id expected correlation_id now) =
      committed db (reject_pending db id expected correlation_id now)
  run_one db (deletes id expected mode correlation_id now) =
      elim (delete_memory db id expected mode correlation_id now) [ ok a ↦ a | err e ↦ db ]

  abbrev pub run_calls : Database F → List StoreCall → Database F
  run_calls db [] = db
  run_calls db (c ∷ cs) = run_calls (run_one db c) cs

  committed-IsIndexed :
      {A : Type 0} (db : Database F) (m : Result (Database F × A) StoreError)
      → ((db' : Database F) (a : A) → m ≡ ok (db', a) → IsIndexed db → IsIndexed db')
      → IsIndexed db
      → IsIndexed (committed db m)
  committed-IsIndexed db (ok (a, x)) f k = f a x refl k
  committed-IsIndexed db (err e) f k = k

  run_one-IsIndexed : (db : Database F) (c : StoreCall) → IsIndexed db → IsIndexed (run_one db c)
  run_one-IsIndexed db (applies plan fresh now) k =
      committed-IsIndexed db _
        (apply_plan-IsIndexed fl to_lowercase deterministic_id db plan fresh now) k
  run_one-IsIndexed db (creates input correlation_id fresh) k =
      committed-IsIndexed db _
        (create_manual-IsIndexed fl to_lowercase deterministic_id db input correlation_id fresh) k
  run_one-IsIndexed db (edits id expected correlation_id input fresh) k =
      committed-IsIndexed db _
        (edit_manual-IsIndexed fl to_lowercase deterministic_id db id expected correlation_id input
          fresh)
        k
  run_one-IsIndexed db (confirms id expected correlation_id now) k =
      committed-IsIndexed db _ (confirm_pending-IsIndexed fl db id expected correlation_id now) k
  run_one-IsIndexed db (rejects id expected correlation_id now) k =
      committed-IsIndexed db _ (reject_pending-IsIndexed db id expected correlation_id now) k
  run_one-IsIndexed db (deletes id expected mode correlation_id now) k =
      elim (Result-cases (delete_memory db id expected mode correlation_id now)) [
        | inl (a, e) ↦
            rw (e, run_one) (delete_memory-IsIndexed db id expected mode correlation_id now a e k)
        | inr (x, e) ↦ rw (e, run_one) k
      ]

  -- Whatever plans are applied and whatever the user does to memories, whether it succeeds or fails:
  -- if every search document is of an active memory before, and no two memories have the same id, then
  -- so it is afterwards.
  pub run_calls-IsIndexed :
      (db : Database F) (cs : List StoreCall) → IsIndexed db → IsIndexed (run_calls db cs)
  run_calls-IsIndexed db [] k = k
  run_calls-IsIndexed db (c ∷ cs) k =
      run_calls-IsIndexed (run_one db c) cs (run_one-IsIndexed db c k)
