-- ===== src/Store/Written.antt =====
-- What holds of the tables after `match plan` in `apply_plan` of crates/mega-store/src/memory_repo.rs,
-- when each kind of write that it is made of keeps it.
use stalky.Prelude.Int.{ℤ}
use stalky.Prelude.Text.{Text, text}
use stalky.Prelude.{
  ◌+◌, List, Option-cases, Result, ℕ, err, inl, inr, ltb, none, not, ok, ok-injective, refl, some,
  ◌&&◌, ◌>>=◌, ◌≡◌, subst,
}
use stalky.Model.Floats.{Float32}
use stalky.Model.{MemoryStatus, pending_review, trust_rank}
use stalky.Reconcile.{MemoryMutationPlan, create, duplicate, extend, ignore, request_review, update}
use stalky.Candidate.{MemoryCandidate}
use stalky.Jobs.{update_where, find_row}
use stalky.Store.{u32_max, Database, StoreError, extends, has_id, is_active, updates, RelationType}
use stalky.Store.Inserts.{insert_candidate_tx}
use stalky.Store.Plans.{Written, relate, supersede, support, write_plan, saturating_succ}
use stalky.Store.Effects.{reject-ok}

module _ {F : Type 0} where
  -- The name under which a plan is recorded.
  abbrev pub plan_outcome : MemoryMutationPlan F → Text
  plan_outcome (create k c s) = text "create"
  plan_outcome (duplicate k i s c) = text "duplicate"
  plan_outcome (update k i c s) = text "update"
  plan_outcome (extend k i c s) = text "extend"
  plan_outcome (ignore k r) = text "ignore"
  plan_outcome (request_review k c r) = text "request_review"

  -- The tables of what a plan writes, and its name.
  abbrev pub IsWritten : (Database F → Type 0) → MemoryMutationPlan F → Written F → Type 0
  IsWritten P plan w = P w.tables × (w.outcome ≡ plan_outcome plan)

  IsWritten-ok :
      (P : Database F → Type 0) (plan : MemoryMutationPlan F) (v w : Written F)
      → IsWritten P plan v
      → ◌≡◌ {A = Result (Written F) StoreError} (ok v) (ok w)
      → IsWritten P plan w
  IsWritten-ok P plan v w k e = subst (IsWritten P plan) (ok-injective e) k

  mapped-IsWritten :
      (P : Database F → Type 0) (plan : MemoryMutationPlan F) (m : Result (Database F) StoreError)
      (g : Database F → Written F) (w : Written F)
      → ((db' : Database F) → m ≡ ok db' → IsWritten P plan (g db'))
      → ◌≡◌ {A = Result (Written F) StoreError} (m >>= λ x. ok (g x)) (ok w)
      → IsWritten P plan w
  mapped-IsWritten P plan (ok a) g w k h = IsWritten-ok P plan (g a) w (k a refl) h
  mapped-IsWritten P plan (err e) g w k h = cc

-- A duplicate's row, and the tables with it.
abbrev pub strengthened : (fl : Float32) → Database (fl.F) → Text → fl.F → ℤ → Database (fl.F)
strengthened fl a id confidence now = record a {
  memories =
      update_where (has_id id)
        (λ r. record r {
          confidence = fl.maximum r.confidence confidence;
          revision = r.revision + 1;
          updated_at = now;
        })
        a.memories;
}

module _ (fl : Float32) (to_lowercase deterministic_id : Text → Text) (P : Database (fl.F) → Type 0)
    (db : Database (fl.F)) (start : P db)
    (inserts : (id : Text) (c : MemoryCandidate (fl.F)) (status : MemoryStatus) (revision : ℕ)
        (now : ℤ) (a : Database (fl.F))
      → insert_candidate_tx fl to_lowercase deterministic_id db id c status revision now ≡ ok a
      → P a)
    (strengthens : (id : Text) (ids : List Text) (confidence : fl.F) (now : ℤ) (a : Database (fl.F))
      → support db id ids ≡ ok a
      → P (strengthened fl a id confidence now))
    (supersedes : (a : Database (fl.F)) (id : Text) (now : ℤ) → P a → P (supersede a id now))
    (relates : (a : Database (fl.F)) (from to : Text) (t : RelationType) (now : ℤ)
      → P a
      → P (relate a from to t now)) where
  open fl use {F}

  pub write_plan-IsWritten :
      (plan : MemoryMutationPlan F) (fresh : Text) (now : ℤ) (w : Written F)
      → write_plan fl to_lowercase deterministic_id db plan fresh now ≡ ok w
      → IsWritten P plan w
  unfolding write_plan
  write_plan-IsWritten (create k c s) fresh now w h =
      mapped-IsWritten P (create k c s) _ _ w (λ a p. (inserts fresh c s 1 now a p, refl)) h
  write_plan-IsWritten (duplicate k id ids f) fresh now w h =
      elim (Option-cases (find_row (has_id id) db.memories)) [
        | inl e ↦ absurd (cc (rw (e, write_plan) at h))
        | inr (m, e) ↦
            let (_, p) = reject-ok _ _ _ w (rw (e, write_plan) at h) in
            mapped-IsWritten P (duplicate k id ids f) (support db id ids) _ w
              (λ a p. (strengthens id ids f now a p, refl)) p
      ]
  write_plan-IsWritten (update k id c s) fresh now w h =
      elim (Option-cases (find_row (λ m. has_id id m && is_active m.status) db.memories)) [
        | inl e ↦ absurd (cc (rw (e, write_plan) at h))
        | inr (m, e) ↦
            let (_, o) = reject-ok (ltb u32_max m.revision) _ _ w (rw (e, write_plan) at h) in
            let (_, p) =
              reject-ok (ltb (trust_rank c.assertion_mode) (trust_rank m.assertion_mode)) _ _ w o in
            let (_, q) = reject-ok (not (is_active s)) _ _ w p in
            mapped-IsWritten P (update k id c s)
              (insert_candidate_tx fl to_lowercase deterministic_id db fresh c s
                (saturating_succ m.revision) now)
              (λ a. record {
                tables = relate (supersede a id now) fresh id updates now;
                memory_id = some fresh;
                status = s;
                outcome = text "update";
                reason = none;
              })
              w
              (λ a p. (
                relates (supersede a id now) fresh id updates now
                    (supersedes a id now (inserts fresh c s (saturating_succ m.revision) now a p)),
                refl,
              ))
              q
      ]
  write_plan-IsWritten (extend k id c s) fresh now w h =
      elim (Option-cases (find_row (λ m. has_id id m && is_active m.status) db.memories)) [
        | inl e ↦ absurd (cc (rw (e, write_plan) at h))
        | inr (m, e) ↦
            mapped-IsWritten P (extend k id c s) _ _ w
              (λ a p. (relates a fresh id extends now (inserts fresh c s 1 now a p), refl))
              (rw (e, write_plan) at h)
      ]
  write_plan-IsWritten (ignore k r) fresh now w h = IsWritten-ok P (ignore k r) _ w (start, refl) h
  write_plan-IsWritten (request_review k c r) fresh now w h =
      mapped-IsWritten P (request_review k c r) _ _ w
        (λ a p. (inserts fresh c pending_review 1 now a p, refl)) h
