-- ===== src/Jobs/Kept.antt =====
-- Which rows a call of crates/mega-store/src/queue_repo.rs passes over.
use stalky.Jobs.Committed.{enqueue-jobs, complete-jobs, fail-jobs}
use stalky.Jobs.Enqueue.{enqueue_extraction, insert_job, fresh_job}
use stalky.Jobs.Soundness.{if_false, expire-IsSound, exhaust-IsSound, run_call-IsSound}
use stalky.Jobs.Attempts.{IsSound}
use stalky.Jobs.Starts.{next_job-In, record_event-jobs}
use stalky.Jobs.Finish.{is_completable, is_failable, complete_extraction, fail_extraction}
use stalky.Jobs.Rows.{IsKeyed, update_where-In, same_id, has_id, snoc-In}
use stalky.Prelude.Text.{Text, text_eq, text}
use stalky.Prelude.Int.{ℤ, checked_add}
use stalky.Prelude.{
  Bool, List, In, Option, ◌≡◌, false, ok, true, ◌&&◌, arith, subst, Option-cases, if◌then◌else◌,
  inl, ok-injective, ap, inr, bind-ok, some, Bool-cases, sym, Result-cases, All, any, ◌∷◌, [],
}
use stalky.Jobs.Claim.{
  claim_next, expire, is_claimable, exhaust, next_job, lease, is_exhausted, is_expired,
  claim_extraction, validate_worker_and_lease,
}
use stalky.Jobs.{
  JobRow, Tables, is_pending, ExtractionJob, is_running, update_where, expires_by, owned_by,
  record_event_tx, extraction_started, segment_closed,
}
use stalky.Jobs.Runs.{Call, enqueues, claims, completes, fails, pauses, run_call, run_calls}

-- What a call has to find of a row to pass it over.
abbrev pub Kept : JobRow → Call → Type 0
Kept r (enqueues id segment version correlation now) = Unit
Kept r (claims worker now millis) =
    ((is_running r.state && expires_by r.lease_expires_at now) ≡ false)
    × (is_pending r.state ≡ false)
Kept r (completes job worker completion now) = is_completable job worker r ≡ false
Kept r (fails job worker failure now) = (text_eq r.id job && owned_by r.lease_owner worker) ≡ false
Kept r (pauses paused) = Unit

passed_over :
    (p : JobRow → Bool) (f : JobRow → JobRow) (rs : List JobRow) (r : JobRow)
    → In r rs
    → p r ≡ false
    → In r (update_where p f rs)
passed_over p f rs r m e =
    subst (λ b. In (if b then f r else r) (update_where p f rs)) e (update_where-In p f rs r m)

not_due :
    (now : ℤ) (r : JobRow)
    → (is_running r.state && expires_by r.lease_expires_at now) ≡ false
    → (is_exhausted now r ≡ false) × (is_expired now r ≡ false)
unfolding is_exhausted is_expired
not_due now r e = (ground arith, ground arith)

released-In :
    (now : ℤ) (rs : List JobRow) (r : JobRow)
    → In r rs
    → (is_running r.state && expires_by r.lease_expires_at now) ≡ false
    → In r (expire now (exhaust now rs))
unfolding expire exhaust
released-In now rs r m e =
    let (a, b) = not_due now r e in
    passed_over (is_expired now) _ _ r (passed_over (is_exhausted now) _ rs r m a) b

not_claimable : (now : ℤ) (r : JobRow) → is_pending r.state ≡ false → is_claimable now r ≡ true → ⊥
unfolding is_claimable
not_claimable now r e c = ground arith

claim_next-In :
    (db db' : Tables) (worker : Text) (expires now : ℤ) (job : Option ExtractionJob) (r : JobRow)
    → claim_next db worker expires now ≡ ok (db', job)
    → IsKeyed db.jobs
    → In r db.jobs
    → is_pending r.state ≡ false
    → In r db'.jobs
unfolding claim_next
claim_next-In db db' worker expires now job r h u m s = elim (Option-cases (next_job now db.jobs)) [
  | inl n ↦
      let e = ok-injective (rw (n, claim_next) at h) in
      subst (λ d. In r (Tables.jobs d)) (ap (λ p. p.0) e) m
  | inr (q, n) ↦
      let (mq, c) = next_job-In now db.jobs q n in
      let f = lease worker expires now in
      let (d, e, h) =
        bind-ok
          (record_event_tx (record db { jobs = update_where (λ x. text_eq x.id q.id) f db.jobs })
            extraction_started q.id (some q.segment_id) (some (text "running")) now)
          _ _ (rw (n, claim_next) at h) in
      let (j, t) =
        record_event-jobs _ d extraction_started q.id (some q.segment_id) (some (text "running"))
          now e in
      let kept : In r (update_where (λ x. text_eq (JobRow.id x) q.id) f db.jobs) =
        elim (Bool-cases (text_eq r.id q.id)) [
          | inl b ↦
              elim (not_claimable now q
                (subst (λ x. is_pending (JobRow.state x) ≡ false) (same_id db.jobs r q u m mq b) s)
                c) [ ]
          | inr b ↦ passed_over (λ x. text_eq (JobRow.id x) q.id) f db.jobs r m b
        ] in
      subst (λ x. In r (Tables.jobs x)) (ap (λ p. p.0) (ok-injective h)) (subst (In r) (sym j) kept)
]

if_true : {A : Type 0} (t : Bool) (x y b : A) → t ≡ true → (if t then x else y) ≡ b → x ≡ b
if_true true x y b e h = h
if_true false x y b e h = cc

claim-In :
    (db : Tables) (worker : Text) (now millis : ℤ) (r : JobRow)
    → IsSound db
    → In r db.jobs
    → Kept r (claims worker now millis)
    → In r (run_call db (claims worker now millis)).jobs
unfolding run_call claim_extraction
claim-In db worker now millis r k m (e, s) =
    elim (Result-cases (claim_extraction db worker now millis)) [
      | inr (x, h) ↦ rw (h, run_call) m
      | inl ((db', job), h) ↦
          rw (h, run_call)
            (let (u, v, h) = bind-ok (validate_worker_and_lease worker millis) _ _ h in
              elim (Bool-cases db.extraction_paused) [
                | inl p ↦
                    subst (λ d. In r (Tables.jobs d))
                      (ap (λ p. p.0) (ok-injective (if_true db.extraction_paused _ _ _ p h))) m
                | inr p ↦
                    let h = if_false db.extraction_paused _ _ _ p h in
                    elim (Option-cases (checked_add now millis)) [
                      | inl o ↦ let h' = rw o at h in cc
                      | inr (expires, o) ↦
                          claim_next-In (record db { jobs = expire now (exhaust now db.jobs) }) db'
                            worker expires now job r (rw o at h)
                            (IsSound.keyed (expire-IsSound now _ (exhaust-IsSound now db k)))
                            (released-In now db.jobs r m e) s
                    ]
              ])
    ]

insert-In :
    (db db' : Tables) (id segment version correlation : Text) (now : ℤ) (r : JobRow)
    → insert_job db id segment version correlation now ≡ ok db'
    → In r db.jobs
    → In r db'.jobs
unfolding insert_job
insert-In db db' id segment version correlation now r h m =
    elim (Bool-cases (any (λ q. text_eq (JobRow.segment_id q) segment) db.jobs)) [
      | inl a ↦ subst (λ d. In r (Tables.jobs d)) (ok-injective (rw (a, insert_job) at h)) m
      | inr a ↦ elim (Bool-cases (any (has_id id) db.jobs)) [
        | inl b ↦ let h' = rw (a, b, insert_job) at h in cc
        | inr b ↦
            let (j, s) =
              record_event-jobs _ db' segment_closed correlation (some segment)
                (some (text "queued")) now (rw (a, b, insert_job) at h) in
            subst (In r) (sym j) (snoc-In db.jobs (fresh_job id segment version now) r m)
      ]
    ]

-- A call leaves the rows alone that it has to pass over.
run_call-In :
    (c : Call) (db : Tables) (r : JobRow)
    → IsSound db
    → In r db.jobs
    → Kept r c
    → In r (run_call db c).jobs
unfolding run_call is_failable text_eq
run_call-In (enqueues id segment version correlation now) db r k m p =
    elim (Result-cases (enqueue_extraction db id segment version correlation now)) [
      | inl ((db', job), e) ↦
          rw (e, run_call)
            (insert-In db db' id segment version correlation now r
              (enqueue-jobs db db' id segment version correlation now job e) m)
      | inr (x, e) ↦ rw (e, run_call) m
    ]
run_call-In (claims worker now millis) db r k m p = claim-In db worker now millis r k m p
run_call-In (completes job worker completion now) db r k m p =
    elim (Result-cases (complete_extraction db job worker completion now)) [
      | inl (db', e) ↦
          rw (e, run_call)
            (let (j, s, l) = complete-jobs db db' job worker completion now e in
              subst (In r) (sym j) (passed_over (is_completable job worker) _ db.jobs r m p))
      | inr (x, e) ↦ rw (e, run_call) m
    ]
run_call-In (fails job worker failure now) db r k m p =
    elim (Result-cases (fail_extraction db job worker failure now)) [
      | inl ((db', state), e) ↦
          rw (e, run_call)
            (let (row, j, s, n, l) = fail-jobs db db' job worker failure now state e in
              subst (In r) (sym j) (passed_over (is_failable job worker) _ db.jobs r m p))
      | inr (x, e) ↦ rw (e, run_call) m
    ]
run_call-In (pauses paused) db r k m p = m

pub run_calls-In :
    (cs : List Call) (db : Tables) (r : JobRow)
    → IsSound db
    → In r db.jobs
    → All (Kept r) cs
    → In r (run_calls db cs).jobs
unfolding run_calls
run_calls-In [] db r k m p = m
run_calls-In (c ∷ cs) db r k m (p, q) =
    run_calls-In cs (run_call db c) r (run_call-IsSound c db k) (run_call-In c db r k m p) q
