-- ===== src/Jobs/Soundness.antt =====
-- Any calls of crates/mega-store/src/queue_repo.rs keep its tables sound.
use stalky.Jobs.Committed.{complete-jobs, fail-jobs, enqueue-jobs}
use stalky.Jobs.Runs.{run_call, run_calls, Call, enqueues, claims, completes, fails, pauses}
use stalky.Jobs.Finish.{
  complete_extraction, fail_extraction, after_failure, is_completable, is_failable,
}
use stalky.Jobs.Enqueue.{insert_job, fresh_job, enqueue_extraction}
use stalky.Jobs.Rows.{has_id, IsKeyed}
use stalky.Jobs.Starts.{next_job-In, record_event-jobs, lease-IsSound}
use stalky.Prelude.{
  Option, refl, ◌≡◌, ok, Option-cases, inl, ok-injective, subst, ap, inr, Result-cases, some,
  Bool-cases, any, arith, ◌∙◌, bind-ok, ℕ, false, Bool, List, [], if◌then◌else◌, In, true, ◌∷◌,
}
use stalky.Prelude.Text.{Text, text, text_eq}
use stalky.Jobs.Attempts.{IsSound, update-IsSound, insert-IsSound, Fits, count_starts, IsRowSound}
use stalky.Prelude.Int.{ℤ, checked_add}
use stalky.Jobs.{
  Tables, ExtractionJob, record_event_tx, update_where, extraction_started, ExtractionJobCompletion,
  JobRow, segment_closed, ExtractionJobFailure, JobState, SegmentRow,
}
use stalky.Jobs.Claim.{
  claim_next, exhaust, expire, next_job, lease, claim_extraction, validate_worker_and_lease,
}

pub exhaust-IsSound :
    (now : ℤ) (db : Tables) → IsSound db → IsSound (record db { jobs = exhaust now db.jobs })
unfolding exhaust
exhaust-IsSound now db k =
    update-IsSound _ _ db _ (λ r. refl) (λ r. refl) (λ r m t s. ((refl, refl), s.1)) refl
      (λ id. refl) k

pub expire-IsSound :
    (now : ℤ) (db : Tables) → IsSound db → IsSound (record db { jobs = expire now db.jobs })
unfolding expire
expire-IsSound now db k =
    update-IsSound _ _ db _ (λ r. refl) (λ r. refl) (λ r m t s. ((refl, refl), s.1)) refl
      (λ id. refl) k

claim_next-IsSound :
    (db db' : Tables) (worker : Text) (expires now : ℤ) (job : Option ExtractionJob)
    → claim_next db worker expires now ≡ ok (db', job)
    → IsSound db
    → IsSound db'
unfolding claim_next
claim_next-IsSound db db' worker expires now job h k = elim (Option-cases (next_job now db.jobs)) [
  | inl n ↦ let e = ok-injective (rw (n, claim_next) at h) in subst IsSound (ap (λ p. p.0) e) k
  | inr (r, n) ↦
      let (m, c) = next_job-In now db.jobs r n in
      elim (Result-cases (
        record_event_tx
          (record db { jobs = update_where (has_id r.id) (lease worker expires now) db.jobs })
          extraction_started r.id (some r.segment_id) (some (text "running")) now)) [
            | inl (d, e) ↦
                let (j, s) =
                  record_event-jobs _ d extraction_started r.id (some r.segment_id)
                    (some (text "running")) now e in
                let w = ok-injective (rw (n, e, claim_next) at h) in
                subst IsSound (ap (λ p. p.0) w) (lease-IsSound db d worker expires now r m c j s k)
            | inr (x, e) ↦ let h' = rw (n, e, claim_next) at h in cc
          ]
]

pub if_false : {A : Type 0} (t : Bool) (x y b : A) → t ≡ false → (if t then x else y) ≡ b → y ≡ b
if_false true x y b e h = cc
if_false false x y b e h = h

claim-IsSound :
    (db db' : Tables) (worker : Text) (now millis : ℤ) (job : Option ExtractionJob)
    → claim_extraction db worker now millis ≡ ok (db', job)
    → IsSound db
    → IsSound db'
unfolding claim_extraction
claim-IsSound db db' worker now millis job h k =
    let (u, v, h) = bind-ok (validate_worker_and_lease worker millis) _ _ h in
    elim (Bool-cases db.extraction_paused) [
      | inl p ↦ subst IsSound (ap (λ p. p.0) (ok-injective (simp p at h))) k
      | inr p ↦
          let h = if_false db.extraction_paused _ _ _ p h in
          elim (Option-cases (checked_add now millis)) [
            | inl o ↦ let h' = rw o at h in cc
            | inr (expires, o) ↦
                claim_next-IsSound (record db { jobs = expire now (exhaust now db.jobs) }) db'
                  worker expires now job (rw o at h)
                  (expire-IsSound now _ (exhaust-IsSound now db k))
          ]
    ]

insert-cases :
    (db db' : Tables) (id segment version correlation : Text) (now : ℤ)
    → insert_job db id segment version correlation now ≡ ok db'
    → IsSound db
    → IsSound db'
unfolding insert_job
insert-cases db db' id segment version correlation now h k =
    elim (Bool-cases (any (λ r. text_eq (JobRow.segment_id r) segment) db.jobs)) [
      | inl a ↦ subst IsSound (ok-injective (rw (a, insert_job) at h)) k
      | inr a ↦ elim (Bool-cases (any (has_id id) db.jobs)) [
        | inl b ↦ let h' = rw (a, b, insert_job) at h in cc
        | inr b ↦
            let (j, s) =
              record_event-jobs _ db' segment_closed correlation (some segment)
                (some (text "queued")) now (rw (a, b, insert_job) at h) in
            insert-IsSound (fresh_job id segment version now) db db' b refl
              ((refl, refl), omega arith) j (λ i. s i ∙ omega arith) k
      ]
    ]

enqueue-IsSound :
    (db db' : Tables) (id segment version correlation : Text) (now : ℤ) (job : ExtractionJob)
    → enqueue_extraction db id segment version correlation now ≡ ok (db', job)
    → IsSound db
    → IsSound db'
enqueue-IsSound db db' id segment version correlation now job h k =
    insert-cases db db' id segment version correlation now
      (enqueue-jobs db db' id segment version correlation now job h) k

complete-IsSound :
    (db db' : Tables) (job worker : Text) (completion : ExtractionJobCompletion) (now : ℤ)
    → complete_extraction db job worker completion now ≡ ok db'
    → IsSound db
    → IsSound db'
complete-IsSound db db' job worker completion now h k =
    let (j, s, l) = complete-jobs db db' job worker completion now h in
    update-IsSound (is_completable job worker) _ db db' (λ r. refl) (λ r. refl)
      (λ r m t q. ((refl, refl), q.1)) j s k

after_failure-Fits : (attempts others : ℕ) → Fits (after_failure attempts) false false others
after_failure-Fits attempts others = ground arith

fail-IsSound :
    (db db' : Tables) (job worker : Text) (failure : ExtractionJobFailure) (now : ℤ)
    (state : JobState)
    → fail_extraction db job worker failure now ≡ ok (db', state)
    → IsSound db
    → IsSound db'
fail-IsSound db db' job worker failure now state h k =
    let (row, j, s, m, l) = fail-jobs db db' job worker failure now state h in
    update-IsSound (is_failable job worker) _ db db' (λ r. refl) (λ r. refl)
      (λ r m t q. (after_failure-Fits row.attempts r.attempts, q.1)) j s k

pub run_call-IsSound : (c : Call) (db : Tables) → IsSound db → IsSound (run_call db c)
unfolding run_call
run_call-IsSound (enqueues id segment version correlation now) db k =
    elim (Result-cases (enqueue_extraction db id segment version correlation now)) [
      | inl ((db', job), e) ↦
          rw (e, run_call) (enqueue-IsSound db db' id segment version correlation now job e k)
      | inr (x, e) ↦ rw (e, run_call) k
    ]
run_call-IsSound (claims worker now millis) db k =
    elim (Result-cases (claim_extraction db worker now millis)) [
      | inl ((db', job), e) ↦ rw (e, run_call) (claim-IsSound db db' worker now millis job e k)
      | inr (x, e) ↦ rw (e, run_call) k
    ]
run_call-IsSound (completes job worker completion now) db k =
    elim (Result-cases (complete_extraction db job worker completion now)) [
      | inl (db', e) ↦ rw (e, run_call) (complete-IsSound db db' job worker completion now e k)
      | inr (x, e) ↦ rw (e, run_call) k
    ]
run_call-IsSound (fails job worker failure now) db k =
    elim (Result-cases (fail_extraction db job worker failure now)) [
      | inl ((db', state), e) ↦
          rw (e, run_call) (fail-IsSound db db' job worker failure now state e k)
      | inr (x, e) ↦ rw (e, run_call) k
    ]
run_call-IsSound (pauses paused) db k = record {
  keyed = k.keyed;
  rows_sound = k.rows_sound;
  counted = k.counted;
  no_stray = k.no_stray;
}

pub run_calls-IsSound : (cs : List Call) (db : Tables) → IsSound db → IsSound (run_calls db cs)
unfolding run_calls
run_calls-IsSound [] db k = k
run_calls-IsSound (c ∷ cs) db k = run_calls-IsSound cs (run_call db c) (run_call-IsSound c db k)

-- The tables with no job and no event.
abbrev pub new_tables : List SegmentRow → Tables
new_tables segments = record {
  jobs = [];
  segments = segments;
  events = [];
  extraction_paused = false;
}

-- After any calls, by any workers and at any times, from tables without jobs: of each job, the events
-- record as many starts as it has attempts, at most three; it has an owner and an expiry of its lease
-- exactly while it runs; and no two jobs have the same id.
pub starts_are_bounded :
    (segments : List SegmentRow) (cs : List Call) (r : JobRow)
    → In r (run_calls (new_tables segments) cs).jobs
    → (count_starts r.id (run_calls (new_tables segments) cs).events ≡ r.attempts)
      × IsRowSound r
      × IsKeyed (run_calls (new_tables segments) cs).jobs
starts_are_bounded segments cs r m =
    let k = run_calls-IsSound cs (new_tables segments) (record {
      keyed = tt;
      rows_sound = λ r m. elim m [ ];
      counted = λ r m. elim m [ ];
      no_stray = λ id h. refl;
    }) in
    (k.counted r m, k.rows_sound r m, k.keyed)
