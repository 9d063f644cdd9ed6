-- ===== src/Jobs/Leases.antt =====
-- Which calls of crates/mega-store/src/queue_repo.rs leave a row alone: those of others while it is
-- leased, and all of them once it is completed.
use stalky.Jobs.Kept.{Kept, run_calls-In}
use stalky.Prelude.Int.{ℤ, ◌<ℤ◌}
use stalky.Jobs.Attempts.{is_some, IsRowSound, IsSound, Fits}
use stalky.Prelude.Text.{Text, text_eq}
use stalky.Prelude.{
  List, Option, ◌≡◌, false, In, some, subst, All, arith, none, All-map, refl, All-Unit,
}
use stalky.Jobs.Finish.{is_completable, is_failable}
use stalky.Jobs.{JobRow, Tables, completed, is_running, is_pending, owned_by, running}
use stalky.Jobs.Runs.{run_calls, Call, enqueues, claims, completes, fails, pauses}

-- Calls that a lease of the worker up to the time keeps off: claims by anyone before that time, and
-- completions and failures reported by other workers, at any time.
abbrev pub IsOther : Text → ℤ → Call → Type 0
IsOther worker expiry (enqueues id segment version correlation now) = Unit
IsOther worker expiry (claims other now millis) = now <ℤ expiry
IsOther worker expiry (completes job other completion now) = text_eq worker other ≡ false
IsOther worker expiry (fails job other failure now) = text_eq worker other ≡ false
IsOther worker expiry (pauses paused) = Unit

leased-Kept :
    (worker : Text) (expiry : ℤ) (r : JobRow) (c : Call)
    → r.state ≡ running
    → r.lease_owner ≡ some worker
    → r.lease_expires_at ≡ some expiry
    → IsOther worker expiry c
    → Kept r c
unfolding is_completable is_failable is_running is_pending
leased-Kept worker expiry r (enqueues id segment version correlation now) s o e i = tt
leased-Kept worker expiry r (claims other now millis) s o e i = rw (s, e) (ground arith, refl)
leased-Kept worker expiry r (completes job other completion now) s o e i = rw (s, o) (ground arith)
leased-Kept worker expiry r (fails job other failure now) s o e i = rw o (ground arith)
leased-Kept worker expiry r (pauses paused) s o e i = tt

-- While a worker's lease of a job lasts, nobody else touches the job: its row stays as it is over any
-- new jobs, pauses, claims before the lease's expiry and reports of other workers.
pub lease_excludes_others :
    (cs : List Call) (db : Tables) (r : JobRow) (worker : Text) (expiry : ℤ)
    → IsSound db
    → In r db.jobs
    → r.state ≡ running
    → r.lease_owner ≡ some worker
    → r.lease_expires_at ≡ some expiry
    → All (IsOther worker expiry) cs
    → In r (run_calls db cs).jobs
lease_excludes_others cs db r worker expiry k m s o e q =
    run_calls-In cs db r k m
      (All-map (IsOther worker expiry) (Kept r) (λ c i. leased-Kept worker expiry r c s o e i) cs q)

not_owned :
    (owner : Option Text) (worker : Text) → is_some owner ≡ false → owned_by owner worker ≡ false
not_owned none worker h = refl
not_owned (some o) worker h = cc

completed_owner : (r : JobRow) → r.state ≡ completed → IsRowSound r → is_some r.lease_owner ≡ false
completed_owner r s (f, a) =
    (subst (λ t. Fits t (is_some r.lease_owner) (is_some r.lease_expires_at) r.attempts) s f).0

finished-Kept :
    (r : JobRow) (c : Call) → r.state ≡ completed → is_some r.lease_owner ≡ false → Kept r c
unfolding is_completable is_failable is_running is_pending
finished-Kept r (enqueues id segment version correlation now) s o = tt
finished-Kept r (claims worker now millis) s o = rw s (refl, refl)
finished-Kept r (completes job worker completion now) s o =
    rw (not_owned r.lease_owner worker o) (ground arith)
finished-Kept r (fails job worker failure now) s o =
    rw (not_owned r.lease_owner worker o) (ground arith)
finished-Kept r (pauses paused) s o = tt

-- No call of the queue touches a completed job: its row, with its result, stays as it is over any of
-- them. What deletes segments in other repositories, and jobs with them, is no such call.
pub completed_is_final :
    (cs : List Call) (db : Tables) (r : JobRow)
    → IsSound db
    → In r db.jobs
    → r.state ≡ completed
    → In r (run_calls db cs).jobs
completed_is_final cs db r k m s = run_calls-In cs db r k m (
    All-map (λ c. Unit {0}) (Kept r)
      (λ c i. finished-Kept r c s (completed_owner r s (k.rows_sound r m))) cs (All-Unit cs))
