-- ===== src/Jobs/Runs.antt =====
-- Any calls of crates/mega-store/src/queue_repo.rs, one after the other: the database serialises their
-- transactions. A call that fails leaves the tables as they were.
use stalky.Jobs.Finish.{complete_extraction, fail_extraction}
use stalky.Jobs.Claim.{claim_extraction}
use stalky.Prelude.Int.{ℤ}
use stalky.Prelude.{List, Result, ◌∷◌, ok, Bool, err, []}
use stalky.Jobs.Enqueue.{enqueue_extraction}
use stalky.Prelude.Text.{Text}
use stalky.Jobs.{Tables, ExtractionJobCompletion, StoreError, ExtractionJobFailure}

pub data Call : Type 0 where
  -- the new id, the segment, the prompt version, the correlation id and the time
  enqueues : Text → Text → Text → Text → ℤ → Call
  claims : Text → ℤ → ℤ → Call
  completes : Text → Text → ExtractionJobCompletion → ℤ → Call
  fails : Text → Text → ExtractionJobFailure → ℤ → Call
  pauses : Bool → Call

abbrev committed : {A : Type 0} → Tables → Result (Tables × A) StoreError → Tables
committed db (ok (db', a)) = db'
committed db (err e) = db

abbrev committed_alone : Tables → Result Tables StoreError → Tables
committed_alone db (ok db') = db'
committed_alone db (err e) = db

unfoldable pub run_call : Tables → Call → Tables
run_call db (enqueues id segment version correlation now) =
    committed db (enqueue_extraction db id segment version correlation now)
run_call db (claims worker now millis) = committed db (claim_extraction db worker now millis)
run_call db (completes job worker completion now) =
    committed_alone db (complete_extraction db job worker completion now)
run_call db (fails job worker failure now) =
    committed db (fail_extraction db job worker failure now)
-- `set_extraction_paused`
run_call db (pauses paused) = record db { extraction_paused = paused }

unfoldable pub run_calls : Tables → List Call → Tables
run_calls db [] = db
run_calls db (c ∷ cs) = run_calls (run_call db c) cs
