-- ===== src/Jobs.antt =====
-- crates/mega-store/src/queue_repo.rs: the extraction jobs, their leases and retries; and, of
-- operations_repo.rs beside it, the events that they record. A table is the list of its rows, in the
-- order of insertion; a transaction that returns an error leaves the tables as they were. The ids
-- that the database adds to events are left out, and so are its own failures.
pub mod Enqueue
pub mod Claim
pub mod Finish
pub mod Runs
pub mod Rows
pub mod Names
pub mod Attempts
pub mod Starts
pub mod Committed
pub mod Soundness
pub mod Kept
pub mod Leases
mod Tests
use stalky.Prelude.Int.{ℤ, leb_ℤ, ltb_ℤ}
use stalky.Prelude.Text.{Text, is_blank, text_eq, text}
use stalky.Prelude.{
  Bool, List, Option, ℕ, false, none, true, ◌∷◌, Result, if◌then◌else◌, some, [], ◌||◌, ltb, length,
  err, ok, ◌++◌,
}

pub data MemoryEventType : Type 0 where
  segment_closed extraction_started extraction_completed extraction_failed : MemoryEventType
  candidate_rejected reconciliation_applied reconciliation_failed : MemoryEventType
  profile_regenerated profile_failed context_assembled memory_confirmed : MemoryEventType
  memory_rejected memory_edited memory_forgotten memory_deleted entity_merged : MemoryEventType

pub data JobState : Type 0 where
  pending running completed needs_attention : JobState

-- The errors of `StoreError` that these calls return.
pub data StoreError : Type 0 where
  invalid_input : Text → StoreError
  invariant : Text → StoreError
  invalid_enum : Text → Text → StoreError
  lease_lost : StoreError
  -- A refused SQL statement: a primary key that is taken.
  sql : StoreError

pub record ExtractionJobCompletion : Type 0 where
  pub provider : Text
  pub model : Text
  pub latency_ms : ℕ
  pub input_tokens : Option ℕ
  pub output_tokens : Option ℕ
  pub private_content_left_device : Bool

pub record ExtractionJobFailure : Type 0 where
  pub error_code : Text
  pub retry_at : ℤ

-- A row of `extraction_jobs`; `completion` is the columns that a completion fills.
pub record JobRow : Type 0 where
  pub id : Text
  pub segment_id : Text
  pub state : JobState
  pub attempts : ℕ
  pub next_attempt_at : ℤ
  pub lease_owner : Option Text
  pub lease_expires_at : Option ℤ
  pub extractor_prompt_version : Text
  pub completion : Option ExtractionJobCompletion
  pub last_error_code : Option Text
  pub created_at : ℤ
  pub updated_at : ℤ

-- What is read of a row.
pub record ExtractionJob : Type 0 where
  pub id : Text
  pub segment_id : Text
  pub state : JobState
  pub attempts : ℕ
  pub lease_owner : Option Text
  pub lease_expires_at : Option ℤ
  pub extractor_prompt_version : Text
  pub created_at : ℤ

-- A row of `activity_segments`, as far as these calls read or write it.
pub record SegmentRow : Type 0 where
  pub id : Text
  pub extraction_state : JobState
  pub extraction_attempts : ℕ

pub record MemoryEvent : Type 0 where
  pub event_type : MemoryEventType
  pub correlation_id : Text
  pub segment_id : Option Text
  pub outcome : Option Text
  pub occurred_at : ℤ

pub record Tables : Type 0 where
  pub jobs : List JobRow
  pub segments : List SegmentRow
  pub events : List MemoryEvent
  pub extraction_paused : Bool

abbrev pub max_extraction_attempts : ℕ
max_extraction_attempts = 3

abbrev pub max_lease_millis : ℕ
max_lease_millis = 900000

-- `UPDATE … SET f WHERE p`
abbrev pub update_where : {A : Type 0} → (A → Bool) → (A → A) → List A → List A
update_where p f [] = []
update_where p f (r ∷ rs) = (if p r then f r else r) ∷ update_where p f rs

-- `SELECT … WHERE p`, its first row.
abbrev pub find_row : {A : Type 0} → (A → Bool) → List A → Option A
find_row p [] = none
find_row p (r ∷ rs) = if p r then some r else find_row p rs

unfoldable pub is_pending : JobState → Bool
is_pending pending = true
is_pending _ = false

unfoldable pub is_running : JobState → Bool
is_running running = true
is_running _ = false

-- SQL's `column = value` and `column <= value`, false on NULL.
abbrev pub owned_by : Option Text → Text → Bool
owned_by none worker = false
owned_by (some owner) worker = text_eq owner worker

abbrev pub expires_by : Option ℤ → ℤ → Bool
expires_by none now = false
expires_by (some t) now = leb_ℤ t now

abbrev pub expires_after : Option ℤ → ℤ → Bool
expires_after none now = false
expires_after (some t) now = ltb_ℤ now t

unfoldable pub job_from_row : JobRow → ExtractionJob
job_from_row r = record {
  id = r.id;
  segment_id = r.segment_id;
  state = r.state;
  attempts = r.attempts;
  lease_owner = r.lease_owner;
  lease_expires_at = r.lease_expires_at;
  extractor_prompt_version = r.extractor_prompt_version;
  created_at = r.created_at;
}

-- `record_event_tx`
unfoldable pub record_event_tx :
    Tables → MemoryEventType → Text → Option Text → Option Text → ℤ → Result Tables StoreError
record_event_tx db event_type correlation_id segment_id outcome now =
    if is_blank correlation_id || ltb 128 (length correlation_id)
    then err (invalid_input (text "invalid correlation ID"))
    else ok (record db {
      events =
          db.events
          ++ record {
            event_type = event_type;
            correlation_id = correlation_id;
            segment_id = segment_id;
            outcome = outcome;
            occurred_at = now;
          }
            ∷ [];
    })
