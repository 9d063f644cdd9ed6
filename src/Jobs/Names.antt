-- ===== src/Jobs/Names.antt =====
-- The names under which crates/mega-store/src stores job states and event types, and their reading.
-- The arms of a `match` on a string are a list that is searched in order.
use stalky.Jobs.Finish.{state_name}
use stalky.Prelude.Text.{Text, text_eq, text, text_eq_iff}
use stalky.Prelude.{
  List, All, Result, ◌≡◌, err, ok, [], ◌↔◌, ◌∷◌, Bool-cases, if◌then◌else◌, inl, refl, ◌∙◌, ap,
  ok-injective, inr,
}
use stalky.Jobs.{
  MemoryEventType, JobState, StoreError, pending, segment_closed, extraction_started, invalid_enum,
  running, sql, completed, extraction_completed, extraction_failed, needs_attention,
  candidate_rejected, reconciliation_applied, reconciliation_failed, profile_regenerated,
  profile_failed, context_assembled, memory_confirmed, memory_rejected, memory_edited,
  memory_forgotten, memory_deleted, entity_merged,
}

-- `MemoryEventType::as_str`
unfoldable pub event_name : MemoryEventType → Text
event_name segment_closed = text "segment_closed"
event_name extraction_started = text "extraction_started"
event_name extraction_completed = text "extraction_completed"
event_name extraction_failed = text "extraction_failed"
event_name candidate_rejected = text "candidate_rejected"
event_name reconciliation_applied = text "reconciliation_applied"
event_name reconciliation_failed = text "reconciliation_failed"
event_name profile_regenerated = text "profile_regenerated"
event_name profile_failed = text "profile_failed"
event_name context_assembled = text "context_assembled"
event_name memory_confirmed = text "memory_confirmed"
event_name memory_rejected = text "memory_rejected"
event_name memory_edited = text "memory_edited"
event_name memory_forgotten = text "memory_forgotten"
event_name memory_deleted = text "memory_deleted"
event_name entity_merged = text "entity_merged"

abbrev pub match_name : {A : Type 0} {E : Type 0} → List (Text × A) → E → Text → Result A E
match_name [] e value = err e
match_name ((name, a) ∷ arms) e value = if text_eq value name then ok a else match_name arms e value

abbrev event_arms : List (Text × MemoryEventType)
event_arms =
    (text "segment_closed", segment_closed)
    ∷ (text "extraction_started", extraction_started)
    ∷ (text "extraction_completed", extraction_completed)
    ∷ (text "extraction_failed", extraction_failed)
    ∷ (text "candidate_rejected", candidate_rejected)
    ∷ (text "reconciliation_applied", reconciliation_applied)
    ∷ (text "reconciliation_failed", reconciliation_failed)
    ∷ (text "profile_regenerated", profile_regenerated)
    ∷ (text "profile_failed", profile_failed)
    ∷ (text "context_assembled", context_assembled)
    ∷ (text "memory_confirmed", memory_confirmed)
    ∷ (text "memory_rejected", memory_rejected)
    ∷ (text "memory_edited", memory_edited)
    ∷ (text "memory_forgotten", memory_forgotten)
    ∷ (text "memory_deleted", memory_deleted)
    ∷ (text "entity_merged", entity_merged)
    ∷ []

unfoldable pub parse_event_type : Text → Result MemoryEventType StoreError
parse_event_type value = match_name event_arms (invalid_enum (text "memory_event_type") value) value

abbrev state_arms : List (Text × JobState)
state_arms =
    (text "pending", pending)
    ∷ (text "running", running)
    ∷ (text "completed", completed)
    ∷ (text "needs_attention", needs_attention)
    ∷ []

unfoldable pub parse_job_state_sql : Text → Result JobState StoreError
parse_job_state_sql value = match_name state_arms sql value

match_name-read :
    {A E : Type 0} (name : A → Text) (arms : List (Text × A)) (e : E) (v : Text) (a : A)
    → All (λ arm. arm.0 ≡ name arm.1) arms
    → match_name arms e v ≡ ok a
    → v ≡ name a
match_name-read name [] e v a k h = cc
match_name-read name ((n, b) ∷ arms) e v a (p, k) h = elim (Bool-cases (text_eq v n)) [
  | inl t ↦ (text_eq_iff v n).0 t ∙ p ∙ ap name (ok-injective (rw t at h))
  | inr t ↦ match_name-read name arms e v a k (rw t at h)
]

event_name-read : (t : MemoryEventType) → parse_event_type (event_name t) ≡ ok t
unfolding parse_event_type event_name text_eq
event_name-read segment_closed = refl
event_name-read extraction_started = refl
event_name-read extraction_completed = refl
event_name-read extraction_failed = refl
event_name-read candidate_rejected = refl
event_name-read reconciliation_applied = refl
event_name-read reconciliation_failed = refl
event_name-read profile_regenerated = refl
event_name-read profile_failed = refl
event_name-read context_assembled = refl
event_name-read memory_confirmed = refl
event_name-read memory_rejected = refl
event_name-read memory_edited = refl
event_name-read memory_forgotten = refl
event_name-read memory_deleted = refl
event_name-read entity_merged = refl

state_name-read : (s : JobState) → parse_job_state_sql (state_name s) ≡ ok s
unfolding parse_job_state_sql text_eq
state_name-read pending = refl
state_name-read running = refl
state_name-read completed = refl
state_name-read needs_attention = refl

-- Event types and job states are read back from the names that they are stored under, and from no
-- other text.
pub names_read_back :
    (v : Text) (t : MemoryEventType) (s : JobState)
    → ((parse_event_type v ≡ ok t) ↔ (v ≡ event_name t))
      × ((parse_job_state_sql v ≡ ok s) ↔ (v ≡ state_name s))
unfolding parse_event_type parse_job_state_sql event_name
names_read_back v t s = (
  (
    match_name-read event_name event_arms _ v t (
      refl,
      (
        refl,
        (
          refl,
          (
            refl,
            (
              refl,
              (
                refl,
                (refl, (refl, (refl, (refl, (refl, (refl, (refl, (refl, (refl, (refl, tt)))))))))),
              ),
            ),
          ),
        ),
      ),
    ),
    λ e. rw e (event_name-read t),
  ),
  (
    match_name-read state_name state_arms sql v s (refl, (refl, (refl, (refl, tt)))),
    λ e. rw e (state_name-read s),
  ),
)
