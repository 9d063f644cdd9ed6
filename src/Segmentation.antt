-- ===== src/Segmentation.antt =====
-- crates/mega-memory/src/segmentation.rs: source events are gathered into activity segments, and a
-- closed segment's texts are split into batches for the extractor. Ids and texts are lists of code
-- points, times are `i64` milliseconds, and the set of seen texts is a list.
pub mod Batches
pub mod Runs
pub mod Texts
pub mod Times
pub mod Events
mod Tests
use mathlib.Core.Option
use stalky.Prelude.Words.{saturating_add}
use stalky.Prelude.Text.{Text, collapse_whitespace, is_empty, text_eq, text_mem}
use stalky.Prelude.Int.{leb_ℤ, ltb_ℤ, max_ℤ, pos, ℤ, saturating_sub}
use stalky.Prelude.{
  ℕ, ◌+◌, ◌*◌, ◌≡◌, Bool, true, false, not, Option, none, some, List, [], ◌∷◌, ◌++◌, Result, ok,
  err, ◌>>=◌, ◌>>◌, reject_if, if◌then◌else◌, ltb, length, ◌&&◌,
}

abbrev pub inactivity_millis : ℕ
inactivity_millis = 90000

abbrev pub max_segment_millis : ℕ
max_segment_millis = 900000

abbrev pub max_extraction_batch_chars : ℕ
max_extraction_batch_chars = 12000

pub data SegmentBoundary : Type 0 where
  app_changed project_changed inactivity session_ended : SegmentBoundary
  maximum_duration capture_paused shutdown sleep : SegmentBoundary

pub record SegmentInput : Type 0 where
  pub source_event_id : Text
  pub app_id : Option Text
  pub scope_id : Option Text
  pub started_at_ms : ℤ
  pub ended_at_ms : ℤ
  pub privacy_filtered_text : Text

pub record ActivitySegmentDraft : Type 0 where
  pub app_id : Option Text
  pub scope_id : Option Text
  pub started_at_ms : ℤ
  pub ended_at_ms : ℤ
  pub close_reason : SegmentBoundary
  pub source_event_ids : List Text
  pub extraction_texts : List Text

pub record SegmentTransition : Type 0 where
  pub closed : Option ActivitySegmentDraft
  pub admitted : Bool

pub data SegmentationError : Type 0 where
  reversed_interval out_of_order oversized_source : SegmentationError

pub record OpenSegment : Type 0 where
  pub app_id : Option Text
  pub scope_id : Option Text
  pub started_at_ms : ℤ
  pub ended_at_ms : ℤ
  pub source_event_ids : List Text
  pub extraction_texts : List Text
  pub seen_text : List Text

pub record ActivitySegmenter : Type 0 where
  pub segment : Option OpenSegment

-- `Option::eq` on ids.
abbrev pub id_eq : Option Text → Option Text → Bool
id_eq none none = true
id_eq none (some b) = false
id_eq (some a) none = false
id_eq (some a) (some b) = text_eq a b

-- `OpenSegment::new`
pub new_segment : SegmentInput → OpenSegment
new_segment input = record {
  app_id = input.app_id;
  scope_id = input.scope_id;
  started_at_ms = input.started_at_ms;
  ended_at_ms = input.ended_at_ms;
  source_event_ids = [];
  extraction_texts = [];
  seen_text = [];
}

pub validate_input : SegmentInput → Result (Unit {0}) SegmentationError
validate_input input = do
  reject_if (ltb_ℤ input.ended_at_ms input.started_at_ms) reversed_interval
  reject_if (ltb max_extraction_batch_chars (length input.privacy_filtered_text)) oversized_source
  ok tt

pub boundary_for : OpenSegment → SegmentInput → Option SegmentBoundary
boundary_for segment input =
    if not (id_eq input.app_id segment.app_id)
    then some app_changed
    else if not (id_eq input.scope_id segment.scope_id)
    then some project_changed
    else if leb_ℤ (pos inactivity_millis) (saturating_sub input.started_at_ms segment.ended_at_ms)
    then some inactivity
    else if leb_ℤ (pos max_segment_millis) (saturating_sub input.ended_at_ms segment.started_at_ms)
    then some maximum_duration
    else none

-- `normalize_observed_text`
unfoldable pub normalize_observed_text : Text → Text
unfolding collapse_whitespace
normalize_observed_text t = collapse_whitespace t

-- What `take_open` makes of the segment that it takes.
pub draft_of : OpenSegment → SegmentBoundary → ActivitySegmentDraft
draft_of segment reason = record {
  app_id = segment.app_id;
  scope_id = segment.scope_id;
  started_at_ms = segment.started_at_ms;
  ended_at_ms = segment.ended_at_ms;
  close_reason = reason;
  source_event_ids = segment.source_event_ids;
  extraction_texts = segment.extraction_texts;
}

-- `take_open` and `close`
pub close : ActivitySegmenter → SegmentBoundary → ActivitySegmenter × Option ActivitySegmentDraft
unfolding draft_of
close s reason =
    (record { segment = none }, Option.map (λ segment. draft_of segment reason) s.segment)

pub is_late : Option OpenSegment → SegmentInput → Bool
is_late none input = false
is_late (some segment) input = ltb_ℤ input.started_at_ms segment.ended_at_ms

boundary_of : Option OpenSegment → SegmentInput → Option SegmentBoundary
unfolding boundary_for
boundary_of none input = none
boundary_of (some segment) input = boundary_for segment input

-- The tail of `admit`, with the segment that is open by then.
pub add_event : OpenSegment → SegmentInput → OpenSegment × Bool
add_event segment input =
    let normalized = normalize_observed_text input.privacy_filtered_text in
    let ended = max_ℤ segment.ended_at_ms input.ended_at_ms in
    if text_mem normalized segment.seen_text
    then (record segment { ended_at_ms = ended }, false)
    else (
      record segment {
        ended_at_ms = ended;
        source_event_ids = segment.source_event_ids ++ input.source_event_id ∷ [];
        extraction_texts = segment.extraction_texts ++ normalized ∷ [];
        seen_text = normalized ∷ segment.seen_text;
      },
      true,
    )

-- The open segment that `add_event` works on, after a boundary closed the one before it, or none did.
or_new : Option OpenSegment → SegmentInput → OpenSegment
unfolding new_segment
or_new none input = new_segment input
or_new (some segment) input = segment

accept : ActivitySegmenter → SegmentInput → ActivitySegmenter × Option ActivitySegmentDraft
unfolding close boundary_of
accept s input = elim (boundary_of s.segment input) [
  | none ↦ (s, none)
  | some reason ↦ close s reason
]

-- `admit` from the choice of the boundary on.
pub proceed : ActivitySegmenter → SegmentInput → ActivitySegmenter × SegmentTransition
unfolding accept add_event or_new
proceed s input =
    let (s', closed) = accept s input in
    let (segment, admitted) = add_event (or_new s'.segment input) input in
    (record { segment = some segment }, record { closed = closed; admitted = admitted })

-- The early returns of `admit`.
pub check_input : ActivitySegmenter → SegmentInput → Result (Unit {0}) SegmentationError
unfolding validate_input is_late
check_input s input = do
  validate_input input
  reject_if (is_late s.segment input) out_of_order
  ok tt

pub admit :
    ActivitySegmenter
    → SegmentInput
    → ActivitySegmenter × Result SegmentTransition SegmentationError
unfolding check_input proceed
admit s input = elim (check_input s input) [
  | err e ↦ (s, err e)
  | ok _ ↦ let (s', transition) = proceed s input in (s', ok transition)
]

-- One round of the loop of `split_extraction_batches`, over the batches, the current one and its
-- size.
pub split_from :
    List (List Text) → List Text → ℕ → List Text → Result (List (List Text)) SegmentationError
split_from batches current chars [] =
    ok (if is_empty current then batches else batches ++ current ∷ [])
split_from batches current chars (t ∷ ts) =
    let text_chars = length t in
    let flush =
      not (is_empty current) && ltb max_extraction_batch_chars (saturating_add chars text_chars) in
    let rest =
      split_from (if flush then batches ++ current ∷ [] else batches)
        (if flush then t ∷ [] else current ++ t ∷ [])
        (saturating_add (if flush then 0 else chars) text_chars) ts in
    if ltb max_extraction_batch_chars text_chars then err oversized_source else rest

pub split_extraction_batches : ActivitySegmentDraft → Result (List (List Text)) SegmentationError
unfolding split_from
split_extraction_batches segment = split_from [] [] 0 segment.extraction_texts
