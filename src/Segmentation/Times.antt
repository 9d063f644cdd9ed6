-- ===== src/Segmentation/Times.antt =====
-- The intervals of the segments of crates/mega-memory/src/segmentation.rs.
use stalky.Segmentation.Runs.{Drafts, segment_all, segment_all_rule, admit_all_rule, no_segment}
use stalky.Prelude.Int.{pos_part, ℤ, ◌≤ℤ◌, ltb_ℤ, neg_part, le-saturating_sub}
use stalky.Prelude.{List, ◌≡◌, All, ok, subst, ◌+◌, arith, sym, All-map, false, ◌<◌, none}
use stalky.Segmentation.{
  SegmentInput, OpenSegment, ActivitySegmentDraft, SegmentBoundary, max_segment_millis, new_segment,
  validate_input, boundary_for, draft_of, add_event,
}

-- The event itself is shorter than the longest segment.
abbrev pub IsShort : SegmentInput → Type 0
IsShort i =
    pos_part i.ended_at_ms + neg_part i.started_at_ms
    < pos_part i.started_at_ms + neg_part i.ended_at_ms + max_segment_millis

-- From `started` to `ended`: not reversed, and shorter than the longest segment.
abbrev pub IsBounded : ℤ → ℤ → Type 0
IsBounded started ended =
    (started ≤ℤ ended)
    × (pos_part ended + neg_part started < pos_part started + neg_part ended + max_segment_millis)

InTime : OpenSegment → Type 0
InTime s = IsBounded s.started_at_ms s.ended_at_ms

fresh-InTime :
    (i : SegmentInput)
    → IsShort i
    → validate_input i ≡ ok tt
    → InTime (add_event (new_segment i) i).0
unfolding InTime validate_input add_event new_segment
fresh-InTime i short v = ground arith

grow-InTime :
    (s : OpenSegment) (i : SegmentInput)
    → IsShort i
    → validate_input i ≡ ok tt
    → ltb_ℤ i.started_at_ms s.ended_at_ms ≡ false
    → boundary_for s i ≡ none
    → InTime s
    → InTime (add_event s i).0
unfolding InTime boundary_for add_event
grow-InTime s i short v l b h =
    ground (arith, le-saturating_sub 899999 i.ended_at_ms s.started_at_ms)

Drafts-IsBounded :
    (d : ActivitySegmentDraft) → Drafts InTime d → IsBounded d.started_at_ms d.ended_at_ms
unfolding draft_of InTime
Drafts-IsBounded d (segment, reason, v, e) =
    subst (λ c. IsBounded c.started_at_ms c.ended_at_ms) (sym e) v

-- If every event is shorter than fifteen minutes then so is every segment that a session closes,
-- and none is reversed.
pub segment_all-IsBounded :
    (inputs : List SegmentInput) (reason : SegmentBoundary)
    → All IsShort inputs
    → All (λ d. IsBounded d.started_at_ms d.ended_at_ms) (segment_all inputs reason)
segment_all-IsBounded inputs reason short =
    All-map (Drafts InTime) (λ d. IsBounded d.started_at_ms d.ended_at_ms) Drafts-IsBounded
      (segment_all inputs reason)
      (segment_all_rule InTime inputs reason
        (admit_all_rule InTime IsShort fresh-InTime grow-InTime no_segment inputs short tt))
