-- ===== src/Segmentation/Runs.antt =====
-- Runs of the segmenter of crates/mega-memory/src/segmentation.rs over any events, and the rule by
-- which a property of open segments holds of every segment of a run.
use stalky.Prelude.Int.{ltb_ℤ}
use stalky.Prelude.{
  List, Option, Result, none, ◌≡◌, [], err, ok, some, ◌∷◌, ◌++◌, ◌⊎◌, false, All, Option-cases,
  arith, inl, All-append, inr, refl,
}
use stalky.Segmentation.{
  SegmentInput, OpenSegment, ActivitySegmentDraft, ActivitySegmenter, SegmentBoundary,
  SegmentTransition, SegmentationError, new_segment, validate_input, check_input, is_late,
  boundary_for, accept, proceed, draft_of, add_event, admit, close,
}

abbrev pub no_segment : ActivitySegmenter
no_segment = record { segment = none }

abbrev pub closed_list : Option ActivitySegmentDraft → List ActivitySegmentDraft
closed_list none = []
closed_list (some d) = d ∷ []

abbrev pub closed_by : Result SegmentTransition SegmentationError → List ActivitySegmentDraft
closed_by (err e) = []
closed_by (ok t) = closed_list t.closed

-- The segments closed while the events are admitted one by one.
unfoldable pub admit_all :
    ActivitySegmenter → List SegmentInput → ActivitySegmenter × List ActivitySegmentDraft
admit_all s [] = (s, [])
admit_all s (i ∷ is) =
    let (s', r) = admit s i in let (s'', drafts) = admit_all s' is in (s'', closed_by r ++ drafts)

-- A refused event changes nothing.
pub admit_error :
    (s : ActivitySegmenter) (input : SegmentInput) {e : SegmentationError}
    → check_input s input ≡ err e
    → admit s input ≡ (s, err e)
unfolding admit
admit_error s input h = rw (h, admit)

pub admit_ok :
    (s : ActivitySegmenter) (input : SegmentInput)
    → check_input s input ≡ ok tt
    → admit s input ≡ ((proceed s input).0, ok (proceed s input).1)
unfolding admit
admit_ok s input h = rw (h, admit)

abbrev pub Holds : (OpenSegment → Type 0) → Option OpenSegment → Type 0
Holds P none = Unit {0}
Holds P (some segment) = P segment

-- A draft of a segment with the property.
abbrev pub Drafts : (OpenSegment → Type 0) → ActivitySegmentDraft → Type 0
Drafts P d =
    (segment : OpenSegment) × (reason : SegmentBoundary) × P segment × (d ≡ draft_of segment reason)

pub check_input-cases :
    (s : ActivitySegmenter) (input : SegmentInput)
    → ((e : SegmentationError) × (check_input s input ≡ err e))
      ⊎ ((check_input s input ≡ ok tt)
          × (validate_input input ≡ ok tt)
          × (is_late s.segment input ≡ false))
unfolding check_input validate_input
check_input-cases s input = ground arith

module _ (P : OpenSegment → Type 0) (Q : SegmentInput → Type 0)
    (fresh : (input : SegmentInput)
      → Q input
      → validate_input input ≡ ok tt
      → P (add_event (new_segment input) input).0)
    (grow : (segment : OpenSegment) (input : SegmentInput)
      → Q input
      → validate_input input ≡ ok tt
      → ltb_ℤ input.started_at_ms segment.ended_at_ms ≡ false
      → boundary_for segment input ≡ none
      → P segment
      → P (add_event segment input).0) where
  abbrev Good : ActivitySegmenter × List ActivitySegmentDraft → Type 0
  Good (s, drafts) = Holds P s.segment × All (Drafts P) drafts

  proceed_rule :
      (before : Option OpenSegment) (input : SegmentInput)
      → Q input
      → validate_input input ≡ ok tt
      → is_late before input ≡ false
      → Holds P before
      → let (s', t) = proceed (record { segment = before }) input in Good (s', closed_list t.closed)
  unfolding proceed
  proceed_rule none input q v l h = (fresh input q v, tt)
  proceed_rule (some segment) input q v l h = elim (Option-cases (boundary_for segment input)) [
    | inl e ↦ rw (e, accept) (unfold is_late in grow segment input q v l e h, tt)
    | inr (reason, e) ↦ rw (e, accept) (fresh input q v, ((segment, reason, h, refl), tt))
  ]

  admit_rule :
      (s : ActivitySegmenter) (input : SegmentInput)
      → Q input
      → Holds P s.segment
      → let (s', r) = admit s input in Good (s', closed_by r)
  admit_rule s input q h = elim (check_input-cases s input) [
    | inl (e, c) ↦ rw (admit_error s input c) (h, tt)
    | inr (c, v, l) ↦ rw (admit_ok s input c) (proceed_rule s.segment input q v l h)
  ]

  pub admit_all_rule :
      (s : ActivitySegmenter) (inputs : List SegmentInput)
      → All Q inputs
      → Holds P s.segment
      → Good (admit_all s inputs)
  unfolding admit_all
  admit_all_rule s [] q h = (h, tt)
  admit_all_rule s (i ∷ is) q h =
      let here = admit_rule s i q.0 h in
      let later = admit_all_rule (admit s i).0 is q.1 here.0 in
      (
        later.0,
        All-append (Drafts P) (closed_by (admit s i).1) (admit_all (admit s i).0 is).1 here.1
            later.1,
      )

-- All segments of a session: those that boundaries closed, and the last, closed at its end.
unfoldable pub segment_all : List SegmentInput → SegmentBoundary → List ActivitySegmentDraft
unfolding admit_all
segment_all inputs reason =
    let (s, drafts) = admit_all no_segment inputs in drafts ++ closed_list (close s reason).1

-- The closing of the last segment keeps the rule.
pub segment_all_rule :
    (P : OpenSegment → Type 0) (inputs : List SegmentInput) (reason : SegmentBoundary)
    → Holds P (admit_all no_segment inputs).0.segment
      × All (Drafts P) (admit_all no_segment inputs).1
    → All (Drafts P) (segment_all inputs reason)
unfolding segment_all
segment_all_rule P inputs reason h =
    All-append (Drafts P) (admit_all no_segment inputs).1 _ h.1
      (closing (admit_all no_segment inputs).0.segment h.0)
  where
    closing :
        (s : Option OpenSegment)
        → Holds P s
        → All (Drafts P) (closed_list (close (record { segment = s }) reason).1)
    closing none h = unfold close in tt
    closing (some segment) h = unfold close in ((segment, reason, h, refl), tt)
