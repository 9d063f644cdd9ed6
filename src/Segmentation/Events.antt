-- ===== src/Segmentation/Events.antt =====
-- Where the events given to the segmenter of crates/mega-memory/src/segmentation.rs end up.
use stalky.Segmentation.Runs.{
  admit_all, closed_by, closed_list, segment_all, no_segment, check_input-cases, admit_error,
  admit_ok,
}
use stalky.Prelude.Text.{Text, text_mem}
use stalky.Prelude.{
  List, Option, Result, ◌≡◌, ◌++◌, [], err, if◌then◌else◌, ◌∷◌, Bool-cases, ap, ok, some, none, ◌∙◌,
  sym, append_assoc, inl, append-nil, refl, inr, Option-cases,
}
use stalky.Segmentation.{
  SegmentInput, OpenSegment, ActivitySegmentDraft, ActivitySegmenter, SegmentBoundary,
  SegmentTransition, SegmentationError, new_segment, boundary_for, add_event, proceed, accept,
  admit, close, normalize_observed_text,
}

-- The ids of the events that `admit` reported as admitted, in order.
abbrev pub admitted_id : SegmentInput → Result SegmentTransition SegmentationError → List Text
admitted_id i (err e) = []
admitted_id i (ok t) = if t.admitted then i.source_event_id ∷ [] else []

pub admitted_ids : ActivitySegmenter → List SegmentInput → List Text
admitted_ids s [] = []
admitted_ids s (i ∷ is) = let (s', r) = admit s i in admitted_id i r ++ admitted_ids s' is

abbrev pub open_ids : Option OpenSegment → List Text
open_ids none = []
open_ids (some s) = s.source_event_ids

abbrev pub draft_ids : List ActivitySegmentDraft → List Text
draft_ids [] = []
draft_ids (d ∷ ds) = d.source_event_ids ++ draft_ids ds

draft_ids-append :
    (xs ys : List ActivitySegmentDraft) → draft_ids (xs ++ ys) ≡ draft_ids xs ++ draft_ids ys
draft_ids-append [] ys = refl
draft_ids-append (d ∷ xs) ys =
    ap (◌++◌ d.source_event_ids) (draft_ids-append xs ys)
    ∙ sym (append_assoc d.source_event_ids (draft_ids xs) (draft_ids ys))

add_event_ids :
    (s : OpenSegment) (i : SegmentInput)
    → (add_event s i).0.source_event_ids
      ≡ s.source_event_ids ++ (if (add_event s i).1 then i.source_event_id ∷ [] else [])
unfolding add_event
add_event_ids s i =
    elim (Bool-cases (text_mem (normalize_observed_text i.privacy_filtered_text) s.seen_text)) [
      | inl old ↦ rw old (sym (append-nil s.source_event_ids))
      | inr new ↦ rw new refl
    ]

proceed_ids :
    (before : Option OpenSegment) (i : SegmentInput)
    → let (s', t) = proceed (record { segment = before }) i in
      draft_ids (closed_list t.closed) ++ open_ids s'.segment
      ≡ open_ids before ++ (if t.admitted then i.source_event_id ∷ [] else [])
unfolding proceed
proceed_ids none i = add_event_ids (new_segment i) i
proceed_ids (some s) i = elim (Option-cases (boundary_for s i)) [
  | inl e ↦ rw (e, accept) (add_event_ids s i)
  | inr (reason, e) ↦
      rw (e, accept)
        (rw (append-nil s.source_event_ids)
          (ap (◌++◌ s.source_event_ids) (add_event_ids (new_segment i) i)))
]

admit_ids :
    (s : ActivitySegmenter) (i : SegmentInput)
    → let (s', r) = admit s i in
      draft_ids (closed_by r) ++ open_ids s'.segment ≡ open_ids s.segment ++ admitted_id i r
admit_ids s i = elim (check_input-cases s i) [
  | inl (e, c) ↦ rw (admit_error s i c) (sym (append-nil (open_ids s.segment)))
  | inr (c, v, l) ↦ rw (admit_ok s i c) (proceed_ids s.segment i)
]

admit_all_ids :
    (s : ActivitySegmenter) (is : List SegmentInput)
    → let (s', drafts) = admit_all s is in
      draft_ids drafts ++ open_ids s'.segment ≡ open_ids s.segment ++ admitted_ids s is
unfolding admit_all admitted_ids
admit_all_ids s [] = sym (append-nil (open_ids s.segment))
admit_all_ids s (i ∷ is) =
    let (s', r) = admit s i in
    let (s'', drafts) = admit_all s' is in
    ap (λ xs. xs ++ open_ids s''.segment) (draft_ids-append (closed_by r) drafts)
    ∙ append_assoc (draft_ids (closed_by r)) (draft_ids drafts) (open_ids s''.segment)
    ∙ ap (◌++◌ (draft_ids (closed_by r))) (admit_all_ids s' is)
    ∙ sym (append_assoc (draft_ids (closed_by r)) (open_ids s'.segment) (admitted_ids s' is))
    ∙ ap (λ xs. xs ++ admitted_ids s' is) (admit_ids s i)
    ∙ append_assoc (open_ids s.segment) (admitted_id i r) (admitted_ids s' is)

-- Over a session, the event ids of its segments, put together, are exactly the ids of the events
-- that `admit` reported as admitted, each once, in the order of their arrival.
pub segment_all-ids :
    (is : List SegmentInput) (reason : SegmentBoundary)
    → draft_ids (segment_all is reason) ≡ admitted_ids no_segment is
unfolding segment_all
segment_all-ids is reason =
    let (s, drafts) = admit_all no_segment is in
    draft_ids-append drafts (closed_list (close s reason).1)
    ∙ ap (◌++◌ (draft_ids drafts)) (close_ids s.segment)
    ∙ admit_all_ids no_segment is
  where
    close_ids :
        (o : Option OpenSegment)
        → draft_ids (closed_list (close (record { segment = o }) reason).1) ≡ open_ids o
    close_ids none = unfold close in refl
    close_ids (some s) = unfold close in append-nil s.source_event_ids
