-- ===== src/Segmentation/Texts.antt =====
-- What an open segment of crates/mega-memory/src/segmentation.rs holds, whatever events arrive.
use stalky.Prelude.Int.{ltb_ℤ}
use stalky.Segmentation.Runs.{
  Drafts, segment_all, segment_all_rule, admit_all_rule, no_segment, Holds, admit_all, admit_ok,
}
use stalky.Prelude.Text.{
  Text, text_mem, collapse_whitespace_idem, length-collapse_whitespace, text_mem-append,
  text_eq_comm, text_eq_refl,
}
use stalky.Prelude.{
  List, length, ◌∷◌, ◌≡◌, All, false, [], ◌++◌, arith, refl, Bool-cases, inl, inr, length-append,
  sym, ◌∙◌, All-snoc, ok, subst, none, All-map, All-Unit, Option, true, some, ◌||◌, Option-cases,
}
use stalky.Segmentation.{
  SegmentInput, OpenSegment, new_segment, normalize_observed_text, add_event, ActivitySegmentDraft,
  SegmentBoundary, draft_of, validate_input, split_extraction_batches, boundary_for, proceed,
  check_input, admit, accept,
}
use stalky.Segmentation.Batches.{Fits, concat, IsBatch, split_extraction_batches-Splits}

-- No text occurs twice.
abbrev pub AllDistinct : List Text → Type 0
AllDistinct [] = Unit {0}
AllDistinct (t ∷ ts) = (text_mem t ts ≡ false) × AllDistinct ts

abbrev pub IsNormal : Text → Type 0
IsNormal t = normalize_observed_text t ≡ t

pub record IsGathered (ids : List Text) (texts : List Text) : Type 0 where
  pub paired : length ids ≡ length texts
  pub distinct : AllDistinct texts
  pub normal : All IsNormal texts
  pub fitting : All Fits texts

record Inv (s : OpenSegment) : Type 0 where
  gathered : IsGathered s.source_event_ids s.extraction_texts
  seen : (t : Text) → text_mem t s.seen_text ≡ text_mem t s.extraction_texts

distinct-snoc :
    (ts : List Text) (t : Text)
    → AllDistinct ts
    → text_mem t ts ≡ false
    → AllDistinct (ts ++ t ∷ [])
unfolding text_mem
distinct-snoc [] t h e = (refl, tt)
distinct-snoc (u ∷ ts) t h e = (
  ground (arith, h.0, text_mem-append u ts (t ∷ []), text_eq_comm t u),
  distinct-snoc ts t h.1 (ground arith),
)

-- A segment with nothing in it yet.
new_segment-Inv : (input : SegmentInput) → Inv (new_segment input)
unfolding new_segment
new_segment-Inv input = record {
  gathered = record { paired = refl; distinct = tt; normal = tt; fitting = tt };
  seen = λ t. refl;
}

add_event-Inv :
    (s : OpenSegment) (input : SegmentInput)
    → Fits input.privacy_filtered_text
    → Inv s
    → Inv (add_event s input).0
unfolding add_event
add_event-Inv s input f v = elim (Bool-cases (text_mem t s.seen_text)) [
  | inl old ↦ rw old (record { gathered = v.gathered; seen = v.seen })
  | inr new ↦ rw new (record {
    gathered = record {
      paired = omega (
        arith,
        v.gathered.paired,
        length-append s.source_event_ids (input.source_event_id ∷ []),
        length-append s.extraction_texts (t ∷ []),
      );
      distinct = distinct-snoc s.extraction_texts t v.gathered.distinct (sym (v.seen t) ∙ new);
      normal = All-snoc IsNormal s.extraction_texts t v.gathered.normal normalized-IsNormal;
      fitting = All-snoc Fits s.extraction_texts t v.gathered.fitting normalized-Fits;
    };
    seen = λ u.
        unfold text_mem in ground (arith, v.seen u, text_mem-append u s.extraction_texts (t ∷ []));
  })
]
  where
    t : Text
    t = normalize_observed_text input.privacy_filtered_text

    normalized-IsNormal : IsNormal t
    normalized-IsNormal =
        unfold normalize_observed_text in collapse_whitespace_idem input.privacy_filtered_text

    normalized-Fits : Fits t
    normalized-Fits =
        unfold normalize_observed_text in
        omega (arith, f, length-collapse_whitespace input.privacy_filtered_text)

validate_input-Fits :
    (input : SegmentInput) → validate_input input ≡ ok tt → Fits input.privacy_filtered_text
unfolding validate_input
validate_input-Fits input h = ground arith

Drafts-IsGathered :
    (d : ActivitySegmentDraft) → Drafts Inv d → IsGathered d.source_event_ids d.extraction_texts
unfolding draft_of
Drafts-IsGathered d (segment, reason, v, e) =
    subst (λ c. IsGathered c.source_event_ids c.extraction_texts) (sym e) v.gathered

-- What the extractor is given of a segment.
abbrev pub IsExtractable : ActivitySegmentDraft → Type 0
IsExtractable d =
    IsGathered d.source_event_ids d.extraction_texts
    × ((r : List (List Text)) × (split_extraction_batches d ≡ ok r)
        × (concat r ≡ d.extraction_texts)
        × All IsBatch r)

fresh-Inv :
    (i : SegmentInput) → Unit {0} → validate_input i ≡ ok tt → Inv (add_event (new_segment i) i).0
fresh-Inv i q v = add_event-Inv (new_segment i) i (validate_input-Fits i v) (new_segment-Inv i)

grow-Inv :
    (segment : OpenSegment) (i : SegmentInput)
    → Unit {0}
    → validate_input i ≡ ok tt
    → ltb_ℤ i.started_at_ms segment.ended_at_ms ≡ false
    → boundary_for segment i ≡ none
    → Inv segment
    → Inv (add_event segment i).0
grow-Inv segment i q v l b h = add_event-Inv segment i (validate_input-Fits i v) h

admit_all-Inv :
    (inputs : List SegmentInput)
    → Holds Inv (admit_all no_segment inputs).0.segment
      × All (Drafts Inv) (admit_all no_segment inputs).1
admit_all-Inv inputs =
    admit_all_rule Inv (λ i. Unit {0}) fresh-Inv grow-Inv no_segment inputs (All-Unit inputs) tt

-- Of every segment that a session closes, whatever events arrive: it has one event id for each
-- text; its texts are pairwise distinct, normalized and within the extractor's bound; and splitting
-- it succeeds, with batches that hold exactly those texts, in order, none empty or over the bound.
pub segment_all-IsExtractable :
    (inputs : List SegmentInput) (reason : SegmentBoundary)
    → All IsExtractable (segment_all inputs reason)
segment_all-IsExtractable inputs reason =
    All-map (Drafts Inv) IsExtractable extractable (segment_all inputs reason)
      (segment_all_rule Inv inputs reason (admit_all-Inv inputs))
  where
    extractable : (d : ActivitySegmentDraft) → Drafts Inv d → IsExtractable d
    extractable d h =
        let g = Drafts-IsGathered d h in (g, split_extraction_batches-Splits d g.fitting)

-- The open segment has a text.
abbrev pub HasText : Text → Option OpenSegment → Type 0
HasText t none = ⊥
HasText t (some s) = text_mem t s.extraction_texts ≡ true

add_event-HasText :
    (s : OpenSegment) (i : SegmentInput)
    → ((t : Text) → text_mem t s.seen_text ≡ text_mem t s.extraction_texts)
    → text_mem (normalize_observed_text i.privacy_filtered_text) (add_event s i).0.extraction_texts
      ≡ true
unfolding add_event
add_event-HasText s i seen =
    let t = normalize_observed_text i.privacy_filtered_text in
    elim (Bool-cases (text_mem t s.seen_text)) [
      | inl old ↦ rw old (sym (seen t) ∙ old)
      | inr new ↦ rw new (text_mem-append t s.extraction_texts (t ∷ []) ∙ has t s.extraction_texts)
    ]
  where
    has : (t : Text) (ts : List Text) → (text_mem t ts || text_mem t (t ∷ [])) ≡ true
    has t ts = unfold text_mem in ground (arith, text_eq_refl t)

proceed-HasText :
    (before : Option OpenSegment) (i : SegmentInput)
    → Holds Inv before
    → HasText
        (normalize_observed_text i.privacy_filtered_text)
        (proceed (record { segment = before }) i).0.segment
unfolding proceed
proceed-HasText none i h = add_event-HasText (new_segment i) i (λ t. refl)
proceed-HasText (some s) i h = elim (Option-cases (boundary_for s i)) [
  | inl e ↦ rw (e, accept) (add_event-HasText s i h.seen)
  | inr (reason, e) ↦ rw (e, accept) (add_event-HasText (new_segment i) i (λ t. refl))
]

-- At any point of a session an event that is not refused finds its normalized text in the open
-- segment afterwards, whether a boundary came before it or its text was there already.
admit-HasText :
    (inputs : List SegmentInput) (i : SegmentInput)
    → let (s, _) = admit_all no_segment inputs in
      check_input s i ≡ ok tt
      → HasText (normalize_observed_text i.privacy_filtered_text) (admit s i).0.segment
admit-HasText inputs i c =
    let s = (admit_all no_segment inputs).0 in
    rw (admit_ok s i c) (proceed-HasText s.segment i (admit_all-Inv inputs).0)
