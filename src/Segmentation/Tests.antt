-- ===== src/Segmentation/Tests.antt =====
-- Short sessions of the segmenter.
use stalky.Prelude.Int.{pos, saturating_sub}
use Prim.Native.String.{String}
use stalky.Prelude.Text.{text_mem, text, text_eq, Text}
use stalky.Segmentation.Times.{IsBounded, segment_all-IsBounded}
use stalky.Segmentation.Texts.{IsExtractable, segment_all-IsExtractable}
use stalky.Segmentation.Runs.{segment_all, no_segment}
use stalky.Segmentation.Events.{draft_ids, admitted_ids, segment_all-ids}
use stalky.Prelude.{All, List, ◌∷◌, ◌≡◌, [], arith, map, ℕ, refl, some, none, ◌+◌, replicate}
use stalky.Segmentation.{
  SegmentInput, session_ended, app_changed, admit, normalize_observed_text, close, SegmentBoundary,
  ActivitySegmentDraft,
}

abbrev event : String → String → ℕ → String → SegmentInput
event id app start content = record {
  source_event_id = text id;
  app_id = some (text app);
  scope_id = none;
  started_at_ms = pos start;
  ended_at_ms = pos (start + 10);
  privacy_filtered_text = text content;
}

abbrev session : List SegmentInput
session =
    event "s1" "slack" 0 "User likes Svelte"
    ∷ event "s2" "slack" 20 " User  likes Svelte "
    ∷ event "s3" "figma" 30 "Use compact panels"
    ∷ []

session_test :
    map {B = SegmentBoundary × List Text}
      (λ d. (d.close_reason, d.source_event_ids))
      (segment_all session session_ended)
    ≡ (app_changed, text "s1" ∷ []) ∷ (session_ended, text "s3" ∷ []) ∷ []
unfolding segment_all admit normalize_observed_text close text_mem text_eq saturating_sub
session_test = refl

segment_all-IsExtractable_example : All IsExtractable (segment_all session session_ended)
segment_all-IsExtractable_example = segment_all-IsExtractable session session_ended

segment_all-IsBounded_example :
    All (λ d. IsBounded d.started_at_ms d.ended_at_ms) (segment_all session session_ended)
segment_all-IsBounded_example = segment_all-IsBounded session session_ended (omega arith)

segment_all-ids_example :
    draft_ids (segment_all session session_ended) ≡ admitted_ids no_segment session
segment_all-ids_example = segment_all-ids session session_ended

abbrev overlong : ActivitySegmentDraft
overlong = record {
  app_id = none;
  scope_id = none;
  started_at_ms = pos 0;
  ended_at_ms = pos 1;
  close_reason = session_ended;
  source_event_ids = text "s1" ∷ text "s2" ∷ [];
  extraction_texts = text "a" ∷ replicate 12001 97 ∷ [];
}
