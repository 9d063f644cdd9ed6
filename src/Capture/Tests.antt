-- ===== src/Capture/Tests.antt =====
-- Concrete frames and captures.
use stalky.Capture.Frame.Totals.{every_frame_counted}
use stalky.Capture.Frame.Rows.{Copies, ingest-Copies}
use stalky.Prelude.Text.{Text}
use stalky.Capture.Frame.Counts.{call_all, gives, drops, handled, IsShown}
use stalky.Prelude.{List, ℕ, [], refl, some, ◌∷◌, ◌≡◌, err, ok, ◌+◌, length, ◌≤◌, arith, false}
use stalky.Capture.Service.Stops.{LeavesNothing, stop-LeavesNothing}
use stalky.Capture.Service.Rest.{IsSettled}
use stalky.Capture.Frame.{
  FrameIngest, FrameInput, validate_frame_input, new_ingest, ingest, commit_frame, frame_of,
  copy_rows, rows, commit_hashed,
}
use stalky.Capture.{
  CaptureError, FrameStatus-discrete, complete, primary_display, CaptureState-discrete,
  unsupported_target, running,
}
use stalky.Capture.Service.Calls.{start, stop, begin_start, finish_start}
use stalky.Capture.Service.{
  on_event, on_events, CaptureService, new_service, errs, is_admitted, ingests, taken, ingested,
}
use stalky.Capture.Service.Sessions.{starts, happens, run_all, run_all-IsSettled, run_op}

-- Two rows of one pixel each, four bytes and one of padding.
abbrev padded : FrameInput
padded = record {
  status = complete;
  width = 1;
  height = 2;
  bytes_per_row = 5;
  data_size = 10;
  timestamp_millis = some 7;
  bytes = 1 ∷ 2 ∷ 3 ∷ 4 ∷ 0 ∷ 5 ∷ 6 ∷ 7 ∷ 8 ∷ 0 ∷ [];
}

abbrev sum : List ℕ → ℕ
sum [] = 0
sum (n ∷ ns) = n + sum ns

abbrev no_text : CaptureError → Text
no_text e = []

padded-size : validate_frame_input padded ≡ ok 8
unfolding validate_frame_input FrameStatus-discrete
padded-size = refl

ingest-Copies_example :
    (bytes : List ℕ) × (ingest sum new_ingest padded
      ≡ some (commit_frame sum new_ingest (frame_of padded bytes), ok tt))
    × (length bytes ≡ 8)
    × Copies 2 5 4 padded.bytes bytes
ingest-Copies_example = ingest-Copies sum new_ingest padded 8 padded-size

every_frame_counted_example :
    (s : FrameIngest) × (call_all sum new_ingest (gives padded ∷ drops ∷ gives padded ∷ [])
      ≡ some s)
    × (handled s.metrics ≡ 2)
    × (s.metrics.dropped_frames ≡ 1)
    × (s.metrics.stream_errors ≡ 0)
    × (s.metrics.replaced_frames ≤ s.metrics.accepted_frames)
    × IsShown sum s.metrics.last_frame s.latest
every_frame_counted_example =
    every_frame_counted sum (gives padded ∷ drops ∷ gives padded ∷ []) (omega arith)

abbrev captured : CaptureService ℕ
captured =
    run_all sum no_text new_service
      (starts primary_display [] (ok 3) ∷ happens 1 (ingests taken padded) ∷ [])

new-IsSettled : IsSettled {S = ℕ} new_service
unfolding new_service new_ingest
new-IsSettled = (refl, (refl, refl, refl))

run_all-IsSettled_example : IsSettled captured
run_all-IsSettled_example =
    run_all-IsSettled sum no_text
      (starts primary_display [] (ok 3) ∷ happens 1 (ingests taken padded) ∷ []) new_service
      new-IsSettled

captured-unpoisoned : captured.is_lifecycle_poisoned ≡ false
unfolding run_all run_op start begin_start finish_start on_event on_events new_service new_ingest
    is_admitted CaptureState-discrete ingest validate_frame_input FrameStatus-discrete copy_rows
    rows ingested commit_frame commit_hashed frame_of
captured-unpoisoned = refl

captured_runs : captured.inner.state ≡ running
unfolding run_all run_op start begin_start finish_start on_event on_events new_service new_ingest
    is_admitted CaptureState-discrete ingest validate_frame_input FrameStatus-discrete copy_rows
    rows ingested commit_frame commit_hashed frame_of
captured_runs = refl

stop-LeavesNothing_example :
    LeavesNothing (stop sum no_text captured (errs [] ∷ []) (λ n. err unsupported_target))
stop-LeavesNothing_example =
    stop-LeavesNothing sum no_text captured (errs [] ∷ []) (λ n. err unsupported_target)
      captured-unpoisoned run_all-IsSettled_example
