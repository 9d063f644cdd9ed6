-- ===== src/Capture/Frame.antt =====
-- crates/mega-capture/src/frame.rs: a frame is validated, copied without the padding of its rows, and
-- kept if it differs from the latest one. Sizes are 64-bit `usize`s; bytes are numbers.
pub mod Rows
pub mod Counts
pub mod Totals
use mathlib.Core.Option
use stalky.Prelude.{◌>>◌, ◌>>=◌, reject_if, ◌++◌, same, ◌||◌}
use stalky.Prelude.Words.{saturating_add, u64_max}
use stalky.Prelude.Text.{Text, is_empty, text}
use stalky.Prelude.{
  Bool, List, Option, Result, none, ℕ, [], false, some, ◌*◌, err, if◌then◌else◌, length, not, suc,
  ◌∷◌, leb, ltb, ok, take, ◌==◌, drop, zero,
}
use stalky.Capture.{FrameStatus, CaptureError, complete, invalid_frame, FrameStatus-discrete}

abbrev pub max_frame_width : ℕ
max_frame_width = 2048

abbrev pub max_frame_height : ℕ
max_frame_height = 2048

abbrev pub max_frame_bytes : ℕ
max_frame_bytes = 16777216

abbrev pub bytes_per_pixel : ℕ
bytes_per_pixel = 4

pub record FrameInput : Type 0 where
  pub status : FrameStatus
  pub width : ℕ
  pub height : ℕ
  pub bytes_per_row : ℕ
  pub data_size : ℕ
  pub timestamp_millis : Option ℕ
  pub bytes : List ℕ

pub record FrameMetadata : Type 0 where
  pub width : ℕ
  pub height : ℕ
  pub bytes_per_row : ℕ
  pub byte_len : ℕ
  pub timestamp_millis : Option ℕ

pub record BgraFrame : Type 0 where
  pub metadata : FrameMetadata
  pub bytes : List ℕ
  pub digest : ℕ

pub record FrameMetrics : Type 0 where
  pub accepted_frames : ℕ
  pub invalid_frames : ℕ
  pub duplicate_frames : ℕ
  pub dropped_frames : ℕ
  pub replaced_frames : ℕ
  pub stream_errors : ℕ
  pub last_frame : Option FrameMetadata

pub record FrameIngest : Type 0 where
  pub latest : Option BgraFrame
  pub metrics : FrameMetrics

unfoldable pub new_ingest : FrameIngest
new_ingest = record {
  latest = none;
  metrics = record {
    accepted_frames = 0;
    invalid_frames = 0;
    duplicate_frames = 0;
    dropped_frames = 0;
    replaced_frames = 0;
    stream_errors = 0;
    last_frame = none;
  };
}

-- `checked_mul(..).ok_or_else(..)` on a `usize`.
abbrev checked_mul : ℕ → ℕ → CaptureError → Result ℕ CaptureError
checked_mul a b e = if leb (a * b) u64_max then ok (a * b) else err e

unfoldable pub validate_frame_input : FrameInput → Result ℕ CaptureError
validate_frame_input input = do
  reject_if (not (same FrameStatus-discrete input.status complete))
      (invalid_frame input.status (text "frame status is not complete"))
  reject_if (input.width == 0 || input.height == 0)
      (invalid_frame input.status (text "frame dimensions must be non-zero"))
  reject_if (ltb max_frame_width input.width || ltb max_frame_height input.height)
      (invalid_frame input.status (text "frame dimensions exceed the configured bound"))
  row_bytes ←
      checked_mul input.width bytes_per_pixel
        (invalid_frame input.status (text "frame row-byte calculation overflowed"))
  reject_if (ltb input.bytes_per_row row_bytes)
      (invalid_frame input.status (text "frame stride is smaller than a BGRA row"))
  required_len ←
      checked_mul input.bytes_per_row input.height
        (invalid_frame input.status (text "frame buffer length calculation overflowed"))
  compact_len ←
      checked_mul row_bytes input.height
        (invalid_frame input.status (text "compact frame length calculation overflowed"))
  reject_if (ltb input.data_size required_len || ltb max_frame_bytes input.data_size)
      (invalid_frame input.status (text "frame data size is outside the safe bound"))
  reject_if (ltb (length input.bytes) required_len || ltb max_frame_bytes compact_len)
      (invalid_frame input.status (text "frame data is incomplete or oversized"))
  ok compact_len

-- `data.chunks(stride).take(height)`
unfoldable pub rows : ℕ → ℕ → List ℕ → List (List ℕ)
rows stride zero bytes = []
rows stride (suc h) [] = []
rows stride (suc h) (x ∷ xs) = take stride (x ∷ xs) ∷ rows stride h (drop stride (x ∷ xs))

-- The loop over the rows: a slice `row[..len]` of a row that is shorter panics, which is `none`.
unfoldable pub copy_rows : ℕ → List (List ℕ) → Option (List ℕ)
copy_rows len [] = some []
copy_rows len (row ∷ rs) =
    if ltb (length row) len
    then none
    else Option.map (λ bytes. take len row ++ bytes) (copy_rows len rs)

-- `saturating_add(1)` on a `u64`.
abbrev pub bump : ℕ → ℕ
bump n = saturating_add n 1

abbrev pub set_timestamp : BgraFrame → Option ℕ → BgraFrame
set_timestamp f t = record f { metadata = record (f.metadata) { timestamp_millis = t } }

unfoldable pub count_invalid : FrameIngest → FrameIngest
count_invalid s = record s {
  metrics = record (s.metrics) { invalid_frames = bump s.metrics.invalid_frames };
}

-- The frame that `ingest` makes of the bytes it has copied.
unfoldable pub frame_of : FrameInput → List ℕ → BgraFrame
frame_of input bytes = record {
  metadata = record {
    width = input.width;
    height = input.height;
    bytes_per_row = input.width * bytes_per_pixel;
    byte_len = length bytes;
    timestamp_millis = input.timestamp_millis;
  };
  bytes = bytes;
  digest = 0;
}

unfoldable pub input_of : BgraFrame → FrameInput
input_of frame = record {
  status = complete;
  width = frame.metadata.width;
  height = frame.metadata.height;
  bytes_per_row = frame.metadata.bytes_per_row;
  data_size = length frame.bytes;
  timestamp_millis = frame.metadata.timestamp_millis;
  bytes = frame.bytes;
}

module _ (hash : List ℕ → ℕ) where
  -- The part of `commit_frame` after the frame has its digest.
  unfoldable pub commit_hashed : FrameIngest → BgraFrame → FrameIngest
  commit_hashed s frame = elim s.latest [
    | none ↦ record {
      latest = some frame;
      metrics = record (s.metrics) {
        last_frame = some frame.metadata;
        accepted_frames = bump s.metrics.accepted_frames;
      };
    }
    | some latest ↦
        if latest.digest == frame.digest
        then record {
          latest = some (set_timestamp latest frame.metadata.timestamp_millis);
          metrics = record (s.metrics) {
            duplicate_frames = bump s.metrics.duplicate_frames;
            last_frame = some (set_timestamp latest frame.metadata.timestamp_millis).metadata;
          };
        }
        else record {
          latest = some frame;
          metrics = record (s.metrics) {
            replaced_frames = bump s.metrics.replaced_frames;
            last_frame = some frame.metadata;
            accepted_frames = bump s.metrics.accepted_frames;
          };
        }
  ]

  -- It always returns `Ok(())`.
  unfoldable pub commit_frame : FrameIngest → BgraFrame → FrameIngest
  unfolding commit_hashed
  commit_frame s frame = commit_hashed s (record frame { digest = hash frame.bytes })

  -- `none` is a panic.
  unfoldable pub ingest :
      FrameIngest → FrameInput → Option (FrameIngest × Result (Unit {0}) CaptureError)
  ingest s input = elim (validate_frame_input input) [
    | err e ↦ some (count_invalid s, err e)
    | ok _ ↦
        Option.map (λ bytes. (commit_frame s (frame_of input bytes), ok tt))
          (copy_rows (input.width * bytes_per_pixel)
            (rows input.bytes_per_row input.height input.bytes))
  ]

  unfoldable pub ingest_owned :
      FrameIngest → BgraFrame → FrameIngest × Result (Unit {0}) CaptureError
  ingest_owned s frame = elim (validate_frame_input (input_of frame)) [
    | err e ↦ (count_invalid s, err e)
    | ok _ ↦ (
      commit_frame s
          (record frame { metadata = record (frame.metadata) { byte_len = length frame.bytes } }),
      ok tt,
    )
  ]

unfoldable pub reject_frame : FrameIngest → FrameStatus → Text → FrameIngest × CaptureError
reject_frame s status reason = (
  record s { metrics = record (s.metrics) { invalid_frames = bump s.metrics.invalid_frames } },
  invalid_frame status reason,
)

unfoldable pub record_drop : FrameIngest → FrameIngest
record_drop s = record s {
  metrics = record (s.metrics) { dropped_frames = bump s.metrics.dropped_frames };
}

unfoldable pub record_stream_error : FrameIngest → FrameIngest
record_stream_error s = record s {
  metrics = record (s.metrics) { stream_errors = bump s.metrics.stream_errors };
}

unfoldable pub has_raw_frame : FrameIngest → Bool
has_raw_frame s = elim s.latest [ none ↦ false | some frame ↦ not (is_empty frame.bytes) ]

unfoldable pub clear_latest : FrameIngest → FrameIngest
clear_latest s = record s { latest = none }
