-- ===== src/Capture.antt =====
-- crates/mega-capture/src: the types that the frames and the service share, from error.rs,
-- policy.rs, frame.rs and service.rs. Messages are lists of code points.
pub mod Frame
pub mod Service
mod Tests
use stalky.Prelude.Text.{Text}
use stalky.Prelude.{ℕ}
use stalky.Permissions.{PermissionState}

pub data FrameStatus : Type 0 where
  complete incomplete invalid : FrameStatus

unfoldable pub FrameStatus-discrete : Discrete FrameStatus
FrameStatus-discrete = hlevel

pub data CaptureState : Type 0 where
  stopped starting running stopping failed : CaptureState

unfoldable pub CaptureState-discrete : Discrete CaptureState
CaptureState-discrete = hlevel

pub data CaptureSource : Type 0 where
  primary_display : CaptureSource
  display : ℕ → CaptureSource

pub data CaptureError : Type 0 where
  unsupported_target no_displays : CaptureError
  permission_preflight : Text → CaptureError
  permission_not_granted : PermissionState → CaptureError
  already_active invalid_start_state invalid_stop_state : CaptureState → CaptureError
  display_not_found : ℕ → CaptureError
  stream_start stream_stop output_handler_registration : Text → Text → CaptureError
  invalid_frame : FrameStatus → Text → CaptureError
  stream_stopped : Text → Text → CaptureError
