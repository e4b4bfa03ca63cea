-- ===== src/Frame.antt =====
-- frame-codec/src/error.rs and lib.rs: the errors of both frame formats. The two decoders are the
-- child modules.
pub mod Stream
pub mod Serial
mod Examples
use otk_core.Prelude.{ℕ, Option, Text}

pub data FrameError : Type 0 where
  oversize_frame : Option ℕ → ℕ → FrameError
  corrupt_frame : FrameError
  lost_sync : FrameError
  encode_failed : FrameError
  decode_failed : Text → FrameError

abbrev pub default_max_frame_size : ℕ
default_max_frame_size = 65535
