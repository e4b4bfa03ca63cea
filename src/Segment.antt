-- ===== src/Segment.antt =====
-- adapter-event-log-segment/src: an event log in segment files. A file is its bytes.
pub mod Record
pub mod Frames
pub mod Recover
pub mod Index
pub mod Log
mod Examples
use otk_core.Prelude.{ℕ, ◌*◌, ◌<◌, ◌^◌, Bytes, Text, text, Result}
use otk_core.Event.{OtkEvent}
use otk_core.Protocol.{Cbor, RoundTrips}

-- What the adapter calls: the codec of an event, `crc32fast`, `String::from_utf8` with the text of its
-- error, and the text of the error of a `read_exact` that meets the end of the file.
pub record Externals : Type 0 where
  pub event : Cbor OtkEvent
  pub crc32 : Bytes → ℕ
  pub from_utf8 : Bytes → Result Text Text
  pub early_eof : Text

-- A checksum is a u32, and the codec decodes what it encodes.
pub record IsExternals (x : Externals) : Type 0 where
  pub trips : RoundTrips x.event
  pub crc32_fits : (bs : Bytes) → x.crc32 bs < 2 ^ 32

-- segment.rs
abbrev pub version : ℕ
version = 2

abbrev pub header_len : ℕ
header_len = 24

abbrev pub max_event_cbor : ℕ
max_event_cbor = 4 * 1024 * 1024

abbrev pub max_producer_id_bytes : ℕ
max_producer_id_bytes = 256

abbrev pub sentinel_msg : Text
sentinel_msg = text "end-of-segment sentinel"
