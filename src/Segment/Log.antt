-- ===== src/Segment/Log.antt =====
-- adapter-event-log-segment/src/log.rs: the state of `SegmentLog`, the files it works on, and their faults.
pub mod Files
pub mod Valid
pub mod Keep
pub mod Safe
pub mod Retention
pub mod Roll
pub mod Append
pub mod Batch
pub mod Start
pub mod Commit
pub mod Retained
pub mod Rolled
pub mod RollKept
pub mod AppendLog
pub mod Calm
pub mod AppendCalm
pub mod Offsets
pub mod Read
pub mod Names
pub mod Open
pub mod Stored
pub mod Reopen
pub mod Crash
pub mod Reads
pub mod ReadRange
use otk_core.Prelude.{
  ℕ, ◌+◌, ◌-◌, ◌<◌, Option, none, some, Bool, true, false, List, Bytes, Text, Result, ok, err,
  if◌then◌else◌, ltb,
}
use otk_core.Timing.Storage.{StorageError, io, ErrorKind, RetentionPolicy}
use otk_core.Segment.{Externals}

-- An `io::Error`, and the bytes that a write has written when it fails.
pub record Fault : Type 0 where
  pub kind : ErrorKind
  pub message : Text
  pub written : ℕ

-- What the log meets outside: the codecs, which of its calls to the system fail, and the clock, each
-- by the number of the call; and the error of a file that is not there.
pub record World : Type 0 where
  pub externals : Externals
  pub fault : ℕ → Option Fault
  pub now_ns : ℕ → ℕ
  pub missing : Fault

-- A path is `{base_offset:020}.seg`, so a segment has its base offset for it.
pub record ClosedSegment : Type 0 where
  pub base_offset : ℕ
  pub last_offset : ℕ
  pub last_appended_at_ns : ℕ
  pub byte_size : ℕ
  pub positions : List ℕ

pub record ActiveSegment : Type 0 where
  pub base_offset : ℕ
  pub positions : List ℕ
  pub byte_size : ℕ
  pub created_at_ns : ℕ
  pub next_file_pos : ℕ
  pub last_appended_at_ns : ℕ

pub record SegmentLogConfig : Type 0 where
  pub max_segment_bytes : ℕ
  pub max_segment_age_secs : ℕ
  pub flush_interval_ms : ℕ
  pub retention : RetentionPolicy

-- The log, the directory it works in, and the number of the next call. `cursor` is the place in the
-- file of the active segment. `segs` and `idxs` have the files by base offset.
pub record SegmentLog : Type 0 where
  pub closed : List ClosedSegment
  pub active : Option ActiveSegment
  pub next_offset : ℕ
  pub poisoned : Bool
  pub cursor : ℕ
  pub segs : ℕ → Option Bytes
  pub idxs : ℕ → Option Bytes
  pub watermark : Option Bytes
  pub calls : ℕ

-- A method on the log.
abbrev pub M : Type 0 → Type 0
M A = SegmentLog → SegmentLog × Result StorageError A

infixl 5 ◌>>=◌ ◌>>◌
abbrev pub resume :
    {A B : Type 0}
    → (A → M B)
    → SegmentLog × Result StorageError A
    → SegmentLog × Result StorageError B
resume next (s, ok a) = next a s
resume next (s, err e) = (s, err e)

abbrev pub ◌>>=◌ : {A B : Type 0} → M A → (A → M B) → M B
◌>>=◌ m next s = resume next (m s)

abbrev pub ◌>>◌ : {A B : Type 0} → M A → M B → M B
m >> next = m >>= λ a. next

abbrev pub pure : {A : Type 0} → A → M A
pure a s = (s, ok a)

abbrev pub fail : {A : Type 0} → StorageError → M A
fail e s = (s, err e)

-- `let _ = m`
abbrev pub ignore : {A : Type 0} → M A → M (Unit {0})
ignore m s = ((m s).0, ok tt)

-- On an error of the first, the second runs, and the error is returned.
abbrev pub cleanup_after :
    {A : Type 0}
    → M (Unit {0})
    → SegmentLog × Result StorageError A
    → SegmentLog × Result StorageError A
cleanup_after cleanup (s, ok a) = (s, ok a)
cleanup_after cleanup (s, err e) = ((cleanup s).0, err e)

abbrev pub or_cleanup : {A : Type 0} → M A → M (Unit {0}) → M A
or_cleanup m cleanup s = cleanup_after cleanup (m s)

-- What holds at the end of a method: of its value and the log, or of the log after an error.
abbrev pub Ends :
    {A : Type 0}
    → (A → SegmentLog → Type 0)
    → (SegmentLog → Type 0)
    → SegmentLog × Result StorageError A
    → Type 0
Ends Q E (s, ok a) = Q a s
Ends Q E (s, err e) = E s
