-- ===== src/Segment/Recover.antt =====
-- adapter-event-log-segment/src/segment.rs: the recovery of a segment after a crash.
pub mod Fuel
pub mod Tail
pub mod Cut
use otk_core.Prelude.{
  ℕ, zero, suc, ◌+◌, Option, none, some, Bool, not, List, [], ◌∷◌, ◌++◌, Bytes, Text, text, Result,
  ok, err, ltb, leb, ◌==◌, if◌then◌else◌, length, take, drop, from_le, u64_max,
}
use otk_core.Timing.Storage.{LogEntry, StorageError, io, corrupted, unexpected_eof, decimal}
use otk_core.Segment.{Externals, header_len}
use otk_core.Segment.Record.{read_record}

-- What `recover_active` leaves and returns: the file, the start of each record, and the end of the
-- last one. The count of records is the length of the second.
pub record Recovered : Type 0 where
  pub file : Bytes
  pub positions : List ℕ
  pub next_pos : ℕ

-- A round of the loop ends it, or goes on with the positions and the place.
pub data Round : Type 0 where
  halt : Result StorageError Recovered → Round
  onward : List ℕ → ℕ → Round

-- `set_len(pos)`, for a place inside the file, and `break`.
unfoldable pub cut : Bytes → List ℕ → ℕ → Round
cut file positions pos =
    halt (ok (record { file = take pos file; positions = positions; next_pos = pos }))

-- The arm for a record that was read. The text of the overflow error is as in the source.
unfoldable pub accept_record : Bytes → ℕ → ℕ → List ℕ → ℕ → LogEntry → Round
accept_record file base_offset pos positions payload_len entry =
    let expected = base_offset + length positions in
    if ltb u64_max expected
    then halt (
        err (
          corrupted (
            text "segment base_offset "
            ++ decimal 20 base_offset
            ++ text " + record count overflows u64")))
    else if not (entry.offset == expected)
    then cut file positions pos
    else let next = pos + payload_len + 8 in
      if ltb u64_max next
      then cut file (positions ++ pos ∷ []) pos
      else onward (positions ++ pos ∷ []) next

-- The arms for an error.
unfoldable pub refuse_record : Bytes → List ℕ → ℕ → StorageError → Round
refuse_record file positions pos (io unexpected_eof m) = cut file positions pos
refuse_record file positions pos (corrupted m) = cut file positions pos
refuse_record file positions pos e = halt (err e)

-- The body of the loop from the test of the place on.
unfoldable pub recover_round : Externals → Bytes → ℕ → ℕ → List ℕ → Round
recover_round x file base_offset pos positions =
    let rest = drop pos file in
    let payload_len = from_le (take 4 rest) in
    if ltb (length rest) 4
    then cut file positions pos
    else if payload_len == 0
    then cut file positions pos
    else elim (read_record x file pos) [
      | ok entry ↦ accept_record file base_offset pos positions payload_len entry
      | err e ↦ refuse_record file positions pos e
    ]

-- The loop, on fuel, and nothing where the fuel ends before the loop. Each round that goes on advances
-- by nine bytes at least.
unfoldable pub recover_loop :
    Externals → ℕ → Bytes → ℕ → ℕ → List ℕ → Option (Result StorageError Recovered)
recover_loop x zero file base_offset pos positions = none
recover_loop x (suc fuel) file base_offset pos positions =
    if leb (length file) pos
    then some (ok (record { file = file; positions = positions; next_pos = pos }))
    else elim (recover_round x file base_offset pos positions) [
      | halt r ↦ some r
      | onward positions' pos' ↦ recover_loop x fuel file base_offset pos' positions'
    ]

-- The fuel is enough for every file, so that the case without a result does not arise.
unfoldable pub recover_active : Externals → Bytes → ℕ → Result StorageError Recovered
recover_active x file base_offset =
    elim (recover_loop x (suc (length file)) file base_offset header_len []) [
      | some r ↦ r
      | none ↦ err (corrupted (text "the recovery does not end"))
    ]
