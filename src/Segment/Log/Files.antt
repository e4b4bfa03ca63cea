-- ===== src/Segment/Log/Files.antt =====
-- adapter-event-log-segment/src/log.rs, segment.rs: the calls to the system.
use otk_core.Prelude.{
  ℕ, zero, suc, ◌+◌, ◌-◌, ◌==◌, Option, none, some, List, [], ◌∷◌, ◌++◌, Bytes, Result, ok, err,
  length, take, drop, to_le, if◌then◌else◌,
}
use otk_core.Timing.Storage.{StorageError, LogEntry, io, not_found}
use otk_core.Segment.Record.{encode_record}
use otk_core.Segment.Index.{index_bytes}
use otk_core.Segment.Log.{Fault, World, SegmentLog, M, ◌>>=◌, ◌>>◌, pure, ignore, or_cleanup}

abbrev pub update : {A : Type 0} → (ℕ → A) → ℕ → A → ℕ → A
update f k a n = if k == n then a else f n

unfoldable pub zeros : ℕ → Bytes
zeros zero = []
zeros (suc n) = 0 ∷ zeros n

-- A file cut or filled up to a length, and one with bytes written at a place.
unfoldable pub resized : ℕ → Bytes → Bytes
resized n file = take n file ++ zeros (n - length file)

unfoldable pub written_at : ℕ → Bytes → Bytes → Bytes
written_at pos bytes file = resized pos file ++ (bytes ++ drop (pos + length bytes) file)

unfoldable pub file_at : SegmentLog → ℕ → Bytes
file_at s base = elim (s.segs base) [ none ↦ [] | some file ↦ file ]

abbrev pub seek_to : ℕ → SegmentLog → SegmentLog
seek_to pos s = record s { cursor = pos }

abbrev pub resize_file : ℕ → ℕ → SegmentLog → SegmentLog
resize_file base n s = record s { segs = update s.segs base (some (resized n (file_at s base))) }

-- A new file, which is empty, with the cursor at its start.
abbrev pub create_file : ℕ → SegmentLog → SegmentLog
create_file base s = record s { segs = update s.segs base (some []); cursor = 0 }

abbrev pub drop_index : ℕ → SegmentLog → SegmentLog
drop_index base s = record s { idxs = update s.idxs base none }

abbrev pub put_index : ℕ → List ℕ → SegmentLog → SegmentLog
put_index base positions s = record s { idxs = update s.idxs base (some (index_bytes positions)) }

abbrev pub put_watermark : ℕ → SegmentLog → SegmentLog
put_watermark next_offset s = record s { watermark = some (to_le 8 next_offset) }

-- Bytes written to the file of the active segment, at the cursor.
unfoldable pub write_bytes : ℕ → Bytes → SegmentLog → SegmentLog
write_bytes base bytes s = record s {
  segs = update s.segs base (some (written_at s.cursor bytes (file_at s base)));
  cursor = s.cursor + length bytes;
  calls = suc s.calls;
}

module _ (w : World) where
  -- A call to the system that changes no file: it fails or not.
  unfoldable pub attempt : M (Unit {0})
  attempt s =
      let s' = record s { calls = suc s.calls } in
      elim (w.fault s.calls) [ none ↦ (s', ok tt) | some f ↦ (s', err (io f.kind f.message)) ]

  -- `now_ns`
  unfoldable pub now : M ℕ
  now s = (record s { calls = suc s.calls }, ok (w.now_ns s.calls))

  -- A call that fails and changes nothing, or changes the log.
  unfoldable pub change : (SegmentLog → SegmentLog) → M (Unit {0})
  change f = do attempt; λ s. (f s, ok tt)

  -- `seek(SeekFrom::Start(pos))` and `set_len(n)` on the file of the active segment.
  unfoldable pub seek : ℕ → M (Unit {0})
  unfolding change
  seek pos = change (seek_to pos)

  unfoldable pub set_len : ℕ → ℕ → M (Unit {0})
  unfolding change
  set_len base n = change (resize_file base n)

  -- `write_all` on the file of the active segment.
  unfoldable pub write_all : ℕ → Bytes → M (Unit {0})
  unfolding write_bytes
  write_all base bytes s = elim (w.fault s.calls) [
    | none ↦ (write_bytes base bytes s, ok tt)
    | some f ↦ (write_bytes base (take f.written bytes) s, err (io f.kind f.message))
  ]

  -- `write_record`
  unfoldable pub write_record : ℕ → LogEntry → M ℕ
  write_record base e = do
    bytes ← λ s. (s, encode_record w.externals e)
    attempt
    start ← λ s. (s, ok s.cursor)
    or_cleanup (write_all base bytes) (ignore (set_len base start))
    pure start

  -- The open, write, sync and rename of a file that is written whole.
  unfoldable pub replace_file : (SegmentLog → SegmentLog) → M (Unit {0})
  replace_file f = do attempt; attempt; attempt; change f; ignore attempt

  unfoldable pub write_index : ℕ → List ℕ → M (Unit {0})
  write_index base positions = replace_file (put_index base positions)

  unfoldable pub write_watermark : ℕ → M (Unit {0})
  write_watermark next_offset = replace_file (put_watermark next_offset)

  -- `remove_file` on a segment; a file that is not there is no error.
  unfoldable pub tolerate_missing :
      SegmentLog → SegmentLog → Option Fault → SegmentLog × Result StorageError (Unit {0})
  tolerate_missing kept removed none = (removed, ok tt)
  tolerate_missing kept removed (some f) = elim f.kind [
    | not_found ↦ (kept, ok tt)
    | _ ↦ (kept, err (io f.kind f.message))
  ]

  unfoldable pub remove_segment : ℕ → M (Unit {0})
  unfolding tolerate_missing
  remove_segment base s =
      let s' = record s { calls = suc s.calls } in
      tolerate_missing s' (record s' { segs = update s.segs base none }) (w.fault s.calls)

  unfoldable pub remove_index : ℕ → M (Unit {0})
  unfolding change
  remove_index base = change (drop_index base)

  unfoldable pub delete_segment : ℕ → M (Unit {0})
  delete_segment base = do remove_segment base; ignore (remove_index base); ignore attempt
