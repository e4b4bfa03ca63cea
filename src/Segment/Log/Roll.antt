-- ===== src/Segment/Log/Roll.antt =====
-- adapter-event-log-segment/src/log.rs: the active segment is made, and closed when it is full or old.
use otk_core.Prelude.{
  ℕ, ◌+◌, ◌-◌, Option, none, some, Bool, true, false, List, [], ◌∷◌, ◌++◌, leb, if◌then◌else◌,
  length, Result, ok, err,
}
use otk_core.Timing.Storage.{StorageError}
use otk_core.Segment.{header_len}
use otk_core.Segment.Record.{header_bytes}
use otk_core.Segment.Log.{
  World, SegmentLog, SegmentLogConfig, ActiveSegment, M, ◌>>=◌, ◌>>◌, pure, ignore, or_cleanup,
}
use otk_core.Segment.Log.Files.{
  attempt, now, change, create_file, file_at, set_len, seek, write_all, write_index,
  write_watermark, remove_segment,
}
use otk_core.Segment.Log.Retention.{enforce_retention, secs_to_ns}

unfoldable pub set_active : Option ActiveSegment → M (Unit {0})
set_active active s = (record s { active = active }, ok tt)

-- `metadata().len()`, or else the place of the next record.
unfoldable pub or_pos :
    ℕ → ℕ → SegmentLog × Result StorageError (Unit {0}) → SegmentLog × Result StorageError ℕ
or_pos size pos (s, ok _) = (s, ok size)
or_pos size pos (s, err e) = (s, ok pos)

unfoldable pub close_active : ActiveSegment → ℕ → M (Unit {0})
close_active a seg_size s = (
  record s {
    active = none;
    closed =
        s.closed
        ++ record {
          base_offset = a.base_offset;
          last_offset = a.base_offset + length a.positions - 1;
          last_appended_at_ns = a.last_appended_at_ns;
          byte_size = seg_size;
          positions = a.positions;
        }
          ∷ [];
  },
  ok tt,
)

unfoldable pub is_old : SegmentLogConfig → ActiveSegment → ℕ → Bool
is_old config a t = leb (secs_to_ns config.max_segment_age_secs) (t - a.created_at_ns)

module _ (w : World) where
  -- `open` with `create` and `truncate`, for a new active segment: the file is empty.
  unfoldable pub create_segment : ℕ → M (Unit {0})
  unfolding change
  create_segment base = change w (create_file base)

  unfoldable pub new_active : M ActiveSegment
  new_active s =
      let base = s.next_offset in
      (do
        ts ← now w
        create_segment base
        write_all w base (header_bytes (record { base_offset = base; created_at_ns = ts }))
        ignore (attempt w)
        let a : ActiveSegment = record {
          base_offset = base;
          positions = [];
          byte_size = 0;
          created_at_ns = ts;
          next_file_pos = header_len;
          last_appended_at_ns = 0;
        }
        set_active (some a)
        pure a)
        s

  -- `ensure_active`, with the active segment that there is then.
  unfoldable pub ensure_active : M ActiveSegment
  ensure_active s = elim s.active [ none ↦ new_active s | some a ↦ (s, ok a) ]

  unfoldable pub segment_size : ActiveSegment → M ℕ
  unfolding or_pos
  segment_size a s = or_pos (length (file_at s a.base_offset)) a.next_file_pos (attempt w s)

  -- `set_len` and `seek` to where the sentinel was written.
  unfoldable pub undo_sentinel : ActiveSegment → M (Unit {0})
  undo_sentinel a = do
    ignore (set_len w a.base_offset a.next_file_pos)
    ignore (seek w a.next_file_pos)

  -- `roll_segment` up to where the segment is closed, for an active segment with records.
  unfoldable pub commit_roll : ActiveSegment → M (Unit {0})
  commit_roll a = do
    attempt w
    write_all w a.base_offset (0 ∷ 0 ∷ 0 ∷ 0 ∷ [])
    or_cleanup (attempt w) (undo_sentinel a)
    or_cleanup (write_index w a.base_offset a.positions) (undo_sentinel a)
    seg_size ← segment_size a
    close_active a seg_size

  unfoldable pub drop_empty : ActiveSegment → M (Unit {0})
  drop_empty a = do set_active none; ignore (remove_segment w a.base_offset)

  unfoldable pub after_roll : SegmentLogConfig → M (Unit {0})
  after_roll config = do
    λ s. write_watermark w s.next_offset s
    enforce_retention w config.retention

  unfoldable pub roll_records : SegmentLogConfig → ActiveSegment → List ℕ → M (Unit {0})
  roll_records config a [] = drop_empty a
  roll_records config a (p ∷ ps) = do commit_roll a; after_roll config

  unfoldable pub roll_segment : SegmentLogConfig → M (Unit {0})
  roll_segment config s = elim s.active [
    | none ↦ (s, ok tt)
    | some a ↦ roll_records config a a.positions s
  ]

  unfoldable pub should_roll : SegmentLogConfig → M Bool
  should_roll config s = elim s.active [
    | none ↦ (s, ok false)
    | some a ↦
        if leb config.max_segment_bytes a.byte_size
        then (s, ok true)
        else (now w >>= λ t. pure (is_old config a t)) s
  ]
