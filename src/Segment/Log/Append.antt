-- ===== src/Segment/Log/Append.antt =====
-- adapter-event-log-segment/src/log.rs: `append`.
use otk_core.Prelude.{
  ℕ, ◌+◌, ◌-◌, ◌==◌, some, true, List, [], ◌∷◌, ◌++◌, Text, text, if◌then◌else◌, length, u64_max,
  Result, ok, err,
}
use otk_core.Event.{OtkEvent}
use otk_core.Timing.Storage.{LogEntry, StorageError, invalid_input, corrupted}
use otk_core.Segment.{header_len}
use otk_core.Segment.Log.{
  World, SegmentLog, SegmentLogConfig, ActiveSegment, M, ◌>>=◌, ◌>>◌, pure, fail, ignore,
  or_cleanup,
}
use otk_core.Segment.Log.Files.{attempt, now, file_at, set_len, seek, write_record}
use otk_core.Segment.Log.Roll.{ensure_active, should_roll, roll_segment}

abbrev pub poisoned_msg : Text
poisoned_msg =
    text "log is poisoned: position query failed after a durable write; reopen the log to recover"

module _ (w : World) where
  -- The loop over the events: the places of the records, and the offset after the last.
  unfoldable pub write_batch :
      ActiveSegment → ℕ → Text → List OtkEvent → List ℕ → ℕ → M (List ℕ × ℕ)
  write_batch a ts producer_id [] new_positions next = pure (new_positions, next)
  write_batch a ts producer_id (event ∷ events) new_positions next =
      let cleanup = ignore (set_len w a.base_offset a.next_file_pos) in
      let entry : LogEntry = record {
        offset = next;
        appended_at_ns = ts;
        producer_id = producer_id;
        event = event;
      } in
      let one = or_cleanup (write_record w a.base_offset entry) cleanup in
      let rest =
        one >>= λ pos. write_batch a ts producer_id events (new_positions ++ pos ∷ []) (next + 1) in
      if next == u64_max
      then cleanup >> fail (invalid_input (text "offset space exhausted"))
      else rest

  unfoldable pub sync_batch : SegmentLogConfig → ActiveSegment → M (Unit {0})
  sync_batch config a =
      if config.flush_interval_ms == 0
      then or_cleanup (attempt w) (ignore (set_len w a.base_offset a.next_file_pos))
      else pure tt

  -- `stream_position`, or else `seek(SeekFrom::End(0))`; where both fail the log is poisoned.
  unfoldable pub seek_end :
      ℕ
      → StorageError
      → SegmentLog × Result StorageError (Unit {0})
      → SegmentLog × Result StorageError ℕ
  seek_end end e1 (s, ok _) = (record s { cursor = end }, ok end)
  seek_end end e1 (s, err e) = (record s { poisoned = true }, err e1)

  unfoldable pub or_seek_end :
      ActiveSegment
      → SegmentLog × Result StorageError (Unit {0})
      → SegmentLog × Result StorageError ℕ
  unfolding seek_end
  or_seek_end a (s, ok _) = (s, ok s.cursor)
  or_seek_end a (s, err e1) = seek_end (length (file_at s a.base_offset)) e1 (attempt w s)

  unfoldable pub query_pos : ActiveSegment → M ℕ
  unfolding or_seek_end
  query_pos a s = or_seek_end a (attempt w s)

  unfoldable pub commit : ActiveSegment → ℕ → List ℕ → ℕ → ℕ → M (Unit {0})
  commit a ts new_positions new_file_pos next s = (
    record s {
      active = some (record a {
        positions = a.positions ++ new_positions;
        next_file_pos = new_file_pos;
        byte_size = new_file_pos - header_len;
        last_appended_at_ns = ts;
      });
      next_offset = next;
    },
    ok tt,
  )

  -- What is appended, up to the commit of the state.
  unfoldable pub append_batch : SegmentLogConfig → Text → List OtkEvent → M (Unit {0})
  append_batch config producer_id events = do
    a ← ensure_active w
    ts ← now w
    seek w a.next_file_pos
    (new_positions, next) ← λ s. write_batch a ts producer_id events [] s.next_offset s
    sync_batch config a
    new_file_pos ← query_pos a
    commit a ts new_positions new_file_pos next

  unfoldable pub roll_if_due : SegmentLogConfig → M (Unit {0})
  roll_if_due config = do due ← should_roll w config; if due then roll_segment w config else pure tt

  unfoldable pub append_events : SegmentLogConfig → Text → List OtkEvent → M ℕ
  append_events config producer_id events = do
    append_batch config producer_id events
    roll_if_due config
    λ s. (s, ok (s.next_offset - 1))

  unfoldable pub append : SegmentLogConfig → Text → List OtkEvent → M ℕ
  append config producer_id events s =
      if s.poisoned
      then fail (corrupted poisoned_msg) s
      else if length events == 0
      then fail (invalid_input (text "events slice must not be empty")) s
      else if length producer_id == 0
      then fail (invalid_input (text "producer_id must not be empty")) s
      else append_events config producer_id events s
