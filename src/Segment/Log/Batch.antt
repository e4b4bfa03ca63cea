-- ===== src/Segment/Log/Batch.antt =====
-- adapter-event-log-segment/src/log.rs: `append` up to its commit, whatever calls fail.
use otk_core.Prelude.{
  ℕ, suc, ◌+◌, ◌≡◌, ◌≤◌, refl, sym, ap, List, [], ◌∷◌, ◌++◌, Bytes, Text, ok, length, take,
  length-append, append_assoc, append-nil, arith, subst, ◌==◌, Bool-cases, Result-cases, inl, inr,
  u64_max,
}
use otk_core.Event.{OtkEvent}
use otk_core.Segment.Record.{encode_record}
use otk_core.Segment.Record.RoundTrip.{IsEntry}
use otk_core.Segment.Frames.{Frame}
use otk_core.Timing.Storage.{LogEntry, stamp, contents_of}
use otk_core.Segment.Log.{
  World, SegmentLog, ActiveSegment, resume, pure, ignore, cleanup_after, Ends,
}
use otk_core.Segment.Log.Files.{file_at, attempt, set_len, write_bytes, write_all, write_record}
use otk_core.Segment.Log.Append.{write_batch}
use otk_core.Segment.Log.Valid.{HasRecords, entries}
use otk_core.Segment.Log.Keep.{HasRecords-written}
use otk_core.Segment.Log.Safe.{
  Ends-bind, Ends-from, Ends-mono, Ends-or_cleanup, attempt_state, write_all-Ends, Safe, calls-Safe,
  set_len-Safe, write_bytes-Safe, file_at_records,
}

module _ (w : World) (first : ℕ) (fss : List (List Frame)) (fs : List Frame)
    (a : ActiveSegment) where
  -- Records written after those of the active segment, which does not have them yet.
  abbrev pub IsBatch : List ℕ → List Frame → SegmentLog → Type 0
  IsBatch ps gs s =
      Safe w.externals first fss fs a s
      × (a.next_file_pos ≤ s.cursor)
      × HasRecords w.externals s.segs a.base_offset s.cursor (a.positions ++ ps) (fs ++ gs)

  pub attempt-IsBatch :
      (ps : List ℕ) (gs : List Frame) (s : SegmentLog)
      → IsBatch ps gs s
      → IsBatch ps gs (attempt w s).0
  attempt-IsBatch ps gs s (safe, le, records) =
      subst (IsBatch ps gs) (sym (attempt_state w s))
        (calls-Safe w.externals first fss fs a (suc s.calls) s safe, le, records)

  write_bytes-IsBatch :
      (ps : List ℕ) (gs : List Frame) (e : LogEntry) (b : Bytes) (s : SegmentLog)
      → IsBatch ps gs s
      → encode_record w.externals e ≡ ok b
      → IsEntry w.externals e
      → e.offset ≡ a.base_offset + length (fs ++ gs)
      → IsBatch (ps ++ s.cursor ∷ []) (gs ++ (e, b) ∷ []) (write_bytes a.base_offset b s)
  unfolding write_bytes
  write_bytes-IsBatch ps gs e b s (safe, le, records) enc is_entry number =
      let (here, inside) = file_at_records w.externals first fss fs a s safe in
      (
        write_bytes-Safe w.externals first fss fs a b s safe le,
        omega arith,
        rw (← append_assoc a.positions ps (s.cursor ∷ []), ← append_assoc fs gs ((e, b) ∷ []))
            (HasRecords-written w.externals s.segs a.base_offset s.cursor (a.positions ++ ps)
              (fs ++ gs) (file_at s a.base_offset) e b records here enc is_entry number),
      )

  write_record-IsBatch :
      (ps : List ℕ) (gs : List Frame) (e : LogEntry) (s : SegmentLog)
      → IsBatch ps gs s
      → IsEntry w.externals e
      → e.offset ≡ a.base_offset + length (fs ++ gs)
      → Ends
          (λ pos s'. (b : Bytes) × IsBatch (ps ++ pos ∷ []) (gs ++ (e, b) ∷ []) s')
          (Safe w.externals first fss fs a)
          (write_record w a.base_offset e s)
  unfolding write_record
  write_record-IsBatch ps gs e s batch is_entry number =
      elim (Result-cases (encode_record w.externals e)) [
        | inr (m, enc) ↦ rw (enc, write_record) batch.0
        | inl (b, enc) ↦
            rw (enc, write_record)
              (Ends-bind (λ u. IsBatch ps gs)
                (λ pos s'. (c : Bytes) × IsBatch (ps ++ pos ∷ []) (gs ++ (e, c) ∷ []) s')
                (Safe w.externals first fss fs a)
                (λ u s2.
                  resume (λ v. pure s2.cursor)
                    (cleanup_after (ignore (set_len w a.base_offset s2.cursor))
                      (write_all w a.base_offset b s2)))
                (attempt w s)
                (Ends-from (IsBatch ps gs) (Safe w.externals first fss fs a) (attempt w s)
                  (attempt-IsBatch ps gs s batch) (λ s2 batch2. batch2.0))
                λ u s2 batch2.
                  Ends-bind (λ v s3. IsBatch (ps ++ s2.cursor ∷ []) (gs ++ (e, b) ∷ []) s3)
                    (λ pos s3. (c : Bytes) × IsBatch (ps ++ pos ∷ []) (gs ++ (e, c) ∷ []) s3)
                    (Safe w.externals first fss fs a) (λ v. pure s2.cursor)
                    (cleanup_after (ignore (set_len w a.base_offset s2.cursor))
                      (write_all w a.base_offset b s2))
                    (Ends-or_cleanup (λ v s3. IsBatch (ps ++ s2.cursor ∷ []) (gs ++ (e, b) ∷ []) s3)
                      (Safe w.externals first fss fs a) (Safe w.externals first fss fs a)
                      (ignore (set_len w a.base_offset s2.cursor)) (write_all w a.base_offset b s2)
                      (write_all-Ends w (IsBatch (ps ++ s2.cursor ∷ []) (gs ++ (e, b) ∷ []))
                        (Safe w.externals first fss fs a) a.base_offset b s2
                        (write_bytes-IsBatch ps gs e b s2 batch2 enc is_entry number)
                        (λ n.
                          write_bytes-Safe w.externals first fss fs a (take n b) s2 batch2.0
                            batch2.1))
                      (λ s3 safe.
                        set_len-Safe w.externals first fss fs w a s2.cursor s3 batch2.1 safe))
                    λ v s3 batch3. (b, batch3))
      ]

  -- What the loop over the events ends with: records of just these events, or the log as it was.
  abbrev pub BatchDone : Text → List OtkEvent → List Frame → ℕ → List ℕ × ℕ → SegmentLog → Type 0
  BatchDone producer_id events gs next r s =
      (new : List Frame) × IsBatch r.0 (gs ++ new) s
      × (contents_of (entries new) ≡ stamp producer_id events)
      × (r.1 ≡ next + length events)
      × (r.1 ≤ u64_max)

  pub write_batch-BatchDone :
      (ts : ℕ) (producer_id : Text) (events : List OtkEvent) (ps : List ℕ) (gs : List Frame)
      (next : ℕ) (s : SegmentLog)
      → ts ≤ u64_max
      → w.externals.from_utf8 producer_id ≡ ok producer_id
      → IsBatch ps gs s
      → next ≡ a.base_offset + length (fs ++ gs)
      → next ≤ u64_max
      → Ends
          (BatchDone producer_id events gs next)
          (Safe w.externals first fss fs a)
          (write_batch w a ts producer_id events ps next s)
  unfolding write_batch
  write_batch-BatchDone ts p [] ps gs next s at utf8 batch number fits =
      ([], rw (append-nil gs) batch, refl, omega arith, fits)
  write_batch-BatchDone ts p (event ∷ events) ps gs next s at utf8 batch number fits =
      let entry : LogEntry = record {
        offset = next;
        appended_at_ns = ts;
        producer_id = p;
        event = event;
      } in
      let safe_state = Safe w.externals first fss fs a in
      elim (Bool-cases (next == u64_max)) [
        | inl exhausted ↦
            rw (exhausted, write_batch)
              (set_len-Safe w.externals first fss fs w a a.next_file_pos s (omega arith) batch.0)
        | inr room ↦
            rw (room, write_batch)
              (Ends-bind
                (λ pos s'. (b : Bytes) × IsBatch (ps ++ pos ∷ []) (gs ++ (entry, b) ∷ []) s')
                (BatchDone p (event ∷ events) gs next) safe_state
                (λ pos. write_batch w a ts p events (ps ++ pos ∷ []) (next + 1))
                (cleanup_after (ignore (set_len w a.base_offset a.next_file_pos))
                  (write_record w a.base_offset entry s))
                (Ends-or_cleanup
                  (λ pos s'. (b : Bytes) × IsBatch (ps ++ pos ∷ []) (gs ++ (entry, b) ∷ []) s')
                  safe_state safe_state (ignore (set_len w a.base_offset a.next_file_pos))
                  (write_record w a.base_offset entry s)
                  (write_record-IsBatch ps gs entry s batch
                    (record { offset_fits = fits; appended_fits = at; is_utf8 = utf8 }) number)
                  (λ s3 safe.
                    set_len-Safe w.externals first fss fs w a a.next_file_pos s3 (omega arith)
                      safe))
                λ pos s2 written.
                  let (b, batch2) = written in
                  let more = gs ++ (entry, b) ∷ [] in
                  let counted : length (fs ++ more) ≡ length (fs ++ gs) + 1 = omega (
                    arith,
                    length-append fs gs,
                    length-append fs more,
                    length-append gs ((entry, b) ∷ []),
                  ) in
                  Ends-mono (BatchDone p events more (next + 1))
                    (BatchDone p (event ∷ events) gs next) safe_state safe_state
                    (write_batch w a ts p events (ps ++ pos ∷ []) (next + 1) s2)
                    (write_batch-BatchDone ts p events (ps ++ pos ∷ []) more (next + 1) s2 at utf8
                      batch2 (omega arith) (ground arith))
                    (λ r s3 done.
                      let (new, batch3, same, count, below) = done in
                      (
                        (entry, b) ∷ new,
                        subst (λ l. IsBatch r.0 l s3) (append_assoc gs ((entry, b) ∷ []) new)
                            batch3,
                        ap (◌∷◌ (p, event)) same,
                        omega arith,
                        below,
                      ))
                    (λ s3 safe. safe))
      ]
