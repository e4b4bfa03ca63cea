-- ===== src/Segment/Log/Commit.antt =====
-- adapter-event-log-segment/src/log.rs: `append` up to its roll, whatever calls fail.
use otk_core.Prelude.{
  ℕ, suc, ◌+◌, ◌-◌, ◌≡◌, ◌≤◌, refl, sym, ap, ◌∙◌, true, List, [], ◌∷◌, ◌++◌, Text, Result, ok, err,
  length, length-append, append-nil, arith, subst, ◌==◌, Bool-cases, inl, inr, u64_max,
}
use otk_core.Event.{OtkEvent}
use otk_core.Segment.{header_len}
use otk_core.Segment.Frames.{Frame}
use otk_core.Timing.Storage.{StorageError, stamp, contents_of}
use otk_core.Segment.Log.{
  World, SegmentLog, SegmentLogConfig, ActiveSegment, ◌>>=◌, resume, ignore, Ends,
}
use otk_core.Segment.Log.Files.{file_at, attempt, now, seek_to, seek, set_len}
use otk_core.Segment.Log.Roll.{ensure_active}
use otk_core.Segment.Log.Append.{
  write_batch, sync_batch, seek_end, or_seek_end, query_pos, commit, append_batch,
}
use otk_core.Segment.Log.Valid.{HasRecords, IsLog, entries}
use otk_core.Segment.Log.Keep.{HasRecords-grow}
use otk_core.Segment.Log.Safe.{
  Ends-bind, Ends-from, Ends-mono, Ends-or_cleanup, attempt_state, change-Ends, Safe, Safe-parts,
  calls-Safe, set_len-Safe, file_at_records,
}
use otk_core.Segment.Log.Batch.{IsBatch, BatchDone, attempt-IsBatch, write_batch-BatchDone}
use otk_core.Segment.Log.Start.{ensure_active-Safe}

length-stamp :
    (p : Text) (new : List Frame) (events : List OtkEvent)
    → contents_of (entries new) ≡ stamp p events
    → length new ≡ length events
length-stamp p new events h = sym (size_entries new) ∙ ap length h ∙ size_stamp events
  where
    size_entries : (fs : List Frame) → length (contents_of (entries fs)) ≡ length fs
    size_entries [] = refl
    size_entries (f ∷ fs) = ap suc (size_entries fs)

    size_stamp : (es : List OtkEvent) → length (stamp p es) ≡ length es
    size_stamp [] = refl
    size_stamp (e ∷ es) = ap suc (size_stamp es)

module _ (w : World) (first : ℕ) (fss : List (List Frame)) (fs : List Frame) where
  abbrev Valid : SegmentLog → Type 0
  Valid = IsLog w.externals first fss fs

  -- The records of a batch are appended to those of the active segment, at whose end the cursor is.
  abbrev pub Appended : Text → List OtkEvent → SegmentLog → Type 0
  Appended producer_id events s =
      (a : ActiveSegment) × (new : List Frame) × Safe w.externals first fss (fs ++ new) a s
      × (s.cursor ≡ a.next_file_pos)
      × (contents_of (entries new) ≡ stamp producer_id events)

  module _ (a : ActiveSegment) where
    sync_batch-IsBatch :
        (config : SegmentLogConfig) (ps : List ℕ) (gs : List Frame) (s : SegmentLog)
        → IsBatch w first fss fs a ps gs s
        → Ends (λ u. IsBatch w first fss fs a ps gs) Valid (sync_batch w config a s)
    unfolding sync_batch
    sync_batch-IsBatch config ps gs s batch = elim (Bool-cases (config.flush_interval_ms == 0)) [
      | inr buffered ↦ rw (buffered, sync_batch) batch
      | inl synced ↦
          rw (synced, sync_batch)
            (Ends-or_cleanup (λ u. IsBatch w first fss fs a ps gs) (IsBatch w first fss fs a ps gs)
              Valid (ignore (set_len w a.base_offset a.next_file_pos)) (attempt w s)
              (Ends-from (IsBatch w first fss fs a ps gs) (IsBatch w first fss fs a ps gs)
                (attempt w s) (attempt-IsBatch w first fss fs a ps gs s batch) (λ s2 h. h))
              λ s2 h.
                (set_len-Safe w.externals first fss fs w a a.next_file_pos s2 (omega arith) h.0).0)
    ]

    poisoned-Valid : (s : SegmentLog) → Valid s → Valid (record s { poisoned = true })
    poisoned-Valid s h = record {
      mid = h.mid;
      closed_run = h.closed_run;
      active_run = h.active_run;
      fits = h.fits;
    }

    -- The place found is the cursor, beyond the records that are written.
    abbrev AtCursor : List ℕ → List Frame → ℕ → SegmentLog → Type 0
    AtCursor ps gs pos s = IsBatch w first fss fs a ps gs s × (s.cursor ≡ pos)

    seek_end-AtCursor :
        (ps : List ℕ) (gs : List Frame) (e1 : StorageError)
        (r : SegmentLog × Result StorageError (Unit {0}))
        → IsBatch w first fss fs a ps gs r.0
        → Ends (AtCursor ps gs) Valid (seek_end w (length (file_at r.0 a.base_offset)) e1 r)
    unfolding seek_end
    seek_end-AtCursor ps gs e1 (s, err e) (safe, le, records) = poisoned-Valid s safe.0
    seek_end-AtCursor ps gs e1 (s, ok u) (safe, le, records) =
        let (h, is_active) = safe in
        let (here, inside) = file_at_records w.externals first fss fs a s safe in
        let end = length (file_at s a.base_offset) in
        let (file, found, fits, placed) = records in
        let same : file ≡ file_at s a.base_offset = ground arith in
        let reach : s.cursor ≤ end = subst (λ g. s.cursor ≤ length g) same fits in
        (
          (
            (
              record {
                mid = h.mid;
                closed_run = h.closed_run;
                active_run = h.active_run;
                fits = h.fits;
              },
              is_active,
            ),
            omega arith,
            HasRecords-grow w.externals s.segs a.base_offset s.cursor end (a.positions ++ ps)
                (fs ++ gs) (file_at s a.base_offset) records here reach (omega arith),
          ),
          refl,
        )

    or_seek_end-AtCursor :
        (ps : List ℕ) (gs : List Frame) (r : SegmentLog × Result StorageError (Unit {0}))
        → IsBatch w first fss fs a ps gs r.0
        → Ends (AtCursor ps gs) Valid (or_seek_end w a r)
    unfolding or_seek_end file_at
    or_seek_end-AtCursor ps gs (s, ok u) batch = (batch, refl)
    or_seek_end-AtCursor ps gs (s, err e) batch =
        let same : file_at (attempt w s).0 a.base_offset ≡ file_at s a.base_offset =
          ap (λ t. file_at t a.base_offset) (attempt_state w s) in
        subst (λ g. Ends (AtCursor ps gs) Valid (seek_end w (length g) e (attempt w s))) same
          (seek_end-AtCursor ps gs e (attempt w s) (attempt-IsBatch w first fss fs a ps gs s batch))

    query_pos-AtCursor :
        (ps : List ℕ) (gs : List Frame) (s : SegmentLog)
        → IsBatch w first fss fs a ps gs s
        → Ends (AtCursor ps gs) Valid (query_pos w a s)
    unfolding query_pos
    query_pos-AtCursor ps gs s batch =
        or_seek_end-AtCursor ps gs (attempt w s) (attempt-IsBatch w first fss fs a ps gs s batch)

    -- The commit: the records of the batch are the log's.
    commit-Appended :
        (ts pos next : ℕ) (producer_id : Text) (events : List OtkEvent) (ps : List ℕ)
        (new : List Frame) (s : SegmentLog)
        → AtCursor ps new pos s
        → contents_of (entries new) ≡ stamp producer_id events
        → next ≡ a.base_offset + length fs + length events
        → next ≤ u64_max
        → Ends (λ u. Appended producer_id events) Valid (commit w a ts ps pos next s)
    unfolding commit
    commit-Appended ts pos next p events ps new s ((safe, le, records), at) same count fits =
        let (mid, run, base, end, old) = Safe-parts w.externals first fss fs a s safe in
        let a' : ActiveSegment = record a {
          positions = a.positions ++ ps;
          next_file_pos = pos;
          byte_size = pos - header_len;
          last_appended_at_ns = ts;
        } in
        let size : length new ≡ length events = length-stamp p new events same in
        (
          a',
          new,
          (
            record {
              mid = mid;
              closed_run = run;
              active_run = (
                base,
                omega (arith, length-append fs new),
                subst (λ k. HasRecords w.externals s.segs k pos (a.positions ++ ps) (fs ++ new))
                    base
                    (subst
                      (λ k.
                        HasRecords w.externals s.segs a.base_offset k (a.positions ++ ps)
                          (fs ++ new))
                      at records),
              );
              fits = fits;
            },
            refl,
          ),
          at,
          same,
        )

  -- From `ensure_active` on, once there is an active segment.
  write_batch-Appended :
      (config : SegmentLogConfig) (producer_id : Text) (events : List OtkEvent) (a : ActiveSegment)
      (s : SegmentLog)
      → ((n : ℕ) → w.now_ns n ≤ u64_max)
      → w.externals.from_utf8 producer_id ≡ ok producer_id
      → Safe w.externals first fss fs a s
      → Ends
          (λ u. Appended producer_id events)
          Valid
          (resume
            (λ u s2.
              resume
                (λ r. sync_batch w config a >>= λ v.
                  query_pos w a >>= λ pos. commit w a (w.now_ns s.calls) r.0 pos r.1)
                (write_batch w a (w.now_ns s.calls) producer_id events [] s2.next_offset s2))
            (seek w a.next_file_pos (record s { calls = suc s.calls })))
  unfolding seek
  write_batch-Appended config p events a s clock utf8 safe =
      let ts = w.now_ns s.calls in
      let added = Appended p events in
      let batch = IsBatch w first fss fs a in
      Ends-bind (λ u. batch [] []) (λ u. added) Valid
        (λ u s2.
          resume
            (λ r. sync_batch w config a >>= λ v. query_pos w a >>= λ pos. commit w a ts r.0 pos r.1)
            (write_batch w a ts p events [] s2.next_offset s2))
        (seek w a.next_file_pos (record s { calls = suc s.calls }))
        (change-Ends w (batch [] []) Valid (seek_to a.next_file_pos)
          (record s { calls = suc s.calls }) (sought-IsBatch (suc (suc s.calls)))
          (calls-Safe w.externals first fss fs a (suc (suc s.calls)) s safe).0)
        λ u s2 batch2.
          let (mid, run, base, end, old) = Safe-parts w.externals first fss fs a s2 batch2.0 in
          let fit = batch2.0.0.fits in
          Ends-bind (BatchDone w first fss fs a p events [] s2.next_offset) (λ u. added) Valid
            (λ r. sync_batch w config a >>= λ v. query_pos w a >>= λ pos. commit w a ts r.0 pos r.1)
            (write_batch w a ts p events [] s2.next_offset s2)
            (Ends-mono (BatchDone w first fss fs a p events [] s2.next_offset)
              (BatchDone w first fss fs a p events [] s2.next_offset)
              (Safe w.externals first fss fs a) Valid
              (write_batch w a ts p events [] s2.next_offset s2)
              (write_batch-BatchDone w first fss fs a ts p events [] [] s2.next_offset s2
                (clock s.calls) utf8 batch2 (rw (append-nil fs) (sym end)) fit)
              (λ r s3 done. done) (λ s3 kept. kept.0))
            λ r s3 done.
              let (new, batch3, same, count, below) = done in
              Ends-bind (λ v. batch r.0 new) (λ u. added) Valid
                (λ v. query_pos w a >>= λ pos. commit w a ts r.0 pos r.1) (sync_batch w config a s3)
                (sync_batch-IsBatch a config r.0 new s3 batch3)
                λ v s4 batch4.
                  Ends-bind (AtCursor a r.0 new) (λ u. added) Valid
                    (λ pos. commit w a ts r.0 pos r.1) (query_pos w a s4)
                    (query_pos-AtCursor a r.0 new s4 batch4)
                    λ pos s5 at.
                      commit-Appended a ts pos r.1 p events r.0 new s5 at same (omega arith) below
    where
      sought-IsBatch :
          (n : ℕ)
          → IsBatch w first fss fs a [] [] (seek_to a.next_file_pos (record s { calls = n }))
      sought-IsBatch n =
          let (h, is_active) = safe in
          let (mid, run, base, end, old) = Safe-parts w.externals first fss fs a s safe in
          (
            (
              record {
                mid = h.mid;
                closed_run = h.closed_run;
                active_run = h.active_run;
                fits = h.fits;
              },
              is_active,
            ),
            omega arith,
            rw (append-nil a.positions, append-nil fs) old,
          )

  -- However `append` goes up to its roll, it has added its events to the log, or left the log as it was.
  pub append_batch-Appended :
      (config : SegmentLogConfig) (producer_id : Text) (events : List OtkEvent) (s : SegmentLog)
      → ((n : ℕ) → w.now_ns n ≤ u64_max)
      → w.externals.from_utf8 producer_id ≡ ok producer_id
      → Valid s
      → Ends (λ u. Appended producer_id events) Valid (append_batch w config producer_id events s)
  unfolding append_batch now
  append_batch-Appended config p events s clock utf8 h =
      Ends-bind (Safe w.externals first fss fs) (λ u. Appended p events) Valid
        (λ a s2.
          resume
            (λ u s3.
              resume
                (λ r. sync_batch w config a >>= λ v.
                  query_pos w a >>= λ pos. commit w a (w.now_ns s2.calls) r.0 pos r.1)
                (write_batch w a (w.now_ns s2.calls) p events [] s3.next_offset s3))
            (seek w a.next_file_pos (record s2 { calls = suc s2.calls })))
        (ensure_active w s) (ensure_active-Safe w first fss fs s h)
        λ a s2 safe. write_batch-Appended config p events a s2 clock utf8 safe
