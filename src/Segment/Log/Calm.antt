-- ===== src/Segment/Log/Calm.antt =====
-- adapter-event-log-segment/src/log.rs: the calls succeed where none to the system fails.
use otk_core.Prelude.{
  ℕ, suc, ◌+◌, ◌-◌, ◌≡◌, ◌≤◌, refl, Bool, true, false, none, some, List, [], ◌∷◌, ◌++◌, Bytes, Text,
  Result, ok, err, length, All, ltb, leb, arith, if◌then◌else◌, ◌==◌, Bool-cases, Option-cases, inl,
  inr, u64_max,
}
use otk_core.Event.{OtkEvent}
use otk_core.Segment.{header_len}
use otk_core.Segment.Record.{header_bytes, encode_record}
use otk_core.Timing.Storage.{
  LogEntry, StorageError, RetentionPolicy, indefinite, time_based, size_based, hybrid,
}
use otk_core.Segment.Log.{
  World, SegmentLog, SegmentLogConfig, ClosedSegment, ActiveSegment, M, ◌>>=◌, ◌>>◌, resume, pure,
  ignore, or_cleanup, cleanup_after,
}
use otk_core.Segment.Log.Files.{
  file_at, attempt, now, change, create_file, set_len, write_all, write_record, replace_file,
  write_index, write_watermark, tolerate_missing, remove_segment, delete_segment,
}
use otk_core.Segment.Log.Retention.{
  set_closed, evict_expired, evict_excess, enforce_age, enforce_size, enforce_retention, total_size,
  secs_to_ns,
}
use otk_core.Segment.Log.Roll.{
  set_active, create_segment, new_active, ensure_active, or_pos, segment_size, close_active,
  undo_sentinel, commit_roll, drop_empty, after_roll, roll_records, roll_segment, should_roll,
  is_old,
}
use otk_core.Segment.Log.Append.{write_batch, sync_batch, or_seek_end, query_pos, roll_if_due}

abbrev pub Succeeds : {A : Type 0} → SegmentLog × Result StorageError A → Type 0
Succeeds {A} r = (a : A) × (r.1 ≡ ok a)

pub Succeeds-bind :
    {A B : Type 0} (next : A → M B) (r : SegmentLog × Result StorageError A)
    → Succeeds r
    → ((a : A) (s : SegmentLog) → Succeeds (next a s))
    → Succeeds (resume next r)
Succeeds-bind next (s, ok a) h k = k a s
Succeeds-bind next (s, err e) (a, h) k = absurd (cc)

Succeeds-or_cleanup :
    {A : Type 0} (cleanup : M (Unit {0})) (r : SegmentLog × Result StorageError A)
    → Succeeds r
    → Succeeds (cleanup_after cleanup r)
Succeeds-or_cleanup cleanup (s, ok a) h = h
Succeeds-or_cleanup cleanup (s, err e) (a, h) = absurd (cc)

-- An event that a record can be made of, under a producer id.
abbrev pub Encodes : World → Text → OtkEvent → Type 0
Encodes w producer_id event =
    (offset at : ℕ)
    → (b : Bytes) × (encode_record w.externals (record {
      offset = offset;
      appended_at_ns = at;
      producer_id = producer_id;
      event = event;
    })
        ≡ ok b)

module _ (w : World) (calm : (n : ℕ) → w.fault n ≡ none) where
  attempt-Succeeds : (s : SegmentLog) → Succeeds (attempt w s)
  unfolding attempt
  attempt-Succeeds s = (tt, rw (calm s.calls, attempt) refl)

  pub change-Succeeds : (f : SegmentLog → SegmentLog) (s : SegmentLog) → Succeeds (change w f s)
  unfolding change attempt
  change-Succeeds f s = (tt, rw (calm s.calls, change, attempt) refl)

  write_all-Succeeds :
      (base : ℕ) (bytes : Bytes) (s : SegmentLog) → Succeeds (write_all w base bytes s)
  unfolding write_all
  write_all-Succeeds base bytes s = (tt, rw (calm s.calls, write_all) refl)

  write_record-Succeeds :
      (base : ℕ) (e : LogEntry) (b : Bytes) (s : SegmentLog)
      → encode_record w.externals e ≡ ok b
      → Succeeds (write_record w base e s)
  unfolding write_record
  write_record-Succeeds base e b s h =
      rw (h, write_record)
        (Succeeds-bind
          (λ u s2.
            resume (λ v. pure s2.cursor)
              (cleanup_after (ignore (set_len w base s2.cursor)) (write_all w base b s2)))
          (attempt w s) (attempt-Succeeds s)
          λ u s2.
            Succeeds-bind (λ v. pure s2.cursor)
              (cleanup_after (ignore (set_len w base s2.cursor)) (write_all w base b s2))
              (Succeeds-or_cleanup (ignore (set_len w base s2.cursor)) (write_all w base b s2)
                (write_all-Succeeds base b s2))
              λ v s3. (s2.cursor, refl))

  replace_file-Succeeds :
      (f : SegmentLog → SegmentLog) (s : SegmentLog) → Succeeds (replace_file w f s)
  unfolding replace_file
  replace_file-Succeeds f s =
      Succeeds-bind (λ u. attempt w >> (attempt w >> (change w f >> ignore (attempt w))))
        (attempt w s) (attempt-Succeeds s)
        λ u s2.
          Succeeds-bind (λ u. attempt w >> (change w f >> ignore (attempt w))) (attempt w s2)
            (attempt-Succeeds s2)
            λ u s3.
              Succeeds-bind (λ u. change w f >> ignore (attempt w)) (attempt w s3)
                (attempt-Succeeds s3)
                λ u s4.
                  Succeeds-bind (λ u. ignore (attempt w)) (change w f s4) (change-Succeeds f s4)
                    λ u s5. (tt, refl)

  drop_first-Succeeds :
      (base : ℕ) (cs : List ClosedSegment) (rest : M (Unit {0})) (s : SegmentLog)
      → ((s2 : SegmentLog) → Succeeds (rest s2))
      → Succeeds ((delete_segment w base >> (set_closed cs >> rest)) s)
  unfolding set_closed delete_segment remove_segment tolerate_missing
  drop_first-Succeeds base cs rest s h = rw (calm s.calls, tolerate_missing) (h _)

  evict_expired-Succeeds :
      (cutoff : ℕ) (cs : List ClosedSegment) (s : SegmentLog)
      → Succeeds (evict_expired w cutoff cs s)
  unfolding evict_expired
  evict_expired-Succeeds cutoff [] s = (tt, refl)
  evict_expired-Succeeds cutoff (c ∷ cs) s = elim (Bool-cases (ltb c.last_appended_at_ns cutoff)) [
    | inr young ↦ rw (young, evict_expired) (tt, refl)
    | inl old ↦
        rw (old, evict_expired)
          (drop_first-Succeeds c.base_offset cs (evict_expired w cutoff cs) s
            (evict_expired-Succeeds cutoff cs))
  ]

  evict_excess-Succeeds :
      (max_bytes total : ℕ) (cs : List ClosedSegment) (s : SegmentLog)
      → Succeeds (evict_excess w max_bytes total cs s)
  unfolding evict_excess
  evict_excess-Succeeds max_bytes total [] s = (tt, refl)
  evict_excess-Succeeds max_bytes total (c ∷ cs) s = elim (Bool-cases (ltb max_bytes total)) [
    | inr enough ↦ rw (enough, evict_excess) (tt, refl)
    | inl excess ↦
        rw (excess, evict_excess)
          (drop_first-Succeeds c.base_offset cs (evict_excess w max_bytes (total - c.byte_size) cs)
            s (evict_excess-Succeeds max_bytes (total - c.byte_size) cs))
  ]

  enforce_age-Succeeds : (secs : ℕ) (s : SegmentLog) → Succeeds (enforce_age w secs s)
  unfolding enforce_age now
  enforce_age-Succeeds secs s =
      evict_expired-Succeeds (w.now_ns s.calls - secs_to_ns secs) s.closed
        (record s { calls = suc s.calls })

  enforce_retention-Succeeds :
      (policy : RetentionPolicy) (s : SegmentLog) → Succeeds (enforce_retention w policy s)
  unfolding enforce_retention enforce_size
  enforce_retention-Succeeds indefinite s = (tt, refl)
  enforce_retention-Succeeds (time_based secs) s = enforce_age-Succeeds secs s
  enforce_retention-Succeeds (size_based max_bytes) s =
      evict_excess-Succeeds max_bytes (total_size s) s.closed s
  enforce_retention-Succeeds (hybrid secs max_bytes) s =
      Succeeds-bind (λ u. enforce_size w max_bytes) (enforce_age w secs s)
        (enforce_age-Succeeds secs s)
        λ u s2. evict_excess-Succeeds max_bytes (total_size s2) s2.closed s2

  segment_size-Succeeds : (a : ActiveSegment) (s : SegmentLog) → Succeeds (segment_size w a s)
  unfolding segment_size or_pos attempt
  segment_size-Succeeds a s = (length (file_at s a.base_offset), rw (calm s.calls, or_pos) refl)

  commit_roll-Succeeds : (a : ActiveSegment) (s : SegmentLog) → Succeeds (commit_roll w a s)
  unfolding commit_roll close_active write_index
  commit_roll-Succeeds a s =
      let index = λ (u : Unit {0}).
        or_cleanup (write_index w a.base_offset a.positions) (undo_sentinel w a)
        >> (segment_size w a >>= close_active a) in
      let sync = λ (u : Unit {0}). or_cleanup (attempt w) (undo_sentinel w a) >> index tt in
      Succeeds-bind (λ u. write_all w a.base_offset (0 ∷ 0 ∷ 0 ∷ 0 ∷ []) >> sync tt) (attempt w s)
        (attempt-Succeeds s)
        λ u s2.
          Succeeds-bind sync (write_all w a.base_offset (0 ∷ 0 ∷ 0 ∷ 0 ∷ []) s2)
            (write_all-Succeeds a.base_offset _ s2)
            λ u s3.
              Succeeds-bind index (cleanup_after (undo_sentinel w a) (attempt w s3))
                (Succeeds-or_cleanup (undo_sentinel w a) (attempt w s3) (attempt-Succeeds s3))
                λ u s4.
                  Succeeds-bind (λ u. segment_size w a >>= close_active a)
                    (cleanup_after (undo_sentinel w a) (write_index w a.base_offset a.positions s4))
                    (Succeeds-or_cleanup (undo_sentinel w a)
                      (write_index w a.base_offset a.positions s4) (replace_file-Succeeds _ s4))
                    λ u s5.
                      Succeeds-bind (close_active a) (segment_size w a s5)
                        (segment_size-Succeeds a s5) λ n s6. (tt, refl)

  module _ (config : SegmentLogConfig) where
    after_roll-Succeeds : (s : SegmentLog) → Succeeds (after_roll w config s)
    unfolding after_roll write_watermark
    after_roll-Succeeds s =
        Succeeds-bind (λ u. enforce_retention w config.retention)
          (write_watermark w s.next_offset s) (replace_file-Succeeds _ s)
          λ u s2. enforce_retention-Succeeds config.retention s2

    roll_records-Succeeds :
        (a : ActiveSegment) (ps : List ℕ) (s : SegmentLog) → Succeeds (roll_records w config a ps s)
    unfolding roll_records drop_empty set_active
    roll_records-Succeeds a [] s = (tt, refl)
    roll_records-Succeeds a (p ∷ ps) s =
        Succeeds-bind (λ u. after_roll w config) (commit_roll w a s) (commit_roll-Succeeds a s)
          λ u s2. after_roll-Succeeds s2

    roll_segment-Succeeds : (s : SegmentLog) → Succeeds (roll_segment w config s)
    unfolding roll_segment
    roll_segment-Succeeds s = elim (Option-cases s.active) [
      | inl idle ↦ rw (idle, roll_segment) (tt, refl)
      | inr (a, is_active) ↦ rw (is_active, roll_segment) (roll_records-Succeeds a a.positions s)
    ]

    should_roll-Succeeds : (s : SegmentLog) → Succeeds (should_roll w config s)
    unfolding should_roll now
    should_roll-Succeeds s = elim (Option-cases s.active) [
      | inl idle ↦ rw (idle, should_roll) (false, refl)
      | inr (a, is_active) ↦ elim (Bool-cases (leb config.max_segment_bytes a.byte_size)) [
        | inl full ↦ rw (is_active, should_roll, full) (true, refl)
        | inr room ↦ rw (is_active, should_roll, room) (is_old config a (w.now_ns s.calls), refl)
      ]
    ]

    pub roll_if_due-Succeeds : (s : SegmentLog) → Succeeds (roll_if_due w config s)
    unfolding roll_if_due
    roll_if_due-Succeeds s =
        Succeeds-bind (λ due. if due then roll_segment w config else pure tt)
          (should_roll w config s) (should_roll-Succeeds s) roll
      where
        roll :
            (due : Bool) (s2 : SegmentLog)
            → Succeeds ((if due then roll_segment w config else pure tt) s2)
        roll true s2 = roll_segment-Succeeds s2
        roll false s2 = (tt, refl)

    pub sync_batch-Succeeds :
        (a : ActiveSegment) (s : SegmentLog) → Succeeds (sync_batch w config a s)
    unfolding sync_batch
    sync_batch-Succeeds a s = elim (Bool-cases (config.flush_interval_ms == 0)) [
      | inl synced ↦
          rw (synced, sync_batch)
            (Succeeds-or_cleanup (ignore (set_len w a.base_offset a.next_file_pos)) (attempt w s)
              (attempt-Succeeds s))
      | inr buffered ↦ rw (buffered, sync_batch) (tt, refl)
    ]

  or_seek_end-Succeeds :
      (a : ActiveSegment) (r : SegmentLog × Result StorageError (Unit {0}))
      → Succeeds r
      → Succeeds (or_seek_end w a r)
  unfolding or_seek_end
  or_seek_end-Succeeds a (s, ok u) h = (s.cursor, refl)
  or_seek_end-Succeeds a (s, err e) (u, h) = absurd (cc)

  pub query_pos-Succeeds : (a : ActiveSegment) (s : SegmentLog) → Succeeds (query_pos w a s)
  unfolding query_pos
  query_pos-Succeeds a s = or_seek_end-Succeeds a (attempt w s) (attempt-Succeeds s)

  new_active-Succeeds : (s : SegmentLog) → Succeeds (new_active w s)
  unfolding new_active now create_segment set_active
  new_active-Succeeds s =
      let header =
        header_bytes (record { base_offset = s.next_offset; created_at_ns = w.now_ns s.calls }) in
      let a : ActiveSegment = record {
        base_offset = s.next_offset;
        positions = [];
        byte_size = 0;
        created_at_ns = w.now_ns s.calls;
        next_file_pos = header_len;
        last_appended_at_ns = 0;
      } in
      let last : M ActiveSegment = ignore (attempt w) >> (set_active (some a) >> pure a) in
      let s2 = record s { calls = suc s.calls } in
      Succeeds-bind (λ u. write_all w s.next_offset header >> last)
        (change w (create_file s.next_offset) s2) (change-Succeeds (create_file s.next_offset) s2)
        λ u s3.
          Succeeds-bind (λ v. last) (write_all w s.next_offset header s3)
            (write_all-Succeeds s.next_offset header s3) λ v s4. (a, refl)

  pub ensure_active-Succeeds : (s : SegmentLog) → Succeeds (ensure_active w s)
  unfolding ensure_active
  ensure_active-Succeeds s = elim (Option-cases s.active) [
    | inr (a, is_active) ↦ rw (is_active, ensure_active) (a, refl)
    | inl idle ↦ rw (idle, ensure_active) (new_active-Succeeds s)
  ]

  pub write_batch-Succeeds :
      (a : ActiveSegment) (ts : ℕ) (producer_id : Text) (events : List OtkEvent) (ps : List ℕ)
      (next : ℕ) (s : SegmentLog)
      → All (Encodes w producer_id) events
      → next + length events ≤ u64_max
      → Succeeds (write_batch w a ts producer_id events ps next s)
  unfolding write_batch
  write_batch-Succeeds a ts p [] ps next s h fits = ((ps, next), refl)
  write_batch-Succeeds a ts p (event ∷ events) ps next s (h, hs) fits =
      let room : (next == u64_max) ≡ false = ground arith in
      let (b, enc) = h next ts in
      let entry : LogEntry = record {
        offset = next;
        appended_at_ns = ts;
        producer_id = p;
        event = event;
      } in
      rw (room, write_batch)
        (Succeeds-bind (λ pos. write_batch w a ts p events (ps ++ pos ∷ []) (next + 1))
          (cleanup_after (ignore (set_len w a.base_offset a.next_file_pos))
            (write_record w a.base_offset entry s))
          (Succeeds-or_cleanup (ignore (set_len w a.base_offset a.next_file_pos))
            (write_record w a.base_offset entry s)
            (write_record-Succeeds a.base_offset entry b s enc))
          λ pos s2.
            write_batch-Succeeds a ts p events (ps ++ pos ∷ []) (next + 1) s2 hs (omega arith))
