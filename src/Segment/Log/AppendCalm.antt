-- ===== src/Segment/Log/AppendCalm.antt =====
-- adapter-event-log-segment/src/log.rs: `append` succeeds where no call to the system fails.
use otk_core.Prelude.{
  ℕ, suc, ◌+◌, ◌-◌, ◌≡◌, ◌≤◌, ◌<◌, refl, Bool, true, false, none, List, [], Text, Result, ok, err,
  length, All, ◌⊎◌, length-append, arith, if◌then◌else◌, ◌==◌, u64_max,
}
use otk_core.Event.{OtkEvent}
use otk_core.Timing.Storage.{StorageError}
use otk_core.Segment.Log.{
  World, SegmentLog, SegmentLogConfig, ActiveSegment, M, ◌>>=◌, ◌>>◌, resume, Ends,
}
use otk_core.Segment.Log.Files.{now, seek_to, seek}
use otk_core.Segment.Log.Roll.{ensure_active}
use otk_core.Segment.Log.Append.{
  write_batch, sync_batch, query_pos, commit, append_batch, roll_if_due, append_events, append,
}
use otk_core.Segment.Frames.{Frame}
use otk_core.Segment.Log.Valid.{IsLog, log_entries, IsLog-next}
use otk_core.Segment.Log.Safe.{Ends-always, Safe, calls-Safe, seek-Safe}
use otk_core.Segment.Log.Start.{ensure_active-Safe}
use otk_core.Segment.Log.AppendLog.{Extended, length-stamp, append-Extended}
use otk_core.Segment.Log.Calm.{
  Succeeds, Succeeds-bind, Encodes, change-Succeeds, roll_if_due-Succeeds, sync_batch-Succeeds,
  query_pos-Succeeds, ensure_active-Succeeds, write_batch-Succeeds,
}

Succeeds-if :
    {A : Type 0} (b : Bool) (r r' : SegmentLog × Result StorageError A)
    → b ≡ false
    → Succeeds r'
    → Succeeds (if b then r else r')
Succeeds-if true r r' e h = absurd (cc)
Succeeds-if false r r' e h = h

Succeeds-Ends :
    {A B : Type 0} (Q : A → SegmentLog → Type 0) (E : SegmentLog → Type 0) (next : A → M B)
    (r : SegmentLog × Result StorageError A)
    → Succeeds r
    → Ends Q E r
    → ((a : A) (s : SegmentLog) → Q a s → Succeeds (next a s))
    → Succeeds (resume next r)
Succeeds-Ends Q E next (s, ok a) h q k = k a s q
Succeeds-Ends Q E next (s, err e) (a, h) q k = absurd (cc)

Ends-Succeeds :
    {A : Type 0} (Q : A → SegmentLog → Type 0) (E : SegmentLog → Type 0)
    (r : SegmentLog × Result StorageError A)
    → Succeeds r
    → Ends Q E r
    → (a : A) × (r.1 ≡ ok a) × Q a r.0
Ends-Succeeds Q E (s, ok a) h q = (a, refl, q)
Ends-Succeeds Q E (s, err e) (a, h) q = absurd (cc)

module _ (w : World) (calm : (n : ℕ) → w.fault n ≡ none) (config : SegmentLogConfig) (first : ℕ)
    (fss : List (List Frame)) (fs : List Frame) where
  append_batch-Succeeds :
      (producer_id : Text) (events : List OtkEvent) (s : SegmentLog)
      → All (Encodes w producer_id) events
      → IsLog w.externals first fss fs s
      → s.next_offset + length events ≤ u64_max
      → Succeeds (append_batch w config producer_id events s)
  unfolding append_batch now
  append_batch-Succeeds p events s encodes h room =
      let finish = λ (a : ActiveSegment) (ts : ℕ) (r : List ℕ × ℕ).
        sync_batch w config a >>= λ v. query_pos w a >>= λ pos. commit w a ts r.0 pos r.1 in
      Succeeds-Ends (Safe w.externals first fss fs) (IsLog w.externals first fss fs)
        (λ a s2.
          resume
            (λ u s3.
              resume (finish a (w.now_ns s2.calls))
                (write_batch w a (w.now_ns s2.calls) p events [] s3.next_offset s3))
            (seek w a.next_file_pos (record s2 { calls = suc s2.calls })))
        (ensure_active w s) (ensure_active-Succeeds w calm s)
        (ensure_active-Safe w first fss fs s h)
        λ a s2 safe.
          let ts = w.now_ns s2.calls in
          let s2' = record s2 { calls = suc s2.calls } in
          let safe' = calls-Safe w.externals first fss fs a (suc s2.calls) s2 safe in
          Succeeds-Ends (λ u. Safe w.externals first fss fs a) (Safe w.externals first fss fs a)
            (λ u s3. resume (finish a ts) (write_batch w a ts p events [] s3.next_offset s3))
            (seek w a.next_file_pos s2') (seek-Succeeds a s2')
            (Ends-always (Safe w.externals first fss fs a) (seek w a.next_file_pos s2')
              (seek-Safe w.externals first fss fs w a a.next_file_pos s2' safe'))
            λ u s3 safe3.
              let now_at = IsLog-next w.externals first fss fs s3 safe3.0 in
              let was_at = IsLog-next w.externals first fss fs s h in
              Succeeds-bind (finish a ts) (write_batch w a ts p events [] s3.next_offset s3)
                (write_batch-Succeeds w calm a ts p events [] s3.next_offset s3 encodes
                  (omega arith))
                λ r s4.
                  Succeeds-bind (λ v. query_pos w a >>= λ pos. commit w a ts r.0 pos r.1)
                    (sync_batch w config a s4) (sync_batch-Succeeds w calm config a s4)
                    λ v s5.
                      Succeeds-bind (λ pos. commit w a ts r.0 pos r.1) (query_pos w a s5)
                        (query_pos-Succeeds w calm a s5) λ pos s6. commits a ts r.0 pos r.1 s6
    where
      seek-Succeeds : (a : ActiveSegment) (s2 : SegmentLog) → Succeeds (seek w a.next_file_pos s2)
      seek-Succeeds a s2 = unfold seek in change-Succeeds w calm (seek_to a.next_file_pos) s2

      commits :
          (a : ActiveSegment) (ts : ℕ) (ps : List ℕ) (pos next : ℕ) (s2 : SegmentLog)
          → Succeeds (commit w a ts ps pos next s2)
      commits a ts ps pos next s2 = unfold commit in (tt, refl)

  -- Where no call to the system fails, an append to a valid log that is not poisoned, of events that
  -- can be encoded under a producer id that is a string and not empty, succeeds: the log is valid and
  -- holds its entries and then the batch in order, less what the retention policy has dropped, and the
  -- offset returned is that of the last entry. There is at least one event, the offsets fit in a u64,
  -- and so does the clock.
  pub append_calm :
      (producer_id : Text) (events : List OtkEvent) (s : SegmentLog)
      → ((n : ℕ) → w.now_ns n ≤ u64_max)
      → w.externals.from_utf8 producer_id ≡ ok producer_id
      → All (Encodes w producer_id) events
      → IsLog w.externals first fss fs s
      → s.poisoned ≡ false
      → 0 < length events
      → 0 < length producer_id
      → s.next_offset + length events ≤ u64_max
      → (o : ℕ) × ((append w config producer_id events s).1 ≡ ok o)
        × Extended w.externals config.retention first
            (log_entries fss fs)
            producer_id
            events
            (append w config producer_id events s).0
        × (o + 1 ≡ s.next_offset + length events)
  append_calm p events s clock utf8 encodes h sound some_event named room =
      let es = log_entries fss fs in
      let extended = Extended w.externals config.retention first es p events in
      let (o, done, ((new, same, kept), at)) =
        Ends-Succeeds (λ o s'. extended s' × (o + 1 ≡ s'.next_offset))
          (λ s'. IsLog w.externals first fss fs s' ⊎ extended s') (append w config p events s)
          (succeeds s sound h room)
          (append-Extended w config first fss fs p events s clock utf8 h) in
      let was_at = IsLog-next w.externals first fss fs s h in
      let now_at = kept.7 in
      (
        o,
        done,
        (new, same, kept),
        omega (arith, length-append es new, length-stamp p new events same),
      )
    where
      succeeds :
          (s2 : SegmentLog)
          → s2.poisoned ≡ false
          → IsLog w.externals first fss fs s2
          → s2.next_offset + length events ≤ u64_max
          → Succeeds (append w config p events s2)
      succeeds s2 sound2 h2 room2 =
          unfold append append_events in
          Succeeds-if s2.poisoned _ _ sound2 (
            Succeeds-if (length events == 0) _ _ (ground arith) (
              Succeeds-if (length p == 0) _ _ (ground arith) (
                Succeeds-bind (λ u. roll_if_due w config >> λ s3. (s3, ok (s3.next_offset - 1)))
                  (append_batch w config p events s2)
                  (append_batch-Succeeds p events s2 encodes h2 room2)
                  λ u s3.
                    Succeeds-bind (λ v s4. (s4, ok (s4.next_offset - 1))) (roll_if_due w config s3)
                      (roll_if_due-Succeeds w calm config s3) λ v s4. (s4.next_offset - 1, refl))))
