-- ===== src/Segment/Log/AppendLog.antt =====
-- adapter-event-log-segment/src/log.rs: what `append` does to the entries of the log, whatever calls fail.
use otk_core.Prelude.{
  ℕ, suc, ◌+◌, ◌-◌, ◌≡◌, ◌≤◌, ◌<◌, refl, sym, ap, ◌∙◌, List, [], ◌∷◌, ◌++◌, Text, ok, length,
  length-append, append_assoc, arith, subst, ◌==◌, ◌⊎◌, inl, inr, u64_max,
}
use mathlib.Core.List.{flatten, map-append}
use otk_core.Event.{OtkEvent}
use otk_core.Segment.{Externals}
use otk_core.Segment.Frames.{Frame}
use otk_core.Timing.Storage.{LogEntry, RetentionPolicy, stamp, contents_of}
use otk_core.Segment.Log.{World, SegmentLog, SegmentLogConfig, M, ◌>>◌, Ends}
use otk_core.Segment.Log.Append.{append_batch, roll_if_due, append_events, append}
use otk_core.Segment.Log.Valid.{IsLog, entries, log_entries}
use otk_core.Segment.Log.Safe.{Ends-bind, Ends-mono, Ends-if}
use otk_core.Segment.Log.Commit.{Appended, append_batch-Appended}
use otk_core.Segment.Log.Retained.{Retained}
use otk_core.Segment.Log.RollKept.{roll_if_due-Retained}

-- The log holds its entries and then those of a batch, less what its policy has dropped.
abbrev pub Extended :
    Externals → RetentionPolicy → ℕ → List LogEntry → Text → List OtkEvent → SegmentLog → Type 0
Extended x policy first es producer_id events s =
    (new : List LogEntry) × (contents_of new ≡ stamp producer_id events)
    × Retained x policy (es ++ new) (first + length (es ++ new)) s

pub length-stamp :
    (p : Text) (new : List LogEntry) (events : List OtkEvent)
    → contents_of new ≡ stamp p events
    → length new ≡ length events
length-stamp p new events same = sym (size_contents new) ∙ ap length same ∙ size_stamp events
  where
    size_contents : (es : List LogEntry) → length (contents_of es) ≡ length es
    size_contents [] = refl
    size_contents (e ∷ es) = ap suc (size_contents es)

    size_stamp : (es : List OtkEvent) → length (stamp p es) ≡ length es
    size_stamp [] = refl
    size_stamp (e ∷ es) = ap suc (size_stamp es)

module _ (w : World) (config : SegmentLogConfig) (first : ℕ) (fss : List (List Frame))
    (fs : List Frame) where
  append_events-Extended :
      (producer_id : Text) (events : List OtkEvent) (s : SegmentLog)
      → ((n : ℕ) → w.now_ns n ≤ u64_max)
      → w.externals.from_utf8 producer_id ≡ ok producer_id
      → 0 < length events
      → IsLog w.externals first fss fs s
      → Ends
          (λ o s'.
            Extended w.externals config.retention first (log_entries fss fs) producer_id events s'
            × (o + 1 ≡ s'.next_offset))
          (λ s'.
            IsLog w.externals first fss fs s'
            ⊎ Extended w.externals config.retention first
                (log_entries fss fs)
                producer_id
                events
                s')
          (append_events w config producer_id events s)
  unfolding append_events
  append_events-Extended p events s clock utf8 some_event h =
      let es = log_entries fss fs in
      let extended = Extended w.externals config.retention first es p events in
      let after_error = λ (s' : SegmentLog). IsLog w.externals first fss fs s' ⊎ extended s' in
      let last : M ℕ = λ s2. (s2, ok (s2.next_offset - 1)) in
      Ends-bind (λ u. Appended w first fss fs p events)
        (λ o s'. extended s' × (o + 1 ≡ s'.next_offset)) after_error
        (λ u. roll_if_due w config >> last) (append_batch w config p events s)
        (Ends-mono (λ u. Appended w first fss fs p events) (λ u. Appended w first fss fs p events)
          (IsLog w.externals first fss fs) after_error (append_batch w config p events s)
          (append_batch-Appended w first fss fs config p events s clock utf8 h) (λ u s2 done. done)
          (λ s2 kept. inl kept))
        λ u s2 done.
          let (a, new, safe, at, same) = done in
          let joined : log_entries fss (fs ++ new) ≡ es ++ entries new =
            ap entries (sym (append_assoc (flatten fss) fs new))
            ∙ map-append (λ (f : Frame). f.0) (flatten fss ++ fs) new in
          let kept = λ (s' : SegmentLog).
            Retained w.externals config.retention (es ++ entries new)
              (first + length (es ++ entries new)) s' in
          let size : length (entries new) ≡ length events =
            length-stamp p (entries new) events same in
          Ends-bind (λ v. kept) (λ o s'. extended s' × (o + 1 ≡ s'.next_offset)) after_error
            (λ v. last) (roll_if_due w config s2)
            (Ends-mono (λ v. kept) (λ v. kept) kept after_error (roll_if_due w config s2)
              (subst
                (λ l.
                  Ends (λ v. Retained w.externals config.retention l (first + length l))
                    (Retained w.externals config.retention l (first + length l))
                    (roll_if_due w config s2))
                joined (roll_if_due-Retained w first fss (fs ++ new) config a s2 safe at))
              (λ v s3 k. k) (λ s3 k. inr (entries new, same, k)))
            λ v s3 k. (
              (entries new, same, k),
              (let next = k.7 in omega (arith, length-append es (entries new))),
            )

  -- Whatever calls to the system fail, after an append to a valid log that returns an offset the log is
  -- valid, holds its entries and then the batch in order, less the oldest entries that the retention
  -- policy has dropped (none under `Indefinite`), and the offset is that of its last entry. After an
  -- error the log is valid, and holds just what it held, or that and the whole batch. The clock is u64,
  -- and the producer id a string.
  pub append-Extended :
      (producer_id : Text) (events : List OtkEvent) (s : SegmentLog)
      → ((n : ℕ) → w.now_ns n ≤ u64_max)
      → w.externals.from_utf8 producer_id ≡ ok producer_id
      → IsLog w.externals first fss fs s
      → Ends
          (λ o s'.
            Extended w.externals config.retention first (log_entries fss fs) producer_id events s'
            × (o + 1 ≡ s'.next_offset))
          (λ s'.
            IsLog w.externals first fss fs s'
            ⊎ Extended w.externals config.retention first
                (log_entries fss fs)
                producer_id
                events
                s')
          (append w config producer_id events s)
  unfolding append
  append-Extended p events s clock utf8 h =
      let es = log_entries fss fs in
      let extended = Extended w.externals config.retention first es p events in
      let after_ok = λ (o : ℕ) (s' : SegmentLog). extended s' × (o + 1 ≡ s'.next_offset) in
      let after_error = λ (s' : SegmentLog). IsLog w.externals first fss fs s' ⊎ extended s' in
      Ends-if after_ok after_error s.poisoned _ _ (inl h) λ sound.
        Ends-if after_ok after_error (length events == 0) _ _ (inl h) λ some_event.
          Ends-if after_ok after_error (length p == 0) _ _ (inl h)
            λ named. append_events-Extended p events s clock utf8 (ground arith) h
