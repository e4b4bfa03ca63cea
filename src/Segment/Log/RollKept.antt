-- ===== src/Segment/Log/RollKept.antt =====
-- adapter-event-log-segment/src/log.rs: a roll keeps the entries of the log, whatever calls fail.
use otk_core.Prelude.{
  ℕ, suc, ◌+◌, ◌≡◌, refl, ap, ◌∙◌, Bool, true, false, List, [], ◌∷◌, ◌++◌, length, leb, append-nil,
  arith, subst, if◌then◌else◌, Bool-cases, inl, inr,
}
use mathlib.Core.List.{flatten}
use otk_core.Segment.{Externals}
use otk_core.Segment.Frames.{Frame}
use otk_core.Timing.Storage.{RetentionPolicy}
use otk_core.Segment.Log.{World, SegmentLog, SegmentLogConfig, ActiveSegment, pure, Ends}
use otk_core.Segment.Log.Files.{now, put_watermark, replace_file, write_watermark}
use otk_core.Segment.Log.Retention.{enforce_retention}
use otk_core.Segment.Log.Roll.{
  set_active, commit_roll, drop_empty, after_roll, roll_records, roll_segment, should_roll,
}
use otk_core.Segment.Log.Append.{roll_if_due}
use otk_core.Segment.Log.Valid.{IsLog, entries, log_entries, IsLog-next}
use otk_core.Segment.Log.Safe.{Ends-bind, Ends-mono, Safe, calls-Safe}
use otk_core.Segment.Log.Retained.{Drops-nil, Retained, Same-Retained, enforce_retention-Retained}
use otk_core.Segment.Log.Rolled.{
  flatten-snoc, replace_file-Ends, commit_roll-After, drop_empty-Before,
}

pub IsLog-Retained :
    (x : Externals) (policy : RetentionPolicy) (first : ℕ) (fss : List (List Frame))
    (fs : List Frame) (s : SegmentLog)
    → IsLog x first fss fs s
    → Retained x policy (log_entries fss fs) (first + length (log_entries fss fs)) s
IsLog-Retained x policy first fss fs s h =
    (first, fss, fs, [], h, refl, Drops-nil policy, IsLog-next x first fss fs s h)

module _ (w : World) (first : ℕ) (fss : List (List Frame)) (fs : List Frame)
    (config : SegmentLogConfig) where
  abbrev Kept : SegmentLog → Type 0
  Kept =
      Retained w.externals config.retention (log_entries fss fs)
        (first + length (log_entries fss fs))

  after_roll-Kept : (s : SegmentLog) → Kept s → Ends (λ u. Kept) Kept (after_roll w config s)
  unfolding after_roll write_watermark
  after_roll-Kept s kept =
      let es = log_entries fss fs in
      let next = first + length es in
      Ends-bind (λ u. Kept) (λ u. Kept) Kept (λ u. enforce_retention w config.retention)
        (replace_file w (put_watermark s.next_offset) s)
        (replace_file-Ends w Kept (put_watermark s.next_offset) s
          (Same-Retained w.externals config.retention es next)
          (λ s2 k.
            Same-Retained w.externals config.retention es next s2 (put_watermark s.next_offset s2)
              (refl, refl, refl, refl) k)
          kept)
        λ u s2 kept2. enforce_retention-Retained w es next config.retention s2 kept2

  roll_records-Kept :
      (a : ActiveSegment) (ps : List ℕ) (s : SegmentLog)
      → a.positions ≡ ps
      → Safe w.externals first fss fs a s
      → s.cursor ≡ a.next_file_pos
      → Ends (λ u. Kept) Kept (roll_records w config a ps s)
  unfolding roll_records drop_empty set_active
  roll_records-Kept a [] s same safe at =
      IsLog-Retained w.externals config.retention first fss fs (drop_empty w a s).0
        (drop_empty-Before w first fss fs a s (ap length same) safe)
  roll_records-Kept a (p ∷ ps) s same safe at =
      let joined : log_entries (fss ++ fs ∷ []) [] ≡ log_entries fss fs =
        ap entries (append-nil (flatten (fss ++ fs ∷ [])) ∙ flatten-snoc fss fs) in
      Ends-bind (λ u. Kept) (λ u. Kept) Kept (λ u. after_roll w config) (commit_roll w a s)
        (Ends-mono (λ u. IsLog w.externals first (fss ++ fs ∷ []) []) (λ u. Kept)
          (IsLog w.externals first fss fs) Kept (commit_roll w a s)
          (commit_roll-After w first fss fs a s (omega (arith, ap length same)) safe at)
          (λ u s2 h.
            subst (λ es. Retained w.externals config.retention es (first + length es) s2) joined
              (IsLog-Retained w.externals config.retention first (fss ++ fs ∷ []) [] s2 h))
          (λ s2 h. IsLog-Retained w.externals config.retention first fss fs s2 h))
        λ u s2 kept. after_roll-Kept s2 kept

  roll_segment-Kept :
      (a : ActiveSegment) (s : SegmentLog)
      → Safe w.externals first fss fs a s
      → s.cursor ≡ a.next_file_pos
      → Ends (λ u. Kept) Kept (roll_segment w config s)
  unfolding roll_segment
  roll_segment-Kept a s safe at =
      rw (safe.1, roll_segment) (roll_records-Kept a a.positions s refl safe at)

  should_roll-Safe :
      (a : ActiveSegment) (s : SegmentLog)
      → Safe w.externals first fss fs a s
      → s.cursor ≡ a.next_file_pos
      → Ends
          (λ due s2. Safe w.externals first fss fs a s2 × (s2.cursor ≡ a.next_file_pos))
          Kept
          (should_roll w config s)
  unfolding should_roll now
  should_roll-Safe a s safe at = elim (Bool-cases (leb config.max_segment_bytes a.byte_size)) [
    | inl full ↦ rw (safe.1, should_roll, full) (safe, at)
    | inr room ↦
        rw (safe.1, should_roll, room)
          (calls-Safe w.externals first fss fs a (suc s.calls) s safe, at)
  ]

  -- A roll keeps the entries of the log, but for those that retention drops, on an error too.
  pub roll_if_due-Retained :
      (a : ActiveSegment) (s : SegmentLog)
      → Safe w.externals first fss fs a s
      → s.cursor ≡ a.next_file_pos
      → Ends (λ u. Kept) Kept (roll_if_due w config s)
  unfolding roll_if_due
  roll_if_due-Retained a s safe at =
      Ends-bind (λ due s2. Safe w.externals first fss fs a s2 × (s2.cursor ≡ a.next_file_pos))
        (λ u. Kept) Kept (λ due. if due then roll_segment w config else pure tt)
        (should_roll w config s) (should_roll-Safe a s safe at) roll
    where
      roll :
          (due : Bool) (s2 : SegmentLog)
          → Safe w.externals first fss fs a s2 × (s2.cursor ≡ a.next_file_pos)
          → Ends
              (λ u.
                Retained w.externals config.retention
                  (log_entries fss fs)
                  (first + length (log_entries fss fs)))
              (Retained w.externals config.retention
                (log_entries fss fs)
                (first + length (log_entries fss fs)))
              ((if due then roll_segment w config else pure tt) s2)
      roll true s2 (safe2, at2) = roll_segment-Kept a s2 safe2 at2
      roll false s2 (safe2, at2) =
          IsLog-Retained w.externals config.retention first fss fs s2 safe2.0
