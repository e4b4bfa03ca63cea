-- ===== src/Segment/Log/Rolled.antt =====
-- adapter-event-log-segment/src/log.rs: the roll of the active segment, whatever calls fail.
use otk_core.Prelude.{
  ℕ, suc, ◌+◌, ◌-◌, ◌≡◌, ◌<◌, refl, sym, ap, ◌∙◌, Option, none, List, [], ◌∷◌, ◌++◌, Bytes, Result,
  ok, err, length, take, append_assoc, append-nil, arith, subst,
}
use mathlib.Core.List.{flatten}
use otk_core.Segment.{Externals}
use otk_core.Segment.Frames.{Frame}
use otk_core.Timing.Storage.{StorageError}
use otk_core.Segment.Log.{
  World, SegmentLog, ClosedSegment, ActiveSegment, ◌>>=◌, ◌>>◌, resume, ignore, or_cleanup,
  cleanup_after, Ends,
}
use otk_core.Segment.Log.Files.{
  file_at, attempt, change, set_len, put_index, write_all, replace_file, write_index,
  remove_segment,
}
use otk_core.Segment.Log.Roll.{
  set_active, or_pos, segment_size, close_active, undo_sentinel, commit_roll, drop_empty,
}
use otk_core.Segment.Log.Valid.{HasRecords, ClosedRun, IsLog, length-Placed}
use otk_core.Segment.Log.Safe.{
  Ends-bind, Ends-from, Ends-mono, Ends-state, ClosedRun-agree, Ends-or_cleanup, attempt_state,
  change-Ends, write_all-Ends, Safe, Safe-parts, calls-Safe, attempt-Safe, set_len-Safe, seek-Safe,
  write_bytes-Safe,
}
use otk_core.Segment.Log.Retained.{Same, SameBut, remove_segment-SameBut, Same-IsLog, attempt-Same}

pub flatten-snoc :
    (fss : List (List Frame)) (fs : List Frame) → flatten (fss ++ fs ∷ []) ≡ flatten fss ++ fs
unfolding flatten
flatten-snoc [] fs = append-nil fs
flatten-snoc (f ∷ fss) fs =
    ap (λ l. f ++ l) (flatten-snoc fss fs) ∙ sym (append_assoc f (flatten fss) fs)

pub ClosedRun-snoc :
    (x : Externals) (segs : ℕ → Option Bytes) (n m : ℕ) (cs : List ClosedSegment)
    (fss : List (List Frame)) (c : ClosedSegment) (fs : List Frame) (k : ℕ)
    → ClosedRun x segs n cs fss m
    → ClosedRun x segs m (c ∷ []) (fs ∷ []) k
    → ClosedRun x segs n (cs ++ c ∷ []) (fss ++ fs ∷ []) k
ClosedRun-snoc x segs n m [] [] c fs k h h' =
    subst (λ j. ClosedRun x segs j (c ∷ []) (fs ∷ []) k) (sym h) h'
ClosedRun-snoc x segs n m [] (f ∷ fss) c fs k h h' = elim h [ ]
ClosedRun-snoc x segs n m (d ∷ cs) [] c fs k h h' = elim h [ ]
ClosedRun-snoc x segs n m (d ∷ cs) (f ∷ fss) c fs k (base, some_record, last, old, run) h' =
    (base, some_record, last, old, ClosedRun-snoc x segs (n + length f) m cs fss c fs k run h')

module _ (w : World) where
  pub replace_file-Ends :
      (P : SegmentLog → Type 0) (f : SegmentLog → SegmentLog) (s : SegmentLog)
      → ((s2 s3 : SegmentLog) → Same s2 s3 → P s2 → P s3)
      → ((s2 : SegmentLog) → P s2 → P (f s2))
      → P s
      → Ends (λ u. P) P (replace_file w f s)
  unfolding replace_file
  replace_file-Ends P f s same keep h =
      let tried = λ (s2 : SegmentLog) (p : P s2).
        Ends-from P P (attempt w s2) (same s2 (attempt w s2).0 (attempt-Same w s2) p) (λ s3 q. q) in
      Ends-bind (λ u. P) (λ u. P) P
        (λ u. attempt w >> (attempt w >> (change w f >> ignore (attempt w)))) (attempt w s)
        (tried s h)
        λ u s2 h2.
          Ends-bind (λ u. P) (λ u. P) P (λ u. attempt w >> (change w f >> ignore (attempt w)))
            (attempt w s2) (tried s2 h2)
            λ u s3 h3.
              Ends-bind (λ u. P) (λ u. P) P (λ u. change w f >> ignore (attempt w)) (attempt w s3)
                (tried s3 h3)
                λ u s4 h4.
                  let called =
                    same s4 (record s4 { calls = suc s4.calls }) (refl, refl, refl, refl) h4 in
                  Ends-bind (λ u. P) (λ u. P) P (λ u. ignore (attempt w)) (change w f s4)
                    (change-Ends w P P f s4 (keep (record s4 { calls = suc s4.calls }) called)
                      called)
                    λ u s5 h5. same s5 (attempt w s5).0 (attempt-Same w s5) h5

module _ (w : World) (first : ℕ) (fss : List (List Frame)) (fs : List Frame)
    (a : ActiveSegment) where
  abbrev Ready : SegmentLog → Type 0
  Ready = Safe w.externals first fss fs a

  abbrev Before : SegmentLog → Type 0
  Before = IsLog w.externals first fss fs

  -- The records of the active segment are those of the last closed one.
  abbrev After : SegmentLog → Type 0
  After = IsLog w.externals first (fss ++ fs ∷ []) []

  Ready-Same : (s s' : SegmentLog) → Same s s' → Ready s → Ready s'
  Ready-Same s s' same (h, is_active) =
      (Same-IsLog w.externals first fss fs s s' same h, same.1 ∙ is_active)

  undo_sentinel-Ready : (s : SegmentLog) → Ready s → Before (undo_sentinel w a s).0
  unfolding undo_sentinel
  undo_sentinel-Ready s h =
      let s2 = (set_len w a.base_offset a.next_file_pos s).0 in
      (seek-Safe w.externals first fss fs w a a.next_file_pos s2
        (set_len-Safe w.externals first fss fs w a a.next_file_pos s (omega arith) h)).0

  close_active-After :
      (size : ℕ) (s : SegmentLog)
      → 0 < length a.positions
      → Ready s
      → After (close_active a size s).0
  unfolding close_active
  close_active-After size s some_record safe =
      let (mid, run, base, end, records) = Safe-parts w.externals first fss fs a s safe in
      let (file, here, le, placed) = records in
      let count =
        length-Placed w.externals file a.next_file_pos a.base_offset a.positions fs placed in
      let fit = safe.0.fits in
      let c : ClosedSegment = record {
        base_offset = a.base_offset;
        last_offset = a.base_offset + length a.positions - 1;
        last_appended_at_ns = a.last_appended_at_ns;
        byte_size = size;
        positions = a.positions;
      } in
      record {
        mid = s.next_offset;
        closed_run =
            ClosedRun-snoc w.externals s.segs first mid s.closed fss c fs s.next_offset run (
              base,
              omega arith,
              omega arith,
              (
                a.next_file_pos,
                subst (λ k. HasRecords w.externals s.segs k a.next_file_pos a.positions fs) base
                    records,
              ),
              omega arith,
            );
        active_run = (refl, refl);
        fits = fit;
      }

  or_pos-Ready :
      (size pos : ℕ) (r : SegmentLog × Result StorageError (Unit {0}))
      → Ready r.0
      → Ends (λ n. Ready) Before (or_pos size pos r)
  unfolding or_pos
  or_pos-Ready size pos (s, ok u) h = h
  or_pos-Ready size pos (s, err e) h = h

  segment_size-Ready : (s : SegmentLog) → Ready s → Ends (λ n. Ready) Before (segment_size w a s)
  unfolding segment_size
  segment_size-Ready s h =
      or_pos-Ready (length (file_at s a.base_offset)) a.next_file_pos (attempt w s)
        (attempt-Safe w.externals first fss fs w a s h)

  -- The steps of the roll after the sentinel is written.
  seal-After :
      (s : SegmentLog)
      → 0 < length a.positions
      → Ready s
      → Ends
          (λ u. After)
          Before
          (resume
            (λ u.
              or_cleanup (write_index w a.base_offset a.positions) (undo_sentinel w a)
              >> (segment_size w a >>= close_active a))
            (cleanup_after (undo_sentinel w a) (attempt w s)))
  unfolding write_index close_active
  seal-After s some_record h =
      Ends-bind (λ u. Ready) (λ u. After) Before
        (λ u.
          or_cleanup (write_index w a.base_offset a.positions) (undo_sentinel w a)
          >> (segment_size w a >>= close_active a))
        (cleanup_after (undo_sentinel w a) (attempt w s))
        (Ends-or_cleanup (λ u. Ready) Ready Before (undo_sentinel w a) (attempt w s)
          (Ends-from Ready Ready (attempt w s) (attempt-Safe w.externals first fss fs w a s h)
            (λ s2 k. k))
          undo_sentinel-Ready)
        λ u s2 h2.
          Ends-bind (λ u. Ready) (λ u. After) Before (λ u. segment_size w a >>= close_active a)
            (cleanup_after (undo_sentinel w a) (write_index w a.base_offset a.positions s2))
            (Ends-or_cleanup (λ u. Ready) Ready Before (undo_sentinel w a)
              (write_index w a.base_offset a.positions s2)
              (replace_file-Ends w Ready (put_index a.base_offset a.positions) s2 Ready-Same
                (λ s3 k.
                  Ready-Same s3 (put_index a.base_offset a.positions s3) (refl, refl, refl, refl) k)
                h2)
              undo_sentinel-Ready)
            λ u s3 h3.
              Ends-bind (λ n. Ready) (λ u. After) Before (close_active a) (segment_size w a s3)
                (segment_size-Ready s3 h3) λ n s4 h4. close_active-After n s4 some_record h4

  pub commit_roll-After :
      (s : SegmentLog)
      → 0 < length a.positions
      → Ready s
      → s.cursor ≡ a.next_file_pos
      → Ends (λ u. After) Before (commit_roll w a s)
  unfolding commit_roll
  commit_roll-After s some_record h at =
      let synced = λ (s2 : SegmentLog). Ready s2 × (s2.cursor ≡ a.next_file_pos) in
      let rest = λ (u : Unit {0}).
        or_cleanup (attempt w) (undo_sentinel w a)
        >> (or_cleanup (write_index w a.base_offset a.positions) (undo_sentinel w a)
            >> (segment_size w a >>= close_active a)) in
      Ends-bind (λ u. synced) (λ u. After) Before
        (λ u. write_all w a.base_offset (0 ∷ 0 ∷ 0 ∷ 0 ∷ []) >> rest tt) (attempt w s)
        (Ends-from synced Before (attempt w s)
          (subst synced (sym (attempt_state w s))
            (calls-Safe w.externals first fss fs a (suc s.calls) s h, at))
          (λ s2 k. k.0.0))
        λ u s2 k.
          Ends-bind (λ u. Ready) (λ u. After) Before (λ u. rest tt)
            (write_all w a.base_offset (0 ∷ 0 ∷ 0 ∷ 0 ∷ []) s2)
            (write_all-Ends w Ready Before a.base_offset (0 ∷ 0 ∷ 0 ∷ 0 ∷ []) s2
              (write_bytes-Safe w.externals first fss fs a (0 ∷ 0 ∷ 0 ∷ 0 ∷ []) s2 k.0
                (omega (arith, k.1)))
              (λ n.
                (write_bytes-Safe w.externals first fss fs a (take n (0 ∷ 0 ∷ 0 ∷ 0 ∷ [])) s2 k.0
                  (omega (arith, k.1))).0))
            λ u s3 h3. seal-After s3 some_record h3

  pub drop_empty-Before :
      (s : SegmentLog) → length a.positions ≡ 0 → Ready s → Before (drop_empty w a s).0
  unfolding drop_empty set_active
  drop_empty-Before s none_left safe =
      let (mid, run, base, end, (file, here, le, placed)) =
        Safe-parts w.externals first fss fs a s safe in
      let size =
        length-Placed w.externals file a.next_file_pos a.base_offset a.positions fs placed in
      let s2 = record s { active = none } in
      let (closed, active, next, segs) =
        Ends-state (SameBut a.base_offset s2) (remove_segment w a.base_offset s2) (
          Ends-mono (λ u. SameBut a.base_offset s2) (λ u. SameBut a.base_offset s2) (Same s2)
            (SameBut a.base_offset s2) (remove_segment w a.base_offset s2)
            (remove_segment-SameBut w a.base_offset s2) (λ u s3 h. h)
            (λ s3 h. (h.0, h.1, h.2, λ k p. ap (λ g. g k) h.3))) in
      let fit = safe.0.fits in
      let s3 = (remove_segment w a.base_offset s2).0 in
      record {
        mid = mid;
        closed_run = rw closed (
            ClosedRun-agree w.externals s.segs s3.segs first mid s.closed fss
              (λ k p q. segs k (λ e. absurd (omega arith))) run);
        active_run = rw (active, next) (length-nil fs (omega arith), omega arith);
        fits = omega arith;
      }
    where
      length-nil : (gs : List Frame) → length gs ≡ 0 → gs ≡ []
      length-nil [] h = refl
      length-nil (g ∷ gs) h = absurd (omega arith)
