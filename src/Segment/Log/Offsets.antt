-- ===== src/Segment/Log/Offsets.antt =====
-- adapter-event-log-segment/src/log.rs: the first and the last offset.
use otk_core.Prelude.{
  ℕ, ◌+◌, ◌-◌, ◌≡◌, ◌<◌, refl, Option, none, some, List, [], ◌∷◌, Bytes, length, ltb, if◌then◌else◌,
  arith, subst, Bool-cases, inl, inr, ◌⊎◌, ◌∙◌,
}
use otk_core.Timing.Storage.Contract.{expected_earliest, expected_latest}
use otk_core.Segment.{Externals}
use otk_core.Segment.Frames.{Frame}
use otk_core.Segment.Log.{SegmentLog, ClosedSegment, ActiveSegment}
use otk_core.Segment.Log.Valid.{ClosedRun, ActiveRun, IsLog, IsLog-next, length-Placed}
use otk_core.Segment.Log.Read.{
  is_empty, is_empty_lem, closed_latest, latest_of, earliest_offset_raw, latest_offset_raw,
}
use otk_core.Segment.Log.ReadRange.{window, view}

abbrev before : ℕ → Option ℕ
before n = if ltb 0 n then some (n - 1) else none

closed_latest-ClosedRun :
    (x : Externals) (segs : ℕ → Option Bytes) (n m : ℕ) (cs : List ClosedSegment)
    (fss : List (List Frame))
    → ClosedRun x segs n cs fss m
    → closed_latest cs m ≡ before m
unfolding closed_latest
closed_latest-ClosedRun x segs n m [] fss h = refl
closed_latest-ClosedRun x segs n m (c ∷ []) [] h = elim h [ ]
closed_latest-ClosedRun x segs n m (c ∷ []) (fs ∷ []) (base, some_record, last, file, end) =
    let size : m ≡ c.last_offset + 1 = omega arith in ground arith
closed_latest-ClosedRun x segs n m (c ∷ []) (fs ∷ gs ∷ fss) (base, some_record, last, file, run) =
    elim run [ ]
closed_latest-ClosedRun x segs n m (c ∷ d ∷ cs) [] h = elim h [ ]
closed_latest-ClosedRun x segs n m (c ∷ d ∷ cs) (fs ∷ fss) (base, some_record, last, file, run) =
    closed_latest-ClosedRun x segs (n + length fs) m (d ∷ cs) fss run

latest_of-IsLog :
    (x : Externals) (segs : ℕ → Option Bytes) (first mid next : ℕ) (cs : List ClosedSegment)
    (fss : List (List Frame)) (active : Option ActiveSegment) (fs : List Frame)
    → ClosedRun x segs first cs fss mid
    → ActiveRun x segs active mid fs next
    → latest_of active cs next ≡ before next
unfolding latest_of is_empty
latest_of-IsLog x segs first mid next cs fss none fs h (no_records, end) =
    subst (λ k. closed_latest cs k ≡ before k) end
      (closed_latest-ClosedRun x segs first mid cs fss h)
latest_of-IsLog x segs first mid next cs fss (some a) fs h (base, end, (file, here, le, placed)) =
    let size = length-Placed x file a.next_file_pos mid a.positions fs placed in
    let empty = is_empty_lem a.positions in
    elim (Bool-cases (is_empty a.positions)) [
      | inl y ↦
          let same : mid ≡ next = ground arith in
          rw (y, latest_of)
            (subst (λ k. closed_latest cs k ≡ before k) same
              (closed_latest-ClosedRun x segs first mid cs fss h))
      | inr y ↦
          let some_record : 0 < length a.positions = ground arith in
          let number : a.base_offset + length a.positions ≡ next = omega arith in
          rw (y, latest_of, number) (ground arith)
    ]

-- The first and the latest offset of a valid log are the documented ones, those of the first and the
-- last entry that it retains, or none, if it retains an entry or never held any.
pub offsets-IsLog :
    (x : Externals) (s : SegmentLog) (first : ℕ) (fss : List (List Frame)) (fs : List Frame)
    → IsLog x first fss fs s
    → (first < s.next_offset) ⊎ (s.next_offset ≡ 0)
    → (earliest_offset_raw s ≡ expected_earliest (view first fss fs s))
      × (latest_offset_raw s ≡ expected_latest (view first fss fs s))
unfolding earliest_offset_raw latest_offset_raw
offsets-IsLog x s first fss fs h held =
    let size = IsLog-next x first fss fs s h in
    (
      elim (window x s.segs first h.mid s.next_offset s.closed fss s.active fs h.closed_run
          h.active_run) [
            | inl (start, some_left, some_entry) ↦ rw start (ground arith)
            | inr (start, evicted, end) ↦ rw start (ground arith)
          ],
      latest_of-IsLog x s.segs first h.mid s.next_offset s.closed fss s.active fs h.closed_run
            h.active_run
          ∙ ground (arith, held),
    )
