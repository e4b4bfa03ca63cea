-- ===== src/Segment/Log/ReadRange.antt =====
-- adapter-event-log-segment/src/log.rs: a read returns the entries of its range.
use otk_core.Prelude.{
  ℕ, ◌+◌, ◌≡◌, ◌≤◌, ◌<◌, true, u64_max, refl, sym, ap, ◌∙◌, false, ◌&&◌, Option, none, some, List,
  [], ◌∷◌, Bytes, ok, err, ltb, leb, if◌then◌else◌, length, arith, Bool-cases, inl, inr, ◌⊎◌, ◌==◌,
}
use otk_core.Timing.Storage.{retention_expired}
use otk_core.Segment.{Externals, IsExternals}
use otk_core.Segment.Frames.{Frame}
use otk_core.Segment.Log.{World, SegmentLog, ClosedSegment, ActiveSegment}
use otk_core.Timing.Storage.Select.{select, select_none, select_ext, in_range}
use otk_core.Timing.Storage.Contract.{View, within, expected_read}
use otk_core.Segment.Log.Valid.{
  ClosedRun, ClosedRun-size, ActiveRun, ActiveRun-end, IsLog, IsLog-next, log_entries,
  length-Placed,
}
use otk_core.Segment.Log.Reads.{read_segments-Gives}
use otk_core.Segment.Log.Read.{
  is_empty, earliest_of, active_earliest, earliest_offset_raw, is_fully_evicted, active_empty,
  end_of, ends_by, is_before, read_range, is_empty_lem,
}

-- Where the log starts: at its first offset, or it has no entry.
pub window :
    (x : Externals) (segs : ℕ → Option Bytes) (first mid next : ℕ) (cs : List ClosedSegment)
    (fss : List (List Frame)) (active : Option ActiveSegment) (fs : List Frame)
    → ClosedRun x segs first cs fss mid
    → ActiveRun x segs active mid fs next
    → ((earliest_of cs active ≡ some first)
        × ((is_empty cs && (active_empty active && ltb 0 next)) ≡ false)
        × (first < next))
      ⊎ ((earliest_of cs active ≡ none)
          × ((is_empty cs && (active_empty active && ltb 0 next)) ≡ ltb 0 next)
          × (first ≡ next))
unfolding earliest_of active_earliest active_empty is_empty
window x segs first mid next [] (fs' ∷ fss) active fs h k = elim h [ ]
window x segs first mid next (c ∷ cs) [] active fs h k = elim h [ ]
window x segs first mid next (c ∷ cs) (fs' ∷ fss) active fs (base, some_record, last, file, run) k =
    let size = ClosedRun-size x segs (first + length fs') mid cs fss run in
    let end = ActiveRun-end x segs mid next active fs k in inl (ap some base, refl, omega arith)
window x segs first mid next [] [] none fs h (no_records, end) = inr (refl, refl, h ∙ end)
window x segs first mid next [] [] (some a) fs h (base, end, (file, here, le, placed)) =
    let size = length-Placed x file a.next_file_pos mid a.positions fs placed in
    let empty = is_empty_lem a.positions in
    elim (Bool-cases (is_empty a.positions)) [
      | inl y ↦ inr (rw y refl, rw y refl, ground arith)
      | inr y ↦ inl (rw y (ap some (base ∙ sym h)), rw y refl, ground arith)
    ]

-- What the log retains.
abbrev pub view : ℕ → List (List Frame) → List Frame → SegmentLog → View
view first fss fs s = record { first = first; next = s.next_offset; retained = log_entries fss fs }

-- The tests of a read on a log of these entries make no difference to the documented result.
runs-expected :
    (from : ℕ) (to : Option ℕ) (v : View)
    → v.next ≡ v.first + length v.retained
    → v.next ≤ u64_max
    → (v.first < v.next) ⊎ (from < v.next) ⊎ (v.next ≡ 0)
    → (v.first ≤ from) ⊎ (within from to from ≡ true)
    → (if ends_by to from
        then ok []
        else if leb v.next from
        then ok []
        else if ltb from v.first
        then err (retention_expired from (if v.first == v.next then none else some v.first))
        else ok (select (in_range from (end_of to)) v.first v.retained))
      ≡ expected_read v from to
unfolding ends_by end_of
runs-expected from none v size fits held whole = elim (Bool-cases (leb v.next from)) [
  | inl past ↦
      let nothing = select_none (within from none) v.first v.retained λ i a b. ground arith in
      rw past (ground (arith, held, nothing))
  | inr inside ↦
      let same =
        select_ext (in_range from u64_max) (within from none) v.first v.retained
          λ i a b. ground arith in
      rw inside (ground (arith, held, same))
]
runs-expected from (some t) v size fits held whole = elim (Bool-cases (leb t from)) [
  | inl empty ↦
      let nothing = select_none (within from (some t)) v.first v.retained λ i a b. ground arith in
      rw empty (ground (arith, held, whole, nothing))
  | inr some_left ↦ elim (Bool-cases (leb v.next from)) [
    | inl past ↦
        let nothing = select_none (within from (some t)) v.first v.retained λ i a b. ground arith in
        rw (some_left, past) (ground (arith, held, nothing))
    | inr inside ↦ rw (some_left, inside) (ground (arith, held))
  ]
]

module _ (w : World) (calm : (n : ℕ) → w.fault n ≡ none) where
  module _ (v : IsExternals w.externals) where
    -- The order of the tests of a read.
    read_range-runs :
        (s : SegmentLog) (from : ℕ) (to : Option ℕ) (first : ℕ) (fss : List (List Frame))
        (fs : List Frame)
        → IsLog w.externals first fss fs s
        → ((read_range w from to s).0.segs ≡ s.segs)
          × ((read_range w from to s).1 ≡ (
              if ends_by to from
              then ok []
              else if leb s.next_offset from
              then ok []
              else if ltb from first
              then err
                  (retention_expired from (if first == s.next_offset then none else some first))
              else ok (select (in_range from (end_of to)) first (log_entries fss fs))))
    unfolding read_range is_fully_evicted earliest_offset_raw is_before
    read_range-runs s from to first fss fs h =
        let found = read_segments-Gives w calm v s from (end_of to) first fss fs h in
        elim (window w.externals s.segs first h.mid s.next_offset s.closed fss s.active fs
          h.closed_run h.active_run) [
            | inl (start, some_left, some_entry) ↦ rw (start, some_left) (ground (arith, found))
            | inr (start, evicted, end) ↦ rw (start, evicted) (ground (arith, found))
          ]

    -- Where no call to the system fails and the log is valid, a read has the documented result: the
    -- entries with offsets in its range, in order, or the retention error with the first offset that
    -- is retained, or nothing from a log that never held anything. It changes no segment file. The
    -- read is one from before the end of the log, or of a log that retains an entry or never held any;
    -- and its range is not empty, or does not start before the first offset.
    pub read_range-IsLog :
        (s : SegmentLog) (from : ℕ) (to : Option ℕ) (first : ℕ) (fss : List (List Frame))
        (fs : List Frame)
        → IsLog w.externals first fss fs s
        → (first < s.next_offset) ⊎ (from < s.next_offset) ⊎ (s.next_offset ≡ 0)
        → (first ≤ from) ⊎ (within from to from ≡ true)
        → ((read_range w from to s).0.segs ≡ s.segs)
          × ((read_range w from to s).1 ≡ expected_read (view first fss fs s) from to)
    read_range-IsLog s from to first fss fs h held whole =
        let (files, result) = read_range-runs s from to first fss fs h in
        let size = IsLog-next w.externals first fss fs s h in
        (files, result ∙ runs-expected from to (view first fss fs s) size h.fits held whole)
