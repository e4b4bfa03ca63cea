-- ===== src/Segment/Log/Reads.antt =====
-- adapter-event-log-segment/src/log.rs: the reads of segments.
use otk_core.Prelude.{
  ℕ, zero, suc, ◌+◌, ◌-◌, ◌≡◌, ◌≤◌, refl, sym, ap, ◌∙◌, min, max, Bool, not, ◌&&◌, Option, none,
  some, List, [], ◌∷◌, ◌++◌, Bytes, Result, ok, err, ltb, leb, length, get_elem?, arith, subst,
  Bool-cases, Option-cases, inl, inr, ==_iff,
}
use mathlib.Core.List.{flatten, map-append}
use otk_core.Timing.Storage.{LogEntry, StorageError}
use otk_core.Segment.{IsExternals}
use otk_core.Segment.Record.{read_record}
use otk_core.Segment.Frames.{Frame}
use otk_core.Segment.Log.{
  World, SegmentLog, ClosedSegment, ActiveSegment, M, ◌>>=◌, ◌>>◌, resume, pure,
}
use otk_core.Segment.Log.Files.{attempt, file_at}
use otk_core.Timing.Storage.Select.{
  select, in_range, select-append, select_ext, select_none, select-in_range-some,
  select-in_range-none,
}
use otk_core.Segment.Log.Valid.{
  Placed, ClosedRun, ClosedRun-size, ActiveRun, IsLog, entries, log_entries, length-entries,
  length-Placed, Placed-some, Placed-none,
}
use otk_core.Segment.Log.Read.{
  is_empty, check_offset, read_at, read_offsets, open_file, read_closed, read_active, read_segments,
  is_empty_lem,
}

select-entries_append :
    (p : ℕ → Bool) (n : ℕ) (fs gs : List Frame)
    → select p n (entries (fs ++ gs))
      ≡ select p n (entries fs) ++ select p (n + length fs) (entries gs)
select-entries_append p n fs gs =
    ap (select p n) (map-append (λ (f : Frame). f.0) fs gs)
    ∙ select-append p n (entries fs) (entries gs)
    ∙ ap (λ k. select p n (entries fs) ++ select p (n + k) (entries gs)) (length-entries fs)

-- A method ends with a value and leaves the segments' files as they are.
abbrev pub Gives : {A : Type 0} → SegmentLog → A → SegmentLog × Result StorageError A → Type 0
Gives s a r = (r.0.segs ≡ s.segs) × (r.1 ≡ ok a)

Gives-bind :
    {A B : Type 0} (s : SegmentLog) (a : A) (b : B) (next : A → M B)
    (r : SegmentLog × Result StorageError A)
    → Gives s a r
    → ((s' : SegmentLog) → s'.segs ≡ s.segs → Gives s b (next a s'))
    → Gives s b (resume next r)
Gives-bind s a b next (s', ok a') (files, same) h =
    let e : a' ≡ a = ground arith in subst (λ c. Gives s b (next c s')) (sym e) (h s' files)
Gives-bind s a b next (s', err e) (files, same) h = absurd (cc)

module _ (w : World) (calm : (n : ℕ) → w.fault n ≡ none) where
  pub attempt_calm : (s : SegmentLog) → attempt w s ≡ (record s { calls = suc s.calls }, ok tt)
  unfolding attempt
  attempt_calm s = rw (calm s.calls, attempt) refl

  module _ (v : IsExternals w.externals) where
    read_at-Gives :
        (s s' : SegmentLog) (base o p : ℕ) (file : Bytes) (e : LogEntry)
        → s'.segs ≡ s.segs
        → s.segs base ≡ some file
        → read_record w.externals file p ≡ ok e
        → e.offset ≡ o
        → Gives s e (read_at w base o p s')
    unfolding read_at check_offset file_at
    read_at-Gives s s' base o p file e same here read number =
        rw (attempt_calm s', ap (λ g. g base) same ∙ here, read, number, (==_iff o o).1 refl)
          (same, refl)

    read_offsets-Gives :
        (s s' : SegmentLog) (base limit o j : ℕ) (ps : List ℕ) (fs : List Frame) (file : Bytes)
        → s'.segs ≡ s.segs
        → s.segs base ≡ some file
        → Placed w.externals file limit base ps fs
        → base ≤ o
        → Gives s (select (in_range o (o + j)) base (entries fs)) (read_offsets w base ps o j s')
    unfolding read_offsets
    read_offsets-Gives s s' base limit o zero ps fs file same here h le =
        rw (select_none (in_range o (o + 0)) base (entries fs) (λ i a b. ground arith)) (same, refl)
    read_offsets-Gives s s' base limit o (suc j) ps fs file same here h le =
        elim (Option-cases (get_elem? ps (o - base))) [
          | inl past ↦
              rw
                (
                  past,
                  read_offsets,
                  select-in_range-none base o (suc j) (entries fs) le
                      (Placed-none w.externals v file limit base (o - base) ps fs h past),
                )
                (same, refl)
          | inr (p, at) ↦
              let (e, got, number, read) =
                Placed-some w.externals v file limit base (o - base) ps fs p h at in
              let rest = select (in_range (o + 1) (o + 1 + j)) base (entries fs) in
              rw (at, read_offsets, select-in_range-some base o j (entries fs) le got)
                (Gives-bind s e (e ∷ rest)
                  (λ entry. read_offsets w base ps (o + 1) j >>= λ others. pure (entry ∷ others))
                  (read_at w base o p s')
                  (read_at-Gives s s' base o p file e same here read (omega arith))
                  λ s2 same2.
                    Gives-bind s rest (e ∷ rest) (λ others. pure (e ∷ others))
                      (read_offsets w base ps (o + 1) j s2)
                      (read_offsets-Gives s s2 base limit (o + 1) j ps fs file same2 here h
                        (omega arith))
                      λ s3 same3. (same3, refl))
        ]

    open_file-Gives :
        (s s' : SegmentLog) (base : ℕ) (file : Bytes)
        → s'.segs ≡ s.segs
        → s.segs base ≡ some file
        → Gives s tt (open_file w base s')
    unfolding open_file
    open_file-Gives s s' base file same here =
        rw (ap (λ g. g base) same ∙ here, open_file, attempt_calm s') (same, refl)

    -- The part of a segment's entries that a read takes.
    select_clip :
        (from to n : ℕ) (fs : List Frame) (last : ℕ)
        → last ≡ n + length fs
        → select (in_range (max from n) (max from n + (min to last - max from n))) n (entries fs)
          ≡ select (in_range from to) n (entries fs)
    select_clip from to n fs last end = select_ext _ _ n (entries fs) λ i a b.
        (let size = length-entries fs in
          let start : leb (max from n) i ≡ leb from i = ground arith in
          let stop : (leb from i && ltb i (max from n + (min to last - max from n)))
              ≡ (leb from i && ltb i to) =
            ground arith in
          rw start stop)

    read_both-Gives :
        (s s' : SegmentLog) (from to n end limit : ℕ) (ps : List ℕ) (fs : List Frame) (file : Bytes)
        (more : M (List LogEntry)) (others : List LogEntry)
        → s'.segs ≡ s.segs
        → s.segs n ≡ some file
        → Placed w.externals file limit n ps fs
        → end ≡ n + length fs
        → ((s2 : SegmentLog) → s2.segs ≡ s.segs → Gives s others (more s2))
        → Gives s (select (in_range from to) n (entries fs) ++ others) (
            (open_file w n
                >> (read_offsets w n ps (max from n) (min to end - max from n) >>= λ found.
                    more >>= λ later. pure (found ++ later)))
              s')
    read_both-Gives s s' from to n end limit ps fs file more others same here placed last h =
        let found = select (in_range from to) n (entries fs) in
        let start = max from n in
        let count = min to end - start in
        Gives-bind s tt (found ++ others)
          (λ _.
            read_offsets w n ps start count >>= λ first. more >>= λ later. pure (first ++ later))
          (open_file w n s') (open_file-Gives s s' n file same here)
          λ s2 same2.
            Gives-bind s found (found ++ others) (λ first. more >>= λ later. pure (first ++ later))
              (read_offsets w n ps start count s2)
              (subst (λ l. Gives s l (read_offsets w n ps start count s2))
                (select_clip from to n fs end last)
                (read_offsets-Gives s s2 n limit start count ps fs file same2 here placed
                  (omega arith)))
              λ s3 same3.
                Gives-bind s others (found ++ others) (λ later. pure (found ++ later)) (more s3)
                  (h s3 same3) λ s4 same4. (same4, refl)

    read_closed-Gives :
        (s s' : SegmentLog) (from to n m : ℕ) (cs : List ClosedSegment) (fss : List (List Frame))
        → s'.segs ≡ s.segs
        → ClosedRun w.externals s.segs n cs fss m
        → Gives s
            (select (in_range from to) n (entries (flatten fss)))
            (read_closed w from to cs s')
    unfolding read_closed flatten
    read_closed-Gives s s' from to n m [] [] same h = (same, refl)
    read_closed-Gives s s' from to n m [] (fs ∷ fss) same h = elim h [ ]
    read_closed-Gives s s' from to n m (c ∷ cs) [] same h = elim h [ ]
    read_closed-Gives s s' from to n m (c ∷ cs) (fs ∷ fss) same
          (base, some_record, last, (limit, (file, here, le, placed)), run) =
        let more = read_closed-Gives s s' from to (n + length fs) m cs fss same run in
        let here' = select (in_range from to) n (entries fs) in
        let later = select (in_range from to) (n + length fs) (entries (flatten fss)) in
        let split : select (in_range from to) n (entries (fs ++ flatten fss)) ≡ here' ++ later =
          select-entries_append (in_range from to) n fs (flatten fss) in
        elim (Bool-cases (ltb c.last_offset from)) [
          | inl before ↦
              let skipped : here' ≡ [] =
                select_none (in_range from to) n (entries fs)
                  λ i a b. (let size = length-entries fs in ground arith) in
              rw (before, read_closed, split, skipped) more
          | inr reaches ↦ elim (Bool-cases (leb to c.base_offset)) [
            | inl past ↦
                let none_left : select (in_range from to) n (entries (fs ++ flatten fss)) ≡ [] =
                  select_none (in_range from to) n (entries (fs ++ flatten fss))
                    λ i a b. ground arith in
                rw (reaches, past, read_closed, none_left) (same, refl)
            | inr inside ↦
                rw (reaches, inside, read_closed, split, base)
                  (read_both-Gives s s' from to n (c.last_offset + 1) limit c.positions fs file
                    (read_closed w from to cs) later same here placed last
                    λ s2 same2. read_closed-Gives s s2 from to (n + length fs) m cs fss same2 run)
          ]
        ]

    read_active-Gives :
        (s s' : SegmentLog) (from to n m : ℕ) (active : Option ActiveSegment) (fs : List Frame)
        → s'.segs ≡ s.segs
        → ActiveRun w.externals s.segs active n fs m
        → Gives s (select (in_range from to) n (entries fs)) (read_active w from to active s')
    unfolding read_active
    read_active-Gives s s' from to n m none fs same (no_records, end) = rw no_records (same, refl)
    read_active-Gives s s' from to n m (some a) fs same (base, end, (file, here, le, placed)) =
        let size = length-Placed w.externals file a.next_file_pos n a.positions fs placed in
        let start = max from n in
        let stop = min to (n + length a.positions) in
        let empty = is_empty_lem a.positions in
        elim (Bool-cases (
          ltb a.base_offset to
          && (not (is_empty a.positions) && ltb from (a.base_offset + length a.positions)))) [
            | inl some_left ↦
                rw (some_left, read_active, base)
                  (subst (λ l. Gives s l (read_offsets w n a.positions start (stop - start) s'))
                    (select_clip from to n fs (n + length a.positions) (omega arith))
                    (read_offsets-Gives s s' n a.next_file_pos start (stop - start) a.positions fs
                      file same here placed (omega arith)))
            | inr none_left ↦
                let nothing : select (in_range from to) n (entries fs) ≡ [] =
                  select_none (in_range from to) n (entries fs)
                    λ i b c. (let entries_size = length-entries fs in ground arith) in
                rw (none_left, read_active, nothing) (same, refl)
          ]

    pub read_segments-Gives :
        (s : SegmentLog) (from to first : ℕ) (fss : List (List Frame)) (fs : List Frame)
        → IsLog w.externals first fss fs s
        → Gives s (select (in_range from to) first (log_entries fss fs)) (read_segments w from to s)
    unfolding read_segments
    read_segments-Gives s from to first fss fs h =
        let found = select (in_range from to) first (entries (flatten fss)) in
        let later = select (in_range from to) h.mid (entries fs) in
        let size = ClosedRun-size w.externals s.segs first h.mid s.closed fss h.closed_run in
        let split : select (in_range from to) first (log_entries fss fs) ≡ found ++ later =
          select-entries_append (in_range from to) first (flatten fss) fs
          ∙ ap (λ k. found ++ select (in_range from to) k (entries fs)) size in
        rw split (
          Gives-bind s found (found ++ later)
            (λ l. read_active w from to s.active >>= λ r. pure (l ++ r))
            (read_closed w from to s.closed s)
            (read_closed-Gives s s from to first h.mid s.closed fss refl h.closed_run)
            λ s2 same2.
              Gives-bind s later (found ++ later) (λ r. pure (found ++ r))
                (read_active w from to s.active s2)
                (read_active-Gives s s2 from to h.mid s.next_offset s.active fs same2 h.active_run)
                λ s3 same3. (same3, refl))
