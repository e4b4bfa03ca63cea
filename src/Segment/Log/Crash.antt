-- ===== src/Segment/Log/Crash.antt =====
-- adapter-event-log-segment/src/log.rs: `open` on the directory that a crash leaves.
use otk_core.Prelude.{
  ℕ, suc, ◌+◌, ◌-◌, ◌≡◌, ◌≤◌, refl, sym, ap, ◌∙◌, false, Option, none, some, List, [], ◌∷◌, ◌++◌,
  Bytes, Text, ok, length, take, ge→ltb, le→leb, ==_iff, u64_max, arith, subst, length-append,
  length-take, append-nil, All, IsByte, All-append, to_le-IsByte, to_le,
}
use otk_core.Segment.{IsExternals, header_len, version}
use otk_core.Segment.Record.{SegmentHeader, header_bytes, read_header, magic}
use otk_core.Segment.Record.RoundTrip.{read_header-header_bytes}
use otk_core.Segment.Frames.{Frame, content, starts, Framed, Framed-take, length-starts}
use otk_core.Segment.Recover.{recover_active}
use otk_core.Segment.Recover.Cut.{whole, recover_active-cut}
use otk_core.Segment.Log.{World, SegmentLog, ActiveSegment, resume, Ends}
use otk_core.Segment.Log.Files.{update, file_at}
use otk_core.Segment.Log.Reads.{attempt_calm}
use otk_core.Segment.Log.Valid.{ClosedRun, IsLog, Placed}
use otk_core.Segment.Log.Safe.{Ends-bind, file_at-some, ClosedRun-agree, update_other}
use otk_core.Segment.Log.Start.{length-header_bytes, update_at}
use otk_core.Segment.Log.Stored.{StoredRun, bases_of, Placed-starts, last_pos-Placed}
use otk_core.Segment.Log.Names.{seg_bases, sort_bases}
use otk_core.Segment.Log.Reopen.{open_bases-Found}
use otk_core.Segment.Log.Open.{
  probe, is_there, put_file, check_base, idx_there, drop_orphan, load_header, active_header,
  last_time, start_active, open_active, open_base, open_bases, scan_dir, no_segments, restore_next,
  open_log,
}

header_bytes-IsByte : (h : SegmentHeader) → All IsByte (header_bytes h)
unfolding header_bytes
header_bytes-IsByte h =
    All-append IsByte (magic ++ (version ∷ 0 ∷ 0 ∷ 0 ∷ []))
      (to_le 8 h.base_offset ++ to_le 8 h.created_at_ns) (omega arith)
      (All-append IsByte (to_le 8 h.base_offset) (to_le 8 h.created_at_ns)
        (to_le-IsByte 8 h.base_offset) (to_le-IsByte 8 h.created_at_ns))

file_at_put :
    (s : SegmentLog) (segs : ℕ → Option Bytes) (base k : ℕ) (file : Bytes)
    → file_at (record s { segs = update segs base (some file); calls = k }) base ≡ file
unfolding file_at
file_at_put s segs base k file = rw (update_at segs base (some file), file_at) refl

module _ (w : World) (calm : (n : ℕ) → w.fault n ≡ none) (debug : Bytes → Text)
    (idx_path : ℕ → Text) (v : IsExternals w.externals) where
  drop_orphan-none :
      (o : Option ActiveSegment) (s : SegmentLog)
      → o ≡ none
      → drop_orphan w debug idx_path o s ≡ (s, ok tt)
  unfolding drop_orphan
  drop_orphan-none o s h = rw h refl

  -- The time of the last record is read, of records that stand in the file.
  last_time_lem :
      (base limit : ℕ) (ps : List ℕ) (fs : List Frame) (segs : ℕ → Option Bytes) (file : Bytes)
      (k : ℕ) (s : SegmentLog)
      → Placed w.externals file limit base ps fs
      → (t k' : ℕ) × (last_time w debug idx_path base ps
            (record s { segs = update segs base (some file); calls = k })
          ≡ (record s { segs = update segs base (some file); calls = k' }, ok t))
  unfolding last_time
  last_time_lem base limit [] fs segs file k s h = (0, k, refl)
  last_time_lem base limit (p ∷ ps) fs segs file k s h =
      let (e, read, number) = last_pos-Placed w.externals v file limit base p ps fs h in
      (
        e.appended_at_ns,
        suc k,
        rw
            (
              attempt_calm w calm (record s { segs = update segs base (some file); calls = k }),
              file_at_put s segs base (suc k) file,
              read,
            )
            refl,
      )

  active_header_lem :
      (base created k : ℕ) (segs : ℕ → Option Bytes) (file : Bytes) (s : SegmentLog)
      → header_len ≤ length file
      → read_header w.externals debug file
        ≡ ok (record { base_offset = base; created_at_ns = created })
      → active_header w debug idx_path base
          (record s { segs = update segs base (some file); calls = k })
        ≡ (record s { segs = update segs base (some file); calls = suc k }, ok created)
  unfolding active_header load_header check_base
  active_header_lem base created k segs file s long header =
      rw
        (
          file_at_put s segs base k file,
          le→leb header_len (length file) long,
          attempt_calm w calm (record s { segs = update segs base (some file); calls = k }),
          file_at_put s segs base (suc k) file,
          header,
          (==_iff base base).1 refl,
        )
        refl

  -- The active segment that `open` finds in a file.
  abbrev recovered : ℕ → ℕ → ℕ → List Frame → ActiveSegment
  recovered base created t fs = record {
    base_offset = base;
    positions = starts header_len fs;
    byte_size = header_len + length (content fs) - header_len;
    created_at_ns = created;
    next_file_pos = header_len + length (content fs);
    last_appended_at_ns = t;
  }

  open_active_lem :
      (base created : ℕ) (file front : Bytes) (fs : List Frame) (s : SegmentLog)
      → s.segs base ≡ some file
      → s.active ≡ none
      → header_len ≤ length file
      → read_header w.externals debug file
        ≡ ok (record { base_offset = base; created_at_ns = created })
      → recover_active w.externals file base
        ≡ ok (record {
          file = front ++ content fs;
          positions = starts header_len fs;
          next_pos = header_len + length (content fs);
        })
      → length front ≡ header_len
      → Framed w.externals base fs
      → base + length fs ≤ u64_max
      → (t k : ℕ) × (open_active w debug idx_path base s ≡ (
        record s {
          active = some (recovered base created t fs);
          next_offset = base + length (starts header_len fs);
          cursor = header_len + length (content fs);
          segs = update (update s.segs base (some file)) base (some (front ++ content fs));
          calls = k;
        },
        ok tt,
      ))
  unfolding open_active put_file start_active
  open_active_lem base created file front fs s here idle long header rec start framed fits =
      let limit = header_len + length (content fs) in
      let placed : Placed w.externals (front ++ content fs) limit base (starts header_len fs) fs =
        subst (λ p. Placed w.externals (front ++ content fs) limit base (starts p fs) fs) start
          (subst (λ r. Placed w.externals (front ++ r) limit base (starts (length front) fs) fs)
            (append-nil (content fs))
            (Placed-starts w.externals limit base front [] fs framed (omega arith))) in
      let segs1 = update s.segs base (some file) in
      let (t, k, last) =
        last_time_lem base limit (starts header_len fs) fs segs1 (front ++ content fs)
          (suc (suc (suc s.calls))) s placed in
      let s1 = record s { calls = suc s.calls } in
      let count = length-starts header_len fs in
      (
        t,
        k,
        rw
            (
              drop_orphan-none s.active s idle,
              attempt_calm w calm s,
              file_at-some s1 base file here,
              attempt_calm w calm (record s { segs = segs1; calls = suc s.calls }),
              active_header_lem base created (suc (suc s.calls)) s.segs file s long header,
              file_at_put s s.segs base (suc (suc (suc s.calls))) file,
              rec,
              last,
              ge→ltb u64_max (base + length (starts header_len fs)) (omega arith),
            )
            refl,
      )

  open_active-base :
      (base created : ℕ) (file front : Bytes) (fs : List Frame) (s : SegmentLog)
      → s.idxs base ≡ none
      → s.segs base ≡ some file
      → s.active ≡ none
      → header_len ≤ length file
      → read_header w.externals debug file
        ≡ ok (record { base_offset = base; created_at_ns = created })
      → recover_active w.externals file base
        ≡ ok (record {
          file = front ++ content fs;
          positions = starts header_len fs;
          next_pos = header_len + length (content fs);
        })
      → length front ≡ header_len
      → Framed w.externals base fs
      → base + length fs ≤ u64_max
      → (t k : ℕ) × (open_base w debug idx_path base s ≡ (
        record s {
          active = some (recovered base created t fs);
          next_offset = base + length (starts header_len fs);
          cursor = header_len + length (content fs);
          segs = update (update s.segs base (some file)) base (some (front ++ content fs));
          calls = k;
        },
        ok tt,
      ))
  unfolding open_base idx_there probe is_there
  open_active-base base created file front fs s unindexed here idle long header rec start framed
        fits =
      let (t, k, opened) =
        open_active_lem base created file front fs (record s { calls = suc s.calls }) here idle long
          header rec start framed fits in
      (t, k, rw (attempt_calm w calm s, unindexed) opened)

  scan_dir_calm :
      (names : List Text) (s : SegmentLog)
      → (k : ℕ) × (scan_dir w debug idx_path names s ≡ (record s { calls = k }, ok tt))
  unfolding scan_dir
  scan_dir_calm [] s = (suc s.calls, attempt_calm w calm s)
  scan_dir_calm (name ∷ names) s =
      let (k, rest) = scan_dir_calm names (record s { calls = suc s.calls }) in
      (k, rw (attempt_calm w calm s) rest)

  restore_next-some :
      (a : ActiveSegment) (s : SegmentLog)
      → s.active ≡ some a
      → restore_next w debug idx_path s ≡ (s, ok tt)
  unfolding restore_next
  restore_next-some a s h = rw (no_segments-some a s h, restore_next) refl
    where
      no_segments-some :
          (a : ActiveSegment) (s : SegmentLog) → s.active ≡ some a → no_segments s ≡ false
      no_segments-some a s h = unfold no_segments is_there in ground arith

  -- The log that `open` leaves, with its active segment.
  recovered-IsLog :
      (first base created t k : ℕ) (fss : List (List Frame)) (file front : Bytes) (fs : List Frame)
      (s : SegmentLog)
      → ClosedRun w.externals s.segs first s.closed fss base
      → length front ≡ header_len
      → Framed w.externals base fs
      → base + length fs ≤ u64_max
      → IsLog w.externals first fss fs (record s {
        active = some (recovered base created t fs);
        next_offset = base + length (starts header_len fs);
        cursor = header_len + length (content fs);
        segs = update (update s.segs base (some file)) base (some (front ++ content fs));
        calls = k;
      })
  recovered-IsLog first base created t k fss file front fs s run start framed fits =
      let limit = header_len + length (content fs) in
      let count = length-starts header_len fs in
      let segs1 = update s.segs base (some file) in
      let segs2 = update segs1 base (some (front ++ content fs)) in
      let placed : Placed w.externals (front ++ content fs) limit base (starts header_len fs) fs =
        subst (λ p. Placed w.externals (front ++ content fs) limit base (starts p fs) fs) start
          (subst (λ r. Placed w.externals (front ++ r) limit base (starts (length front) fs) fs)
            (append-nil (content fs))
            (Placed-starts w.externals limit base front [] fs framed (omega arith))) in
      record {
        mid = base;
        closed_run =
            ClosedRun-agree w.externals s.segs segs2 first base s.closed fss
              (λ n p q.
                update_other segs1 base n (some (front ++ content fs)) (λ e. absurd (omega arith))
                ∙ update_other s.segs base n (some file) (λ e. absurd (omega arith)))
              run;
        active_run = (
          refl,
          omega arith,
          (
            front ++ content fs,
            update_at segs1 base _,
            omega (arith, length-append front (content fs)),
            placed,
          ),
        );
        fits = omega arith;
      }

  -- A directory holds closed segments with their indexes, whose records have the offsets from the first
  -- on without a gap, and a last segment without an index, which a crash has cut after any number k of
  -- the bytes that follow its header. Its files are listed in any order among others. Then, where no
  -- call to the system fails, `open` succeeds, and the log holds the records of the closed segments and
  -- those of the last that lie whole in the k bytes. Sizes and offsets fit in a u64, and an index in
  -- 256 MiB.
  pub open_log-IsLog :
      (names : List Text) (first base created k : ℕ) (fss : List (List Frame)) (fs : List Frame)
      (s : SegmentLog)
      → sort_bases (seg_bases names) ≡ bases_of first fss ++ base ∷ []
      → StoredRun w.externals s.segs s.idxs first fss base
      → s.idxs base ≡ none
      → s.segs base
        ≡ some (
            header_bytes (record { base_offset = base; created_at_ns = created })
            ++ take k (content fs))
      → created ≤ u64_max
      → Framed w.externals base fs
      → header_len + length (content fs) ≤ u64_max
      → base + length fs ≤ u64_max
      → s.closed ≡ []
      → s.active ≡ none
      → Ends
          (λ u s'. IsLog w.externals first fss (take (whole k fs) fs) s')
          (λ s'. ⊥)
          (open_log w debug idx_path names s)
  unfolding open_log open_bases
  open_log-IsLog names first base created k fss fs s listed stored unindexed here at framed size
        fits empty idle =
      let s2 = record s { calls = suc s.calls } in
      let s3 = record s { calls = suc (suc s.calls) } in
      let (n, scanned) = scan_dir_calm names s3 in
      let s4 = record s { calls = n } in
      rw (attempt_calm w calm s, attempt_calm w calm s2, scanned, listed)
        (Ends-bind (λ u. Opened) (λ u s'. IsLog w.externals first fss kept s') (λ s'. ⊥)
          (λ u. restore_next w debug idx_path)
          (open_bases w debug idx_path (bases_of first fss ++ base ∷ []) s4)
          (open_bases-Found w calm debug idx_path v Opened first first base fss [] (base ∷ []) s4
            stored (omega arith)
            (subst (λ cs. ClosedRun w.externals s.segs first cs [] first) (sym empty) refl)
            λ s5 segs idxs active run.
              open_last s5 (ap (λ g. g base) idxs ∙ unindexed) (ap (λ g. g base) segs ∙ here)
                (active ∙ idle) (rw segs run))
          λ u s6 opened.
            let (a, is_active, valid) = opened in
            subst (λ r. Ends (λ u s'. IsLog w.externals first fss kept s') (λ s'. ⊥) r)
              (sym (restore_next-some a s6 is_active)) valid)
    where
      kept : List Frame
      kept = take (whole k fs) fs

      Opened : SegmentLog → Type 0
      Opened s' = (a : ActiveSegment) × (s'.active ≡ some a) × IsLog w.externals first fss kept s'

      open_last :
          (s5 : SegmentLog)
          → s5.idxs base ≡ none
          → s5.segs base
            ≡ some (
                header_bytes (record { base_offset = base; created_at_ns = created })
                ++ take k (content fs))
          → s5.active ≡ none
          → ClosedRun w.externals s5.segs first s5.closed fss base
          → Ends (λ u. Opened) (λ s'. ⊥) (open_bases w debug idx_path (base ∷ []) s5)
      open_last s5 unindexed5 here5 idle5 run =
          let front = header_bytes (record { base_offset = base; created_at_ns = created }) in
          let start =
            length-header_bytes (record { base_offset = base; created_at_ns = created }) in
          let file = front ++ take k (content fs) in
          let framed' = Framed-take w.externals (whole k fs) base fs framed in
          let fewer : base + length kept ≤ u64_max = omega (arith, length-take (whole k fs) fs) in
          let (t, n, opened) =
            open_active-base base created file front kept s5 unindexed5 here5 idle5
              (omega (arith, length-append front (take k (content fs))))
              (read_header-header_bytes w.externals debug
                (record { base_offset = base; created_at_ns = created }) (take k (content fs))
                (omega arith) at)
              (recover_active-cut w.externals v base front fs k start (header_bytes-IsByte _) framed
                size)
              start framed' fewer in
          subst (λ r. Ends (λ u. Opened) (λ s'. ⊥) (resume (λ u. open_bases w debug idx_path []) r))
            (sym opened)
            (
              recovered base created t kept,
              refl,
              recovered-IsLog first base created t n fss file front kept s5 run start framed' fewer,
            )
