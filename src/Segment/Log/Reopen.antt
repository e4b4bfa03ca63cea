-- ===== src/Segment/Log/Reopen.antt =====
-- adapter-event-log-segment/src/log.rs: what `open` finds after a crash.
use otk_core.Prelude.{
  ℕ, suc, ◌+◌, ◌-◌, ◌≡◌, ◌≤◌, refl, sym, ap, ◌∙◌, Option, none, some, List, [], ◌∷◌, ◌++◌, Bytes,
  Text, ok, length, ge→ltb, ==_iff, u64_max, arith, subst, length-append, append-nil, append_assoc,
}
use otk_core.Timing.Storage.{LogEntry}
use otk_core.Segment.{Externals, IsExternals, header_len}
use otk_core.Segment.Record.{SegmentHeader, header_bytes, read_header, read_record}
use otk_core.Segment.Record.RoundTrip.{read_header-header_bytes}
use otk_core.Segment.Frames.{Frame, content, starts, length-starts}
use otk_core.Segment.Index.{index_bytes, read_index, read_index-index_bytes}
use otk_core.Segment.Log.{World, SegmentLog, ClosedSegment, Ends}
use otk_core.Segment.Log.Files.{file_at}
use otk_core.Segment.Log.Reads.{attempt_calm}
use otk_core.Segment.Log.Valid.{ClosedRun, Placed}
use otk_core.Segment.Log.Safe.{Ends-bind}
use otk_core.Segment.Log.Rolled.{ClosedRun-snoc}
use otk_core.Segment.Log.Start.{length-header_bytes}
use otk_core.Segment.Log.Stored.{StoredRun, bases_of, Placed-starts, last_pos-Placed, starts_fit}
use otk_core.Segment.Log.Open.{
  last_pos, probe, is_there, add_closed, check_base, check_last, index_at, seg_there, idx_there,
  load_closed, load_positions, load_index, open_closed, open_base, open_bases,
}

pub StoredRun-le :
    (x : Externals) (segs : ℕ → Option Bytes) (idxs : ℕ → Option Bytes) (n m : ℕ)
    (fss : List (List Frame))
    → StoredRun x segs idxs n fss m
    → n ≤ m
StoredRun-le x segs idxs n m [] h = omega arith
StoredRun-le x segs idxs n m (fs ∷ fss) (some_record, file, indexed, small, size, framed, stored) =
    omega (arith, StoredRun-le x segs idxs (n + length fs) m fss stored)

module _ (w : World) (calm : (n : ℕ) → w.fault n ≡ none) (debug : Bytes → Text)
    (idx_path : ℕ → Text) (v : IsExternals w.externals) where
  abbrev loaded : ℕ → LogEntry → ℕ → ℕ → List ℕ → ClosedSegment
  loaded base e size p ps = record {
    base_offset = base;
    last_offset = base + length (p ∷ ps) - 1;
    last_appended_at_ns = e.appended_at_ns;
    byte_size = size;
    positions = p ∷ ps;
  }

  load_closed_lem :
      (base p : ℕ) (ps : List ℕ) (file : Bytes) (created : ℕ) (e : LogEntry) (s : SegmentLog)
      → s.segs base ≡ some file
      → base + length (p ∷ ps) ≤ u64_max
      → read_header w.externals debug file
        ≡ ok (record { base_offset = base; created_at_ns = created })
      → read_record w.externals file (last_pos p ps) ≡ ok e
      → e.offset ≡ base + length (p ∷ ps) - 1
      → load_closed w debug idx_path base p ps s ≡ (
        record s {
          closed = s.closed ++ loaded base e (length file) p ps ∷ [];
          next_offset = base + length (p ∷ ps);
          calls = suc (suc (suc s.calls));
        },
        ok tt,
      )
  unfolding load_closed check_base check_last add_closed file_at
  load_closed_lem base p ps file created e s here fits header last number =
      let s1 = record s { calls = suc s.calls } in
      let s2 = record s { calls = suc (suc s.calls) } in
      rw
        (
          ge→ltb u64_max (base + length (p ∷ ps)) fits,
          attempt_calm w calm s,
          here,
          header,
          (==_iff base base).1 refl,
          attempt_calm w calm s1,
          here,
          last,
          number,
          (==_iff (base + length (p ∷ ps) - 1) (base + length (p ∷ ps) - 1)).1 refl,
          attempt_calm w calm s2,
          here,
        )
        refl

  open_closed_lem :
      (base p : ℕ) (ps : List ℕ) (file : Bytes) (created : ℕ) (e : LogEntry) (s : SegmentLog)
      → s.segs base ≡ some file
      → s.idxs base ≡ some (index_bytes (p ∷ ps))
      → read_index (idx_path base) (index_bytes (p ∷ ps)) ≡ ok (p ∷ ps)
      → base + length (p ∷ ps) ≤ u64_max
      → read_header w.externals debug file
        ≡ ok (record { base_offset = base; created_at_ns = created })
      → read_record w.externals file (last_pos p ps) ≡ ok e
      → e.offset ≡ base + length (p ∷ ps) - 1
      → (k : ℕ) × (open_base w debug idx_path base s ≡ (
        record s {
          closed = s.closed ++ loaded base e (length file) p ps ∷ [];
          next_offset = base + length (p ∷ ps);
          calls = k;
        },
        ok tt,
      ))
  unfolding open_base open_closed load_index load_positions idx_there seg_there probe is_there
      index_at
  open_closed_lem base p ps file created e s here indexed index fits header last number =
      let s1 = record s { calls = suc s.calls } in
      let s2 = record s { calls = suc (suc s.calls) } in
      let s3 = record s { calls = suc (suc (suc s.calls)) } in
      let s4 = record s { calls = suc (suc (suc (suc s.calls))) } in
      (
        suc (suc (suc (suc (suc (suc (suc s.calls)))))),
        rw
            (
              attempt_calm w calm s,
              indexed,
              attempt_calm w calm s1,
              here,
              attempt_calm w calm s2,
              attempt_calm w calm s3,
              indexed,
              index,
            )
            (load_closed_lem base p ps file created e s4 here fits header last number),
      )

  -- What is found of a closed segment: the log as it was, and the segment at its end.
  abbrev Found : ℕ → List Frame → SegmentLog → SegmentLog → Type 0
  Found base fs s s' =
      (s'.segs ≡ s.segs)
      × (s'.idxs ≡ s.idxs)
      × (s'.active ≡ s.active)
      × ((c : ClosedSegment) × (s'.closed ≡ s.closed ++ c ∷ [])
          × ClosedRun w.externals s.segs base (c ∷ []) (fs ∷ []) (base + length fs))

  open_base-Found :
      (base : ℕ) (fs : List Frame) (s : SegmentLog)
      → StoredRun w.externals s.segs s.idxs base (fs ∷ []) (base + length fs)
      → base + length fs ≤ u64_max
      → Ends (λ u. Found base fs s) (λ s'. ⊥) (open_base w debug idx_path base s)
  open_base-Found base [] s (some_record, file, indexed, small, size, framed, end) fits =
      absurd (omega arith)
  open_base-Found base ((e0, b) ∷ fs') s
        (some_record, (file, rest, here, (created, at, same)), indexed, small, size, framed, end)
        fits =
      let fs : List Frame = (e0, b) ∷ fs' in
      let header : SegmentHeader = record { base_offset = base; created_at_ns = created } in
      let front = header_bytes header in
      let start = length-header_bytes header in
      let limit = header_len + length (content fs) in
      let ps = starts (header_len + length b) fs' in
      let placed : Placed w.externals file limit base (header_len ∷ ps) fs =
        subst (λ g. Placed w.externals g limit base (header_len ∷ ps) fs) (sym same)
          (subst
            (λ k. Placed w.externals (front ++ (content fs ++ rest)) limit base (starts k fs) fs)
            start (Placed-starts w.externals limit base front rest fs framed (omega arith))) in
      let (e, read, number) =
        last_pos-Placed w.externals v file limit base header_len ps fs placed in
      let count : length (header_len ∷ ps) ≡ length fs = length-starts header_len fs in
      let (k, opened) =
        open_closed_lem base header_len ps file created e s here indexed
          (read_index-index_bytes (idx_path base) (header_len ∷ ps)
            (starts_fit w.externals header_len fs size) (omega arith))
          (omega arith)
          (ap (read_header w.externals debug) same
            ∙ read_header-header_bytes w.externals debug header (content fs ++ rest) (omega arith)
                at)
          read (omega arith) in
      let long : limit ≤ length file = omega (
        arith,
        ap length same,
        length-append front (content fs ++ rest),
        length-append (content fs) rest,
      ) in
      subst (λ r. Ends (λ u. Found base fs s) (λ s'. ⊥) r) (sym opened)
        (
          refl,
          refl,
          refl,
          (
            loaded base e (length file) header_len ps,
            refl,
            (refl, some_record, omega arith, (limit, (file, here, long, placed)), refl),
          ),
        )

  -- The loop over the closed segments, before those that come after.
  pub open_bases-Found :
      (Q : SegmentLog → Type 0) (first n m : ℕ) (fss done : List (List Frame)) (more : List ℕ)
      (s : SegmentLog)
      → StoredRun w.externals s.segs s.idxs n fss m
      → m ≤ u64_max
      → ClosedRun w.externals s.segs first s.closed done n
      → ((s' : SegmentLog)
          → s'.segs ≡ s.segs
          → s'.idxs ≡ s.idxs
          → s'.active ≡ s.active
          → ClosedRun w.externals s.segs first s'.closed (done ++ fss) m
          → Ends (λ u. Q) (λ s2. ⊥) (open_bases w debug idx_path more s'))
      → Ends (λ u. Q) (λ s2. ⊥) (open_bases w debug idx_path (bases_of n fss ++ more) s)
  unfolding open_bases
  open_bases-Found Q first n m [] done more s stored fits run next = next s refl refl refl (
      rw (append-nil done)
        (subst (λ k. ClosedRun w.externals s.segs first s.closed done k) stored run))
  open_bases-Found Q first n m (fs ∷ fss) done more s
        (some_record, file, indexed, small, size, framed, stored) fits run next =
      let end = StoredRun-le w.externals s.segs s.idxs (n + length fs) m fss stored in
      Ends-bind (λ u. Found n fs s) (λ u. Q) (λ s2. ⊥)
        (λ u. open_bases w debug idx_path (bases_of (n + length fs) fss ++ more))
        (open_base w debug idx_path n s)
        (open_base-Found n fs s (some_record, file, indexed, small, size, framed, refl)
          (omega arith))
        λ u s2 found.
          let (segs, idxs, active, (c, closed, single)) = found in
          let longer =
            subst (λ cs. ClosedRun w.externals s.segs first cs (done ++ fs ∷ []) (n + length fs))
              (sym closed)
              (ClosedRun-snoc w.externals s.segs first n s.closed done c fs (n + length fs) run
                single) in
          open_bases-Found Q first (n + length fs) m fss (done ++ fs ∷ []) more s2
            (rw (segs, idxs) stored) fits (rw segs longer)
            λ s3 segs3 idxs3 active3 run3.
              next s3 (segs3 ∙ segs) (idxs3 ∙ idxs) (active3 ∙ active)
                (rw (← segs, ← append_assoc done (fs ∷ []) fss) run3)
