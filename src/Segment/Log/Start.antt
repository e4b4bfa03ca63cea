-- ===== src/Segment/Log/Start.antt =====
-- adapter-event-log-segment/src/log.rs: `ensure_active`, whatever calls fail.
use otk_core.Prelude.{
  ℕ, suc, ◌+◌, ◌≡◌, ◌≤◌, ◌<◌, refl, sym, ap, ◌∙◌, Option, none, some, List, [], Bytes, length, take,
  to_le, length-to_le, length-append, arith, subst, ==_iff, Option-cases, inl, inr,
}
use otk_core.Segment.{header_len}
use otk_core.Segment.Record.{SegmentHeader, header_bytes}
use otk_core.Segment.Frames.{Frame}
use otk_core.Segment.Log.{World, SegmentLog, ActiveSegment, M, ◌>>◌, resume, pure, ignore, Ends}
use otk_core.Segment.Log.Files.{
  update, create_file, written_at, file_at, attempt, now, change, write_bytes, write_all,
}
use otk_core.Segment.Log.Roll.{set_active, create_segment, new_active, ensure_active}
use otk_core.Segment.Log.Valid.{ClosedRun, ActiveRun, IsLog}
use otk_core.Segment.Log.Keep.{written_at_new}
use otk_core.Segment.Log.Safe.{
  Ends-bind, attempt_state, change-Ends, write_all-Ends, update_other, ClosedRun-agree, Safe,
}

pub length-header_bytes : (h : SegmentHeader) → length (header_bytes h) ≡ header_len
unfolding header_bytes
length-header_bytes h = omega (
  arith,
  length-append (to_le 8 h.base_offset) (to_le 8 h.created_at_ns),
  length-to_le 8 h.base_offset,
  length-to_le 8 h.created_at_ns,
)

pub update_at :
    (segs : ℕ → Option Bytes) (base : ℕ) (o : Option Bytes) → update segs base o base ≡ o
update_at segs base o = rw ((==_iff base base).1 refl) refl

module _ (w : World) (first : ℕ) (fss : List (List Frame)) (fs : List Frame) where
  -- The log holds the records and has no active segment; the next offset is given.
  abbrev IsIdle : ℕ → SegmentLog → Type 0
  IsIdle base s = IsLog w.externals first fss fs s × (s.active ≡ none) × (s.next_offset ≡ base)

  IsIdle-rebuild :
      (base : ℕ) (s s' : SegmentLog)
      → IsIdle base s
      → s'.closed ≡ s.closed
      → s'.active ≡ s.active
      → s'.next_offset ≡ s.next_offset
      → ((k : ℕ) → k < base → s'.segs k ≡ s.segs k)
      → IsIdle base s'
  IsIdle-rebuild base s s' (h, idle, at) closed active next below =
      let (empty, end) =
        subst (λ o. ActiveRun w.externals s.segs o h.mid fs s.next_offset) idle h.active_run in
      let fit = h.fits in
      (
        record {
          mid = h.mid;
          closed_run =
              subst (λ cs. ClosedRun w.externals s'.segs first cs fss h.mid) (sym closed)
                (ClosedRun-agree w.externals s.segs s'.segs first h.mid s.closed fss
                  (λ k p q. below k (omega arith)) h.closed_run);
          active_run =
              subst (λ o. ActiveRun w.externals s'.segs o h.mid fs s'.next_offset)
                (sym (active ∙ idle)) (empty, end ∙ sym next);
          fits = omega arith;
        },
        active ∙ idle,
        next ∙ at,
      )

  -- The new file is there, with a size at least.
  abbrev IsReady : ℕ → ℕ → SegmentLog → Type 0
  IsReady base size s =
      IsIdle base s × ((file : Bytes) × (s.segs base ≡ some file) × (size ≤ length file))

  new_file-IsIdle :
      (base : ℕ) (file : Option Bytes) (c k : ℕ) (s : SegmentLog)
      → IsIdle base s
      → IsIdle base (record s { segs = update s.segs base file; cursor = c; calls = k })
  new_file-IsIdle base file c k s h =
      IsIdle-rebuild base s (record s { segs = update s.segs base file; cursor = c; calls = k }) h
        refl refl refl λ n below. update_other s.segs base n file (λ e. absurd (omega arith))

  calls-IsIdle :
      (base k : ℕ) (s : SegmentLog) → IsIdle base s → IsIdle base (record s { calls = k })
  calls-IsIdle base k s h =
      IsIdle-rebuild base s (record s { calls = k }) h refl refl refl (λ n below. refl)

  write_header-IsReady :
      (base : ℕ) (h : SegmentHeader) (s : SegmentLog)
      → IsIdle base s
      → s.cursor ≡ 0
      → IsReady base header_len (write_bytes base (header_bytes h) s)
  unfolding write_bytes
  write_header-IsReady base h s idle start =
      let (front, size) = written_at_new s.cursor (header_bytes h) (file_at s base) (omega arith) in
      let header = length-header_bytes h in
      (
        new_file-IsIdle base (some (written_at s.cursor (header_bytes h) (file_at s base)))
            (s.cursor + length (header_bytes h)) (suc s.calls) s idle,
        (
          written_at s.cursor (header_bytes h) (file_at s base),
          update_at s.segs base _,
          omega arith,
        ),
      )

  write_bytes-IsIdle :
      (base : ℕ) (bytes : Bytes) (s : SegmentLog)
      → IsIdle base s
      → IsIdle base (write_bytes base bytes s)
  unfolding write_bytes
  write_bytes-IsIdle base bytes s idle =
      new_file-IsIdle base (some (written_at s.cursor bytes (file_at s base)))
        (s.cursor + length bytes) (suc s.calls) s idle

  abbrev fresh : ℕ → ℕ → ActiveSegment
  fresh base ts = record {
    base_offset = base;
    positions = [];
    byte_size = 0;
    created_at_ns = ts;
    next_file_pos = header_len;
    last_appended_at_ns = 0;
  }

  fresh-Safe :
      (base ts : ℕ) (s : SegmentLog)
      → IsReady base header_len s
      → Safe w.externals first fss fs (fresh base ts) (record s { active = some (fresh base ts) })
  fresh-Safe base ts s ((h, idle, at), (file, here, size)) =
      let (empty, end) =
        subst (λ o. ActiveRun w.externals s.segs o h.mid fs s.next_offset) idle h.active_run in
      let same : base ≡ h.mid = sym (end ∙ at) in
      (
        record {
          mid = h.mid;
          closed_run = h.closed_run;
          active_run = (
            same,
            omega (arith, ap length empty),
            (file, subst (λ k. s.segs k ≡ some file) same here, size, rw empty tt),
          );
          fits = h.fits;
        },
        refl,
      )

  -- The rest of `new_active` once the time is read.
  start_file-Safe :
      (base ts : ℕ) (s : SegmentLog)
      → IsIdle base s
      → Ends (Safe w.externals first fss fs) (IsLog w.externals first fss fs) (
          resume
            (λ u.
              write_all w base (header_bytes (record { base_offset = base; created_at_ns = ts }))
              >> (ignore (attempt w)
                  >> (set_active (some (fresh base ts)) >> pure (fresh base ts))))
            (create_segment w base s))
  unfolding create_segment set_active
  start_file-Safe base ts s idle =
      let header : SegmentHeader = record { base_offset = base; created_at_ns = ts } in
      let last : M ActiveSegment =
        ignore (attempt w) >> (set_active (some (fresh base ts)) >> pure (fresh base ts)) in
      let valid = IsLog w.externals first fss fs in
      Ends-bind (λ u s2. IsIdle base s2 × (s2.cursor ≡ 0)) (Safe w.externals first fss fs) valid
        (λ u. write_all w base (header_bytes header) >> last) (change w (create_file base) s)
        (change-Ends w (λ s2. IsIdle base s2 × (s2.cursor ≡ 0)) valid (create_file base) s
          (new_file-IsIdle base (some []) 0 (suc s.calls) s idle, refl)
          (calls-IsIdle base (suc s.calls) s idle).0)
        λ u s2 created.
          Ends-bind (λ v. IsReady base header_len) (Safe w.externals first fss fs) valid (λ v. last)
            (write_all w base (header_bytes header) s2)
            (write_all-Ends w (IsReady base header_len) valid base (header_bytes header) s2
              (write_header-IsReady base header s2 created.0 created.1)
              (λ n. (write_bytes-IsIdle base (take n (header_bytes header)) s2 created.0).0))
            λ v s3 ready.
              subst
                (λ s4.
                  Safe w.externals first fss fs (fresh base ts)
                    (record s4 { active = some (fresh base ts) }))
                (sym (attempt_state w s3))
                (fresh-Safe base ts (record s3 { calls = suc s3.calls })
                  (calls-IsIdle base (suc s3.calls) s3 ready.0, ready.1))

  -- There is an active segment then, and the log holds what it held; so it does after an error.
  pub ensure_active-Safe :
      (s : SegmentLog)
      → IsLog w.externals first fss fs s
      → Ends (Safe w.externals first fss fs) (IsLog w.externals first fss fs) (ensure_active w s)
  unfolding ensure_active new_active now
  ensure_active-Safe s h = elim (Option-cases s.active) [
    | inr (a, is_active) ↦ rw (is_active, ensure_active) (h, is_active)
    | inl idle ↦
        rw (idle, ensure_active)
          (start_file-Safe s.next_offset (w.now_ns s.calls) (record s { calls = suc s.calls })
            (calls-IsIdle s.next_offset (suc s.calls) s (h, idle, refl)))
  ]
