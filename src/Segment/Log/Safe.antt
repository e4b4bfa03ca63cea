-- ===== src/Segment/Log/Safe.antt =====
-- adapter-event-log-segment/src/log.rs: the calls that keep the log and its files in accord.
use otk_core.Prelude.{
  ℕ, suc, Bool, true, false, ◌+◌, ◌≡◌, ◌≢◌, ◌≤◌, ◌<◌, refl, sym, ap, ◌∙◌, Option, some, List, [],
  ◌∷◌, Bytes, Result, ok, err, length, take, arith, subst, if◌then◌else◌, Option-cases, inl, inr,
}
use otk_core.Segment.{Externals}
use otk_core.Segment.Frames.{Frame}
use otk_core.Timing.Storage.{StorageError}
use otk_core.Segment.Log.{
  World, SegmentLog, ClosedSegment, ActiveSegment, M, resume, cleanup_after, Ends,
}
use otk_core.Segment.Log.Files.{
  update, seek_to, resize_file, resized, written_at, file_at, attempt, change, seek, set_len,
  write_bytes, write_all,
}
use otk_core.Segment.Log.Valid.{HasRecords, ClosedRun, ClosedRun-size, ActiveRun, IsLog}
use otk_core.Segment.Log.Keep.{Keeps, resized-Keeps, written_at-Keeps, HasRecords-Keeps}

pub Ends-bind :
    {A B : Type 0} (Q : A → SegmentLog → Type 0) (R : B → SegmentLog → Type 0)
    (E : SegmentLog → Type 0) (next : A → M B) (r : SegmentLog × Result StorageError A)
    → Ends Q E r
    → ((a : A) (s : SegmentLog) → Q a s → Ends R E (next a s))
    → Ends R E (resume next r)
Ends-bind Q R E next (s, ok a) h k = k a s h
Ends-bind Q R E next (s, err e) h k = h

-- What holds of the log at the end in any case.
pub Ends-always :
    {A : Type 0} (P : SegmentLog → Type 0) (r : SegmentLog × Result StorageError A)
    → P r.0
    → Ends (λ a. P) P r
Ends-always P (s, ok a) h = h
Ends-always P (s, err e) h = h

pub Ends-mono :
    {A : Type 0} (Q R : A → SegmentLog → Type 0) (E F : SegmentLog → Type 0)
    (r : SegmentLog × Result StorageError A)
    → Ends Q E r
    → ((a : A) (s : SegmentLog) → Q a s → R a s)
    → ((s : SegmentLog) → E s → F s)
    → Ends R F r
Ends-mono Q R E F (s, ok a) h k l = k a s h
Ends-mono Q R E F (s, err e) h k l = l s h

pub Ends-if :
    {A : Type 0} (Q : A → SegmentLog → Type 0) (E : SegmentLog → Type 0) (b : Bool)
    (r r' : SegmentLog × Result StorageError A)
    → Ends Q E r
    → (b ≡ false → Ends Q E r')
    → Ends Q E (if b then r else r')
Ends-if Q E true r r' h k = h
Ends-if Q E false r r' h k = k refl

pub Ends-from :
    {A : Type 0} (P E : SegmentLog → Type 0) (r : SegmentLog × Result StorageError A)
    → P r.0
    → ((s : SegmentLog) → P s → E s)
    → Ends (λ a. P) E r
Ends-from P E (s, ok a) h k = h
Ends-from P E (s, err e) h k = k s h

pub Ends-state :
    {A : Type 0} (P : SegmentLog → Type 0) (r : SegmentLog × Result StorageError A)
    → Ends (λ a. P) P r
    → P r.0
Ends-state P (s, ok a) h = h
Ends-state P (s, err e) h = h

pub Ends-or_cleanup :
    {A : Type 0} (Q : A → SegmentLog → Type 0) (E F : SegmentLog → Type 0) (cleanup : M (Unit {0}))
    (r : SegmentLog × Result StorageError A)
    → Ends Q E r
    → ((s : SegmentLog) → E s → F (cleanup s).0)
    → Ends Q F (cleanup_after cleanup r)
Ends-or_cleanup Q E F cleanup (s, ok a) h k = h
Ends-or_cleanup Q E F cleanup (s, err e) h k = k s h

pub update_other :
    (segs : ℕ → Option Bytes) (base k : ℕ) (o : Option Bytes)
    → k ≢ base
    → update segs base o k ≡ segs k
update_other segs base k o h = ground arith

module _ (w : World) where
  pub attempt_state : (s : SegmentLog) → (attempt w s).0 ≡ record s { calls = suc s.calls }
  unfolding attempt
  attempt_state s = elim (Option-cases (w.fault s.calls)) [
    | inl e ↦ rw (e, attempt) refl
    | inr (f, e) ↦ rw (e, attempt) refl
  ]

  -- A change is made, or the log is as before but for the number of the call.
  pub change-Ends :
      (Q : SegmentLog → Type 0) (E : SegmentLog → Type 0) (f : SegmentLog → SegmentLog)
      (s : SegmentLog)
      → Q (f (record s { calls = suc s.calls }))
      → E (record s { calls = suc s.calls })
      → Ends (λ a. Q) E (change w f s)
  unfolding change attempt
  change-Ends Q E f s q e = elim (Option-cases (w.fault s.calls)) [
    | inl h ↦ rw (h, change, attempt) q
    | inr (g, h) ↦ rw (h, change, attempt) e
  ]

  pub write_all-Ends :
      (Q : SegmentLog → Type 0) (E : SegmentLog → Type 0) (base : ℕ) (bytes : Bytes)
      (s : SegmentLog)
      → Q (write_bytes base bytes s)
      → ((n : ℕ) → E (write_bytes base (take n bytes) s))
      → Ends (λ a. Q) E (write_all w base bytes s)
  unfolding write_all
  write_all-Ends Q E base bytes s q e = elim (Option-cases (w.fault s.calls)) [
    | inl h ↦ rw (h, write_all) q
    | inr (g, h) ↦ rw (h, write_all) (e g.written)
  ]

pub ClosedRun-agree :
    (x : Externals) (segs segs' : ℕ → Option Bytes) (n m : ℕ) (cs : List ClosedSegment)
    (fss : List (List Frame))
    → ((k : ℕ) → n ≤ k → k < m → segs' k ≡ segs k)
    → ClosedRun x segs n cs fss m
    → ClosedRun x segs' n cs fss m
ClosedRun-agree x segs segs' n m [] [] same h = h
ClosedRun-agree x segs segs' n m [] (fs ∷ fss) same h = elim h [ ]
ClosedRun-agree x segs segs' n m (c ∷ cs) [] same h = elim h [ ]
ClosedRun-agree x segs segs' n m (c ∷ cs) (fs ∷ fss) same
      (base, some_record, last, (limit, (file, here, le, rest)), run) =
    let size = ClosedRun-size x segs (n + length fs) m cs fss run in
    (
      base,
      some_record,
      last,
      (limit, (file, same n (omega arith) (omega arith) ∙ here, le, rest)),
      ClosedRun-agree x segs segs' (n + length fs) m cs fss (λ k p q. same k (omega arith) q) run,
    )

pub file_at-some :
    (s : SegmentLog) (base : ℕ) (file : Bytes) → s.segs base ≡ some file → file_at s base ≡ file
unfolding file_at
file_at-some s base file h = rw (h, file_at) refl

module _ (x : Externals) (first : ℕ) (fss : List (List Frame)) (fs : List Frame) where
  -- The log holds the records, and its active segment is the one given.
  abbrev pub Safe : ActiveSegment → SegmentLog → Type 0
  Safe a s = IsLog x first fss fs s × (s.active ≡ some a)

  pub Safe-parts :
      (a : ActiveSegment) (s : SegmentLog)
      → Safe a s
      → (mid : ℕ) × ClosedRun x s.segs first s.closed fss mid
        × (a.base_offset ≡ mid)
        × (a.base_offset + length fs ≡ s.next_offset)
        × HasRecords x s.segs a.base_offset a.next_file_pos a.positions fs
  Safe-parts a s (h, is_active) =
      let (base, end, records) =
        subst (λ o. ActiveRun x s.segs o h.mid fs s.next_offset) is_active h.active_run in
      (
        h.mid,
        h.closed_run,
        base,
        ap (λ k. k + length fs) base ∙ end,
        subst (λ k. HasRecords x s.segs k a.next_file_pos a.positions fs) (sym base) records,
      )

  -- The file of the active segment may change beyond its records.
  pub Safe-rebuild :
      (a : ActiveSegment) (s s' : SegmentLog)
      → Safe a s
      → s'.closed ≡ s.closed
      → s'.active ≡ s.active
      → s'.next_offset ≡ s.next_offset
      → ((k : ℕ) → k < a.base_offset → s'.segs k ≡ s.segs k)
      → HasRecords x s'.segs a.base_offset a.next_file_pos a.positions fs
      → Safe a s'
  Safe-rebuild a s s' (h, is_active) closed active next below records =
      let (mid, run, base, end, old) = Safe-parts a s (h, is_active) in
      let fit = h.fits in
      (
        record {
          mid = mid;
          closed_run =
              subst (λ cs. ClosedRun x s'.segs first cs fss mid) (sym closed)
                (ClosedRun-agree x s.segs s'.segs first mid s.closed fss
                  (λ k p q. below k (omega arith)) run);
          active_run =
              subst (λ o. ActiveRun x s'.segs o mid fs s'.next_offset) (sym (active ∙ is_active))
                (
                  base,
                  (omega arith),
                  subst (λ k. HasRecords x s'.segs k a.next_file_pos a.positions fs) base records,
                );
          fits = omega arith;
        },
        active ∙ is_active,
      )

  pub calls-Safe :
      (a : ActiveSegment) (n : ℕ) (s : SegmentLog) → Safe a s → Safe a (record s { calls = n })
  calls-Safe a n s (h, is_active) = (
    record { mid = h.mid; closed_run = h.closed_run; active_run = h.active_run; fits = h.fits },
    is_active,
  )

  pub file_at_records :
      (a : ActiveSegment) (s : SegmentLog)
      → Safe a s
      → (s.segs a.base_offset ≡ some (file_at s a.base_offset))
        × (a.next_file_pos ≤ length (file_at s a.base_offset))
  file_at_records a s h =
      let (mid, run, base, end, (file, here, le, placed)) = Safe-parts a s h in
      let same = file_at-some s a.base_offset file here in
      (here ∙ ap some (sym same), subst (λ g. a.next_file_pos ≤ length g) (sym same) le)

  Keeps-Safe :
      (a : ActiveSegment) (file' : Bytes) (c k : ℕ) (s : SegmentLog)
      → Safe a s
      → Keeps a.next_file_pos (file_at s a.base_offset) file'
      → Safe a (record s { segs = update s.segs a.base_offset (some file'); cursor = c; calls = k })
  Keeps-Safe a file' c k s h kept =
      let (mid, run, base, end, records) = Safe-parts a s h in
      let (here, le) = file_at_records a s h in
      Safe-rebuild a s
        (record s { segs = update s.segs a.base_offset (some file'); cursor = c; calls = k }) h refl
        refl refl
        (λ n below. update_other s.segs a.base_offset n (some file') (λ e. absurd (omega arith)))
        (HasRecords-Keeps x s.segs a.base_offset a.next_file_pos a.positions fs
          (file_at s a.base_offset) file' records here kept)

  pub write_bytes-Safe :
      (a : ActiveSegment) (bytes : Bytes) (s : SegmentLog)
      → Safe a s
      → a.next_file_pos ≤ s.cursor
      → Safe a (write_bytes a.base_offset bytes s)
  unfolding write_bytes
  write_bytes-Safe a bytes s h le =
      let (here, inside) = file_at_records a s h in
      Keeps-Safe a (written_at s.cursor bytes (file_at s a.base_offset)) (s.cursor + length bytes)
        (suc s.calls) s h
        (written_at-Keeps a.next_file_pos s.cursor bytes (file_at s a.base_offset) le inside)

  module _ (w : World) where
    pub attempt-Safe : (a : ActiveSegment) (s : SegmentLog) → Safe a s → Safe a (attempt w s).0
    attempt-Safe a s h = subst (Safe a) (sym (attempt_state w s)) (calls-Safe a (suc s.calls) s h)

    pub set_len-Safe :
        (a : ActiveSegment) (n : ℕ) (s : SegmentLog)
        → a.next_file_pos ≤ n
        → Safe a s
        → Safe a (set_len w a.base_offset n s).0
    unfolding set_len file_at
    set_len-Safe a n s le h =
        let (here, inside) = file_at_records a s h in
        Ends-state (Safe a) (set_len w a.base_offset n s) (
          change-Ends w (Safe a) (Safe a) (resize_file a.base_offset n) s
            (Keeps-Safe a (resized n (file_at s a.base_offset)) s.cursor (suc s.calls) s h
              (resized-Keeps a.next_file_pos n (file_at s a.base_offset) le inside))
            (calls-Safe a (suc s.calls) s h))

    pub seek-Safe : (a : ActiveSegment) (n : ℕ) (s : SegmentLog) → Safe a s → Safe a (seek w n s).0
    unfolding seek
    seek-Safe a n s (h, is_active) = Ends-state (Safe a) (seek w n s) (
        change-Ends w (Safe a) (Safe a) (seek_to n) s
          (
            record {
              mid = h.mid;
              closed_run = h.closed_run;
              active_run = h.active_run;
              fits = h.fits;
            },
            is_active,
          )
          (calls-Safe a (suc s.calls) s (h, is_active)))
