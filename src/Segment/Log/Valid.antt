-- ===== src/Segment/Log/Valid.antt =====
-- adapter-event-log-segment/src/log.rs: the log and its files hold a run of records.
use otk_core.Prelude.{
  ℕ, zero, suc, ◌+◌, ◌≡◌, ◌≤◌, ◌<◌, refl, sym, ap, ◌∙◌, Option, none, some, List, [], ◌∷◌, ◌++◌,
  map, Bytes, ok, length, take, drop, get_elem?, u64_max, arith, subst, append_assoc,
  take-append-drop, length-append,
}
use mathlib.Core.List.{flatten}
use otk_core.Timing.Storage.{LogEntry}
use otk_core.Segment.{Externals, IsExternals}
use otk_core.Segment.Record.{encode_record, read_record}
use otk_core.Segment.Record.RoundTrip.{IsEntry, read_record-encode_record}
use otk_core.Segment.Frames.{Frame}
use otk_core.Segment.Log.{SegmentLog, ClosedSegment, ActiveSegment}

-- The records of a file, at positions below a limit, with the offsets from n on.
abbrev pub Placed : Externals → Bytes → ℕ → ℕ → List ℕ → List Frame → Type 0
Placed x file limit n [] [] = Unit {0}
Placed x file limit n [] (f ∷ fs) = ⊥
Placed x file limit n (p ∷ ps) [] = ⊥
Placed x file limit n (p ∷ ps) ((e, b) ∷ fs) =
    (encode_record x e ≡ ok b)
    × IsEntry x e
    × (e.offset ≡ n)
    × (p + length b ≤ limit)
    × ((front : Bytes) × (length front ≡ p) × (take (p + length b) file ≡ front ++ b))
    × Placed x file limit (n + 1) ps fs

abbrev pub HasRecords : Externals → (ℕ → Option Bytes) → ℕ → ℕ → List ℕ → List Frame → Type 0
HasRecords x segs base limit ps fs =
    (file : Bytes) × (segs base ≡ some file)
    × (limit ≤ length file)
    × Placed x file limit base ps fs

-- The closed segments, from the offset n to the offset m, have the offsets without a gap.
abbrev pub ClosedRun :
    Externals → (ℕ → Option Bytes) → ℕ → List ClosedSegment → List (List Frame) → ℕ → Type 0
ClosedRun x segs n [] [] m = n ≡ m
ClosedRun x segs n [] (fs ∷ fss) m = ⊥
ClosedRun x segs n (c ∷ cs) [] m = ⊥
ClosedRun x segs n (c ∷ cs) (fs ∷ fss) m =
    (c.base_offset ≡ n)
    × (0 < length fs)
    × (c.last_offset + 1 ≡ n + length fs)
    × ((limit : ℕ) × HasRecords x segs n limit c.positions fs)
    × ClosedRun x segs (n + length fs) cs fss m

abbrev pub ActiveRun :
    Externals → (ℕ → Option Bytes) → Option ActiveSegment → ℕ → List Frame → ℕ → Type 0
ActiveRun x segs none n fs m = (fs ≡ []) × (n ≡ m)
ActiveRun x segs (some a) n fs m =
    (a.base_offset ≡ n) × (n + length fs ≡ m) × HasRecords x segs n a.next_file_pos a.positions fs

-- The log holds the records of its closed segments and those of its active one.
pub record IsLog (x : Externals) (first : ℕ) (fss : List (List Frame)) (fs : List Frame)
    (s : SegmentLog) : Type 0 where
  pub mid : ℕ
  pub closed_run : ClosedRun x s.segs first s.closed fss mid
  pub active_run : ActiveRun x s.segs s.active mid fs s.next_offset
  pub fits : s.next_offset ≤ u64_max

abbrev pub entries : List Frame → List LogEntry
entries = map (λ (f : Frame). f.0)

abbrev pub log_entries : List (List Frame) → List Frame → List LogEntry
log_entries fss fs = entries (flatten fss ++ fs)

module _ (x : Externals) (v : IsExternals x) (file : Bytes) (limit : ℕ) where
  -- A position that a segment has reads as the record with its offset.
  pub Placed-some :
      (n i : ℕ) (ps : List ℕ) (fs : List Frame) (q : ℕ)
      → Placed x file limit n ps fs
      → get_elem? ps i ≡ some q
      → (e : LogEntry) × (get_elem? (entries fs) i ≡ some e)
        × (e.offset ≡ n + i)
        × (read_record x file q ≡ ok e)
  Placed-some n i [] [] q h e = absurd (cc)
  Placed-some n i [] (f ∷ fs) q h e = elim h [ ]
  Placed-some n i (p ∷ ps) [] q h e = elim h [ ]
  Placed-some n zero (p ∷ ps) ((e, b) ∷ fs) q (enc, w, o, le, (front, l, here), h) same =
      let at : p ≡ q = ground arith in
      let whole : front ++ (b ++ drop (p + length b) file) ≡ file =
        sym (append_assoc front b (drop (p + length b) file))
        ∙ ap (λ r. r ++ drop (p + length b) file) (sym here)
        ∙ take-append-drop (p + length b) file in
      (
        e,
        refl,
        omega arith,
        subst (λ r. read_record x r q ≡ ok e) whole
            (subst (λ k. read_record x (front ++ (b ++ drop (p + length b) file)) k ≡ ok e) (l ∙ at)
              (read_record-encode_record x v e b front (drop (p + length b) file) w enc)),
      )
  Placed-some n (suc i) (p ∷ ps) ((e, b) ∷ fs) q (enc, w, o, le, front, h) same =
      let (e', got, number, read) = Placed-some (n + 1) i ps fs q h same in
      (e', got, omega arith, read)

  pub Placed-none :
      (n i : ℕ) (ps : List ℕ) (fs : List Frame)
      → Placed x file limit n ps fs
      → get_elem? ps i ≡ none
      → get_elem? (entries fs) i ≡ none
  Placed-none n i [] [] h e = refl
  Placed-none n i [] (f ∷ fs) h e = elim h [ ]
  Placed-none n i (p ∷ ps) [] h e = elim h [ ]
  Placed-none n zero (p ∷ ps) ((e, b) ∷ fs) h same = absurd (cc)
  Placed-none n (suc i) (p ∷ ps) ((e, b) ∷ fs) (enc, w, o, le, front, h) same =
      Placed-none (n + 1) i ps fs h same

pub length-Placed :
    (x : Externals) (file : Bytes) (limit n : ℕ) (ps : List ℕ) (fs : List Frame)
    → Placed x file limit n ps fs
    → length ps ≡ length fs
length-Placed x file limit n [] [] h = refl
length-Placed x file limit n [] (f ∷ fs) h = elim h [ ]
length-Placed x file limit n (p ∷ ps) [] h = elim h [ ]
length-Placed x file limit n (p ∷ ps) ((e, b) ∷ fs) (enc, w, o, le, front, h) =
    ap suc (length-Placed x file limit (n + 1) ps fs h)

pub ClosedRun-size :
    (x : Externals) (segs : ℕ → Option Bytes) (n m : ℕ) (cs : List ClosedSegment)
    (fss : List (List Frame))
    → ClosedRun x segs n cs fss m
    → n + length (flatten fss) ≡ m
unfolding flatten
ClosedRun-size x segs n m [] [] h = omega arith
ClosedRun-size x segs n m [] (fs ∷ fss) h = elim h [ ]
ClosedRun-size x segs n m (c ∷ cs) [] h = elim h [ ]
ClosedRun-size x segs n m (c ∷ cs) (fs ∷ fss) (base, some_record, last, file, run) =
    omega
      (arith, ClosedRun-size x segs (n + length fs) m cs fss run, length-append fs (flatten fss))

pub ActiveRun-end :
    (x : Externals) (segs : ℕ → Option Bytes) (mid next : ℕ) (active : Option ActiveSegment)
    (fs : List Frame)
    → ActiveRun x segs active mid fs next
    → mid + length fs ≡ next
ActiveRun-end x segs mid next none fs (no_records, end) = omega (arith, ap length no_records)
ActiveRun-end x segs mid next (some a) fs (base, end, file) = end

pub length-entries : (fs : List Frame) → length (entries fs) ≡ length fs
length-entries [] = refl
length-entries (f ∷ fs) = ap suc (length-entries fs)

-- The next offset is the one after the entries.
pub IsLog-next :
    (x : Externals) (first : ℕ) (fss : List (List Frame)) (fs : List Frame) (s : SegmentLog)
    → IsLog x first fss fs s
    → s.next_offset ≡ first + length (log_entries fss fs)
IsLog-next x first fss fs s h = omega (
  arith,
  ClosedRun-size x s.segs first h.mid s.closed fss h.closed_run,
  ActiveRun-end x s.segs h.mid s.next_offset s.active fs h.active_run,
  length-entries (flatten fss ++ fs),
  length-append (flatten fss) fs,
)
