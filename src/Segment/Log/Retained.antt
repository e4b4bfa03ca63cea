-- ===== src/Segment/Log/Retained.antt =====
-- adapter-event-log-segment/src/log.rs: retention drops the oldest segments, whatever calls fail.
use otk_core.Prelude.{
  ℕ, suc, ◌+◌, ◌-◌, ◌≡◌, ◌≢◌, refl, sym, ap, ◌∙◌, Option, none, some, List, [], ◌∷◌, ◌++◌, Bytes,
  ok, err, length, ltb, append_assoc, arith, subst, Option-cases, Bool-cases, inl, inr,
}
use mathlib.Core.List.{flatten, map-append}
use otk_core.Segment.{Externals}
use otk_core.Segment.Frames.{Frame}
use otk_core.Timing.Storage.{
  LogEntry, io, ErrorKind, not_found, unexpected_eof, other, RetentionPolicy, indefinite,
  time_based, size_based, hybrid,
}
use otk_core.Segment.Log.{
  Fault, World, SegmentLog, ClosedSegment, ActiveSegment, M, ◌>>◌, ignore, Ends,
}
use otk_core.Segment.Log.Files.{
  attempt, now, drop_index, tolerate_missing, remove_segment, remove_index, delete_segment,
}
use otk_core.Segment.Log.Retention.{
  set_closed, secs_to_ns, total_size, evict_expired, evict_excess, enforce_age, enforce_size,
  enforce_retention,
}
use otk_core.Segment.Log.Valid.{ClosedRun, ClosedRun-size, ActiveRun, IsLog, entries, log_entries}
use otk_core.Segment.Log.Safe.{
  Ends-bind, Ends-mono, Ends-state, attempt_state, change-Ends, update_other, ClosedRun-agree,
}

-- The files and the segments are the same, but for the file of one closed segment.
abbrev pub SameBut : ℕ → SegmentLog → SegmentLog → Type 0
SameBut base s s' =
    (s'.closed ≡ s.closed)
    × (s'.active ≡ s.active)
    × (s'.next_offset ≡ s.next_offset)
    × ((k : ℕ) → k ≢ base → s'.segs k ≡ s.segs k)

-- The segments, their files and the next offset are the same.
abbrev pub Same : SegmentLog → SegmentLog → Type 0
Same s s' =
    (s'.closed ≡ s.closed)
    × (s'.active ≡ s.active)
    × (s'.next_offset ≡ s.next_offset)
    × (s'.segs ≡ s.segs)

pub Same-IsLog :
    (x : Externals) (first : ℕ) (fss : List (List Frame)) (fs : List Frame) (s s' : SegmentLog)
    → Same s s'
    → IsLog x first fss fs s
    → IsLog x first fss fs s'
Same-IsLog x first fss fs s s' (closed, active, next, segs) h =
    let fit = h.fits in
    record {
      mid = h.mid;
      closed_run = rw (closed, segs) h.closed_run;
      active_run = rw (active, next, segs) h.active_run;
      fits = omega arith;
    }

module _ (w : World) where
  pub remove_segment-SameBut :
      (base : ℕ) (s : SegmentLog) → Ends (λ u. SameBut base s) (Same s) (remove_segment w base s)
  unfolding remove_segment tolerate_missing
  remove_segment-SameBut base s = elim (Option-cases (w.fault s.calls)) [
    | inl e ↦
        rw (e, remove_segment, tolerate_missing)
          (refl, refl, refl, λ k h. update_other s.segs base k none h)
    | inr (f, e) ↦ rw (e, remove_segment, tolerate_missing) (by_kind f.kind f)
  ]
    where
      by_kind :
          (kind : ErrorKind) (f : Fault)
          → Ends {A = Unit {0}}
              (λ u. SameBut base s)
              (Same s)
              (elim kind [
                | not_found ↦ (record s { calls = suc s.calls }, ok tt)
                | _ ↦ (record s { calls = suc s.calls }, err (io f.kind f.message))
              ])
      by_kind not_found f = (refl, refl, refl, λ k h. refl)
      by_kind unexpected_eof f = (refl, refl, refl, refl)
      by_kind other f = (refl, refl, refl, refl)

  SameBut-Same :
      (base : ℕ) (s s' s2 : SegmentLog) → SameBut base s s' → Same s' s2 → SameBut base s s2
  SameBut-Same base s s' s2 (c, a, n, f) (c2, a2, n2, f2) =
      (c2 ∙ c, a2 ∙ a, n2 ∙ n, λ k h. ap (λ g. g k) f2 ∙ f k h)

  pub attempt-Same : (s : SegmentLog) → Same s (attempt w s).0
  attempt-Same s = subst (Same s) (sym (attempt_state w s)) (refl, refl, refl, refl)

  remove_index-Same : (base : ℕ) (s : SegmentLog) → Same s (remove_index w base s).0
  unfolding remove_index
  remove_index-Same base s = Ends-state (Same s) (remove_index w base s) (
      change-Ends w (Same s) (Same s) (drop_index base) s (refl, refl, refl, refl)
        (refl, refl, refl, refl))

  delete_segment-SameBut :
      (base : ℕ) (s : SegmentLog) → Ends (λ u. SameBut base s) (Same s) (delete_segment w base s)
  unfolding delete_segment
  delete_segment-SameBut base s =
      Ends-bind (λ u. SameBut base s) (λ u. SameBut base s) (Same s)
        (λ u. ignore (remove_index w base) >> ignore (attempt w)) (remove_segment w base s)
        (remove_segment-SameBut base s)
        λ u s2 h.
          let s3 = (remove_index w base s2).0 in
          SameBut-Same base s s3 (attempt w s3).0
            (SameBut-Same base s s2 s3 h (remove_index-Same base s2)) (attempt-Same s3)

ActiveRun-agree :
    (x : Externals) (segs segs' : ℕ → Option Bytes) (active : Option ActiveSegment) (n m : ℕ)
    (fs : List Frame)
    → segs' n ≡ segs n
    → ActiveRun x segs active n fs m
    → ActiveRun x segs' active n fs m
ActiveRun-agree x segs segs' none n m fs same h = h
ActiveRun-agree x segs segs' (some a) n m fs same (base, end, (file, here, le, placed)) =
    (base, end, (file, same ∙ here, le, placed))

-- What a policy may drop.
abbrev pub Drops : RetentionPolicy → List LogEntry → Type 0
Drops indefinite gone = gone ≡ []
Drops policy gone = Unit {0}

pub Drops-nil : (policy : RetentionPolicy) → Drops policy []
Drops-nil indefinite = refl
Drops-nil (time_based secs) = tt
Drops-nil (size_based max_bytes) = tt
Drops-nil (hybrid secs max_bytes) = tt

-- The log holds the end of a list of entries, after which stands the given offset; the policy has
-- dropped the others.
abbrev pub Retained : Externals → RetentionPolicy → List LogEntry → ℕ → SegmentLog → Type 0
Retained x policy es next s =
    (first : ℕ) × (fss : List (List Frame)) × (fs : List Frame) × (gone : List LogEntry) × IsLog x
      first fss fs s
    × (es ≡ gone ++ log_entries fss fs)
    × Drops policy gone
    × (s.next_offset ≡ next)

pub Same-Retained :
    (x : Externals) (policy : RetentionPolicy) (es : List LogEntry) (next : ℕ) (s s' : SegmentLog)
    → Same s s'
    → Retained x policy es next s
    → Retained x policy es next s'
Same-Retained x policy es next s s' same (first, fss, fs, gone, h, split, drops, at) =
    (first, fss, fs, gone, Same-IsLog x first fss fs s s' same h, split, drops, same.2 ∙ at)

-- The oldest segment is dropped, and with it its entries.
IsLog-pop :
    (x : Externals) (first : ℕ) (fss : List (List Frame)) (fs : List Frame) (c : ClosedSegment)
    (cs : List ClosedSegment) (s s' : SegmentLog)
    → IsLog x first fss fs s
    → s.closed ≡ c ∷ cs
    → SameBut c.base_offset s s'
    → (gone : List LogEntry) × (first' : ℕ) × (fss' : List (List Frame)) × IsLog x first' fss' fs
        (record s' { closed = cs })
      × (log_entries fss fs ≡ gone ++ log_entries fss' fs)
unfolding flatten
IsLog-pop x first [] fs c cs s s' h is_closed same =
    absurd (subst (λ l. ClosedRun x s.segs first l [] h.mid) is_closed h.closed_run)
IsLog-pop x first (f ∷ fss) fs c cs s s' h is_closed (closed, active, next, segs) =
    let (base, some_record, last, old, run) =
      subst (λ l. ClosedRun x s.segs first l (f ∷ fss) h.mid) is_closed h.closed_run in
    let size = ClosedRun-size x s.segs (first + length f) h.mid cs fss run in
    let fit = h.fits in
    (
      entries f,
      first + length f,
      fss,
      record {
        mid = h.mid;
        closed_run =
            ClosedRun-agree x s.segs s'.segs (first + length f) h.mid cs fss
              (λ k p q. segs k (λ e. absurd (omega arith))) run;
        active_run =
            rw (active, next)
              (ActiveRun-agree x s.segs s'.segs s.active h.mid s.next_offset fs
                (segs h.mid (λ e. absurd (omega arith))) h.active_run);
        fits = omega arith;
      },
      ap entries (append_assoc f (flatten fss) fs)
          ∙ map-append (λ (g : Frame). g.0) f (flatten fss ++ fs),
    )

module _ (w : World) (es : List LogEntry) (next : ℕ) (policy : RetentionPolicy)
    (free : (gone : List LogEntry) → Drops policy gone) where
  abbrev Kept : SegmentLog → Type 0
  Kept = Retained w.externals policy es next

  -- One segment is deleted and taken off the list, or its deletion fails and nothing changes.
  drop_first-Kept :
      (c : ClosedSegment) (cs : List ClosedSegment) (rest : M (Unit {0})) (s : SegmentLog)
      → s.closed ≡ c ∷ cs
      → Kept s
      → ((s2 : SegmentLog) → s2.closed ≡ cs → Kept s2 → Ends (λ u. Kept) Kept (rest s2))
      → Ends (λ u. Kept) Kept ((delete_segment w c.base_offset >> (set_closed cs >> rest)) s)
  unfolding set_closed
  drop_first-Kept c cs rest s is_closed kept further =
      Ends-bind (λ u. SameBut c.base_offset s) (λ u. Kept) Kept (λ u. set_closed cs >> rest)
        (delete_segment w c.base_offset s)
        (Ends-mono (λ u. SameBut c.base_offset s) (λ u. SameBut c.base_offset s) (Same s) Kept
          (delete_segment w c.base_offset s) (delete_segment-SameBut w c.base_offset s)
          (λ u s2 h. h) (λ s2 h. Same-Retained w.externals policy es next s s2 h kept))
        λ u s2 same.
          let (first, fss, fs, gone, h, split, drops, at) = kept in
          let (more, first', fss', h', split') =
            IsLog-pop w.externals first fss fs c cs s s2 h is_closed same in
          further (record s2 { closed = cs }) refl
            (
              first',
              fss',
              fs,
              gone ++ more,
              h',
              split
                  ∙ ap (λ l. gone ++ l) split'
                  ∙ sym (append_assoc gone more (log_entries fss' fs)),
              free (gone ++ more),
              same.2 ∙ at,
            )

  evict_expired-Kept :
      (cutoff : ℕ) (cs : List ClosedSegment) (s : SegmentLog)
      → s.closed ≡ cs
      → Kept s
      → Ends (λ u. Kept) Kept (evict_expired w cutoff cs s)
  unfolding evict_expired
  evict_expired-Kept cutoff [] s is_closed kept = kept
  evict_expired-Kept cutoff (c ∷ cs) s is_closed kept =
      elim (Bool-cases (ltb c.last_appended_at_ns cutoff)) [
        | inr young ↦ rw (young, evict_expired) kept
        | inl old ↦
            rw (old, evict_expired)
              (drop_first-Kept c cs (evict_expired w cutoff cs) s is_closed kept
                λ s2 is_closed2 kept2. evict_expired-Kept cutoff cs s2 is_closed2 kept2)
      ]

  evict_excess-Kept :
      (max_bytes total : ℕ) (cs : List ClosedSegment) (s : SegmentLog)
      → s.closed ≡ cs
      → Kept s
      → Ends (λ u. Kept) Kept (evict_excess w max_bytes total cs s)
  unfolding evict_excess
  evict_excess-Kept max_bytes total [] s is_closed kept = kept
  evict_excess-Kept max_bytes total (c ∷ cs) s is_closed kept =
      elim (Bool-cases (ltb max_bytes total)) [
        | inr enough ↦ rw (enough, evict_excess) kept
        | inl excess ↦
            rw (excess, evict_excess)
              (drop_first-Kept c cs (evict_excess w max_bytes (total - c.byte_size) cs) s is_closed
                kept
                λ s2 is_closed2 kept2.
                  evict_excess-Kept max_bytes (total - c.byte_size) cs s2 is_closed2 kept2)
      ]

  enforce_age-Kept :
      (secs : ℕ) (s : SegmentLog) → Kept s → Ends (λ u. Kept) Kept (enforce_age w secs s)
  unfolding enforce_age now
  enforce_age-Kept secs s kept =
      let s2 = record s { calls = suc s.calls } in
      evict_expired-Kept (w.now_ns s.calls - secs_to_ns secs) s.closed s2 refl
        (Same-Retained w.externals policy es next s s2 (refl, refl, refl, refl) kept)

  enforce_size-Kept :
      (max_bytes : ℕ) (s : SegmentLog) → Kept s → Ends (λ u. Kept) Kept (enforce_size w max_bytes s)
  unfolding enforce_size
  enforce_size-Kept max_bytes s kept =
      evict_excess-Kept max_bytes (total_size s) s.closed s refl kept

pub enforce_retention-Retained :
    (w : World) (es : List LogEntry) (next : ℕ) (policy : RetentionPolicy) (s : SegmentLog)
    → Retained w.externals policy es next s
    → Ends
        (λ u. Retained w.externals policy es next)
        (Retained w.externals policy es next)
        (enforce_retention w policy s)
unfolding enforce_retention
enforce_retention-Retained w es next indefinite s kept = kept
enforce_retention-Retained w es next (time_based secs) s kept =
    enforce_age-Kept w es next (time_based secs) (λ gone. tt) secs s kept
enforce_retention-Retained w es next (size_based max_bytes) s kept =
    enforce_size-Kept w es next (size_based max_bytes) (λ gone. tt) max_bytes s kept
enforce_retention-Retained w es next (hybrid secs max_bytes) s kept =
    let kept_after = Retained w.externals (hybrid secs max_bytes) es next in
    Ends-bind (λ u. kept_after) (λ u. kept_after) kept_after (λ u. enforce_size w max_bytes)
      (enforce_age w secs s)
      (enforce_age-Kept w es next (hybrid secs max_bytes) (λ gone. tt) secs s kept)
      λ u s2 kept2.
        enforce_size-Kept w es next (hybrid secs max_bytes) (λ gone. tt) max_bytes s2 kept2
