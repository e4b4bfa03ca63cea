-- ===== src/Segment/Log/Stored.antt =====
-- adapter-event-log-segment/src/log.rs: segments as they lie in the directory.
use otk_core.Prelude.{
  ℕ, ◌+◌, ◌*◌, ◌≡◌, ◌≤◌, ◌<◌, refl, sym, ap, ◌∙◌, Option, some, List, [], ◌∷◌, ◌++◌, Bytes, ok,
  length, take, get_elem?, All, u64_max, arith, subst, append_assoc, length-append, take_front,
}
use otk_core.Timing.Storage.{LogEntry}
use otk_core.Segment.{Externals, IsExternals, header_len}
use otk_core.Segment.Record.{header_bytes, read_record}
use otk_core.Segment.Frames.{Frame, content, starts, Framed}
use otk_core.Segment.Index.{index_bytes, max_index_bytes}
use otk_core.Segment.Log.Valid.{Placed, Placed-some, length-Placed}
use otk_core.Segment.Log.Open.{last_pos}

-- The file of a segment: a header, records, and what follows.
abbrev pub SegmentFile : ℕ → List Frame → Bytes → Bytes → Type 0
SegmentFile base fs rest file =
    (created : ℕ) × (created ≤ u64_max)
    × (file
        ≡ header_bytes (record { base_offset = base; created_at_ns = created })
          ++ (content fs ++ rest))

-- Closed segments with their indexes, from the offset n to the offset m.
abbrev pub StoredRun :
    Externals → (ℕ → Option Bytes) → (ℕ → Option Bytes) → ℕ → List (List Frame) → ℕ → Type 0
StoredRun x segs idxs n [] m = n ≡ m
StoredRun x segs idxs n (fs ∷ fss) m =
    (0 < length fs)
    × ((file : Bytes) × (rest : Bytes) × (segs n ≡ some file) × SegmentFile n fs rest file)
    × (idxs n ≡ some (index_bytes (starts header_len fs)))
    × (8 * length fs ≤ max_index_bytes)
    × (header_len + length (content fs) ≤ u64_max)
    × Framed x n fs
    × StoredRun x segs idxs (n + length fs) fss m

-- The base offsets of the segments.
abbrev pub bases_of : ℕ → List (List Frame) → List ℕ
bases_of n [] = []
bases_of n (fs ∷ fss) = n ∷ bases_of (n + length fs) fss

module _ (x : Externals) where
  -- Records that stand one after another in a file are where they start.
  pub Placed-starts :
      (limit n : ℕ) (front rest : Bytes) (fs : List Frame)
      → Framed x n fs
      → length front + length (content fs) ≤ limit
      → Placed x (front ++ (content fs ++ rest)) limit n (starts (length front) fs) fs
  Placed-starts limit n front rest [] h le = tt
  Placed-starts limit n front rest ((e, b) ∷ fs) (enc, w, o, bytes, h) le =
      let joined = length-append front b in
      let long = length-append b (content fs) in
      let assoc : front ++ ((b ++ content fs) ++ rest) ≡ (front ++ b) ++ (content fs ++ rest) =
        ap (λ r. front ++ r) (append_assoc b (content fs) rest)
        ∙ sym (append_assoc front b (content fs ++ rest)) in
      let here : take (length front + length b) ((front ++ b) ++ (content fs ++ rest))
          ≡ front ++ b =
        take_front (length front + length b) (front ++ b) (content fs ++ rest) joined in
      (
        enc,
        w,
        o,
        omega arith,
        (front, refl, ap (take (length front + length b)) assoc ∙ here),
        subst (λ file. Placed x file limit (n + 1) (starts (length front + length b) fs) fs)
            (sym assoc)
            (subst
              (λ p. Placed x ((front ++ b) ++ (content fs ++ rest)) limit (n + 1) (starts p fs) fs)
              joined (Placed-starts limit (n + 1) (front ++ b) rest fs h (omega arith))),
      )

  last_pos-get_elem? : (p : ℕ) (ps : List ℕ) → get_elem? (p ∷ ps) (length ps) ≡ some (last_pos p ps)
  unfolding last_pos
  last_pos-get_elem? p [] = refl
  last_pos-get_elem? p (q ∷ ps) = last_pos-get_elem? q ps

  -- The last position reads as the record with the last offset.
  pub last_pos-Placed :
      (v : IsExternals x) (file : Bytes) (limit n p : ℕ) (ps : List ℕ) (fs : List Frame)
      → Placed x file limit n (p ∷ ps) fs
      → (e : LogEntry) × (read_record x file (last_pos p ps) ≡ ok e)
        × (e.offset + 1 ≡ n + length fs)
  last_pos-Placed v file limit n p ps fs h =
      let (e, got, number, read) =
        Placed-some x v file limit n (length ps) (p ∷ ps) fs (last_pos p ps) h
          (last_pos-get_elem? p ps) in
      (e, read, omega (arith, length-Placed x file limit n (p ∷ ps) fs h))

  pub starts_fit :
      (p : ℕ) (fs : List Frame)
      → p + length (content fs) ≤ u64_max
      → All (λ q. q ≤ u64_max) (starts p fs)
  starts_fit p [] h = tt
  starts_fit p ((e, b) ∷ fs) h =
      let long = length-append b (content fs) in
      (omega arith, starts_fit (p + length b) fs (omega arith))
