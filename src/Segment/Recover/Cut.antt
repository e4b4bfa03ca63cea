-- ===== src/Segment/Recover/Cut.antt =====
-- adapter-event-log-segment/src/segment.rs: recovery of a file that was cut short.
use otk_core.Prelude.{
  some, ℕ, zero, suc, ◌+◌, ◌-◌, ◌≡◌, ◌≤◌, ◌<◌, refl, sym, ap, ◌∙◌, List, [], ◌∷◌, ◌++◌, Bytes, ok,
  leb, leb→le, if◌then◌else◌, length, take, u64_max, arith, false, Bool-cases, inl, inr, All,
  All-append, IsByte, append_assoc, append-nil, length-append, take-append_le, take-append_ge,
  take_all, subst, length-take,
}
use otk_core.Timing.Storage.{LogEntry}
use otk_core.Segment.{Externals, IsExternals, header_len}
use otk_core.Segment.Record.{encode_record}
use otk_core.Segment.Record.RoundTrip.{IsEntry}
use otk_core.Segment.Frames.{Frame, content, starts, Framed, Framed-take, record_size}
use otk_core.Segment.Recover.Tail.{IsTail, recover_round-record, recover_loop-end}
use otk_core.Segment.Recover.{recover_loop, recover_active}

-- The number of records that lie in the first k bytes.
abbrev pub whole : ℕ → List Frame → ℕ
whole k [] = 0
whole k ((e, b) ∷ fs) =
    let rest = whole (k - length b) fs in if leb (length b) k then suc rest else 0

module _ (x : Externals) where
  module _ (v : IsExternals x) where
    recover_loop-record :
        (base : ℕ) (front back b : Bytes) (ps : List ℕ) (e : LogEntry) (f : ℕ)
        → encode_record x e ≡ ok b
        → IsEntry x e
        → e.offset ≡ base + length ps
        → length front + length b ≤ u64_max
        → recover_loop x (suc f) (front ++ (b ++ back)) base (length front) ps
          ≡ recover_loop x f
              ((front ++ b) ++ back)
              base
              (length (front ++ b))
              (ps ++ length front ∷ [])
    unfolding recover_loop
    recover_loop-record base front back b ps e f h w o fits =
        let (n, stored, size, some_bytes) = record_size x v e b back h in
        let inside : leb (length (front ++ (b ++ back))) (length front) ≡ false =
          gt→leb (length (front ++ (b ++ back))) (length front)
            (omega (arith, length-append front (b ++ back), length-append b back)) in
        rw
          (
            inside,
            recover_round-record x v base front back b ps e h w o fits,
            length-append front b,
            append_assoc front b back,
          )
          refl
      where
        gt→leb : (m k : ℕ) → k < m → leb m k ≡ false
        gt→leb m k h = ground arith

    -- The loop takes each whole record and cuts off the tail.
    recover_loop-content :
        (base : ℕ) (fs : List Frame) (front tail : Bytes) (ps : List ℕ) (f : ℕ)
        → All IsByte front
        → Framed x (base + length ps) fs
        → IsTail x tail
        → length front + length (content fs) ≤ u64_max
        → length (content fs) < f
        → recover_loop x f (front ++ (content fs ++ tail)) base (length front) ps
          ≡ some (
              ok (record {
                file = front ++ content fs;
                positions = ps ++ starts (length front) fs;
                next_pos = length front + length (content fs);
              }))
    recover_loop-content base fs front tail ps zero fb h t fits fuel = absurd (omega arith)
    recover_loop-content base [] front tail ps (suc f) fb h t fits fuel =
        let none_more : length front ≡ length front + 0 = omega arith in
        rw (append-nil front, append-nil ps, ← none_more)
          (recover_loop-end x v base front tail ps f fb t)
    recover_loop-content base ((e, b) ∷ fs) front tail ps (suc f) fb (h, w, o, bb, rest) t fits
          fuel =
        let (n, stored, size, some_bytes) = record_size x v e b (content fs ++ tail) h in
        let long = length-append b (content fs) in
        let joined = length-append front b in
        let next : base + length ps + 1 ≡ base + length (ps ++ length front ∷ []) =
          omega (arith, length-append ps (length front ∷ [])) in
        let end : length front + length b + length (content fs)
            ≡ length front + length (b ++ content fs) =
          omega arith in
        let sum : length (front ++ b) + length (content fs)
            ≡ length front + length (b ++ content fs) =
          omega arith in
        let later =
          recover_loop-content base fs (front ++ b) tail (ps ++ length front ∷ []) f
            (All-append IsByte front b fb bb) (subst (λ m. Framed x m fs) next rest) t (omega arith)
            (omega arith) in
        rw (append_assoc b (content fs) tail) (
          recover_loop-record base front (content fs ++ tail) b ps e f h w o (omega arith)
          ∙ rw
              (
                ← append_assoc front b (content fs),
                ← sum,
                ← joined,
                ← append_assoc ps (length front ∷ []) (starts (length (front ++ b)) fs),
              )
              later)

    -- Recovery of a file that ends in whole records and a tail keeps the records and cuts off the tail.
    recover_active-content :
        (base : ℕ) (header : Bytes) (fs : List Frame) (tail : Bytes)
        → length header ≡ header_len
        → All IsByte header
        → Framed x base fs
        → IsTail x tail
        → header_len + length (content fs) ≤ u64_max
        → recover_active x (header ++ (content fs ++ tail)) base
          ≡ ok (record {
            file = header ++ content fs;
            positions = starts header_len fs;
            next_pos = header_len + length (content fs);
          })
    unfolding recover_active
    recover_active-content base header fs tail l hb h t fits =
        let start : base ≡ base + 0 = omega arith in
        let run =
          recover_loop-content base fs header tail []
            (suc (length (header ++ (content fs ++ tail)))) hb (subst (λ m. Framed x m fs) start h)
            t (omega arith)
            (omega (
              arith,
              length-append header (content fs ++ tail),
              length-append (content fs) tail,
            )) in
        rw (recover_active, ← l, run) refl

  take-content :
      (k n : ℕ) (fs : List Frame)
      → Framed x n fs
      → (tail : Bytes) × IsTail x tail
        × (take k (content fs) ≡ content (take (whole k fs) fs) ++ tail)
  take-content k n [] h = ([], inl (omega arith), take_all k [] (omega arith))
  take-content k n ((e, b) ∷ fs) (h, w, o, bb, rest) = elim (Bool-cases (leb (length b) k)) [
    | inl in_front ↦
        let (tail, t, same) = take-content (k - length b) (n + 1) fs rest in
        (
          tail,
          t,
          rw in_front (
              take-append_ge k b (content fs) (leb→le (length b) k in_front)
              ∙ ap (λ r. b ++ r) same
              ∙ sym (append_assoc b (content (take (whole (k - length b) fs) fs)) tail)),
        )
    | inr torn ↦
        let short : k < length b = ground arith in
        (
          take k b,
          inr (inr (e, b, k, h, w, bb, short, refl)),
          rw torn (take-append_le k b (content fs) (omega arith)),
        )
  ]

  -- A segment holds a header and records that were written, of entries with the offsets from the base
  -- on, and a crash leaves any number k of the bytes after the header. Then recovery keeps just the
  -- records that lie in these k bytes whole, cuts the rest off, and returns where each record starts
  -- and where the last one ends. The codec is taken to decode what it encodes, the checksum to be a
  -- u32, and the file to be shorter than 2^64 bytes.
  pub recover_active-cut :
      (v : IsExternals x) (base : ℕ) (header : Bytes) (fs : List Frame) (k : ℕ)
      → length header ≡ header_len
      → All IsByte header
      → Framed x base fs
      → header_len + length (content fs) ≤ u64_max
      → recover_active x (header ++ take k (content fs)) base
        ≡ ok (record {
          file = header ++ content (take (whole k fs) fs);
          positions = starts header_len (take (whole k fs) fs);
          next_pos = header_len + length (content (take (whole k fs) fs));
        })
  recover_active-cut v base header fs k l hb h fits =
      let kept = take (whole k fs) fs in
      let (tail, t, same) = take-content k base fs h in
      let shorter : length (content kept) ≤ length (content fs) =
        omega
          (arith, ap length same, length-append (content kept) tail, length-take k (content fs)) in
      rw same (
        recover_active-content v base header kept tail l hb (Framed-take x (whole k fs) base fs h) t
          (omega arith))
