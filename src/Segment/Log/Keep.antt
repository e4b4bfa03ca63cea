-- ===== src/Segment/Log/Keep.antt =====
-- adapter-event-log-segment/src/log.rs: what is done to a file beyond a place keeps the records before it.
use otk_core.Prelude.{
  ℕ, zero, suc, ◌+◌, ◌-◌, ◌≡◌, ◌≤◌, refl, sym, ap, ◌∙◌, Option, some, List, [], ◌∷◌, ◌++◌, Bytes,
  ok, length, take, drop, arith, subst, append_assoc, take-append_le, take_all, length-append,
  length-take, ==_iff,
}
use otk_core.Segment.{Externals}
use otk_core.Segment.Record.{encode_record}
use otk_core.Segment.Record.RoundTrip.{IsEntry}
use otk_core.Segment.Frames.{Frame}
use otk_core.Timing.Storage.{LogEntry}
use otk_core.Segment.Log.Files.{zeros, resized, written_at, update}
use otk_core.Segment.Log.Valid.{Placed, HasRecords}

take-take_min : (m n : ℕ) (xs : Bytes) → m ≤ n → take m (take n xs) ≡ take m xs
take-take_min zero n xs h = refl
take-take_min (suc m) zero xs h = absurd (omega arith)
take-take_min (suc m) (suc n) [] h = refl
take-take_min (suc m) (suc n) (x ∷ xs) h = ap (◌∷◌ x) (take-take_min m n xs (omega arith))

-- Two files are the same up to a limit that lies in both.
abbrev pub Keeps : ℕ → Bytes → Bytes → Type 0
Keeps limit file file' = (take limit file' ≡ take limit file) × (limit ≤ length file')

pub resized-Keeps :
    (limit n : ℕ) (file : Bytes)
    → limit ≤ n
    → limit ≤ length file
    → Keeps limit file (resized n file)
unfolding resized
resized-Keeps limit n file h le =
    let size = length-take n file in
    (
      take-append_le limit (take n file) (zeros (n - length file)) (omega arith)
          ∙ take-take_min limit n file h,
      omega (arith, length-append (take n file) (zeros (n - length file))),
    )

length-zeros : (n : ℕ) → length (zeros n) ≡ n
unfolding zeros
length-zeros zero = refl
length-zeros (suc n) = ap suc (length-zeros n)

length-resized : (n : ℕ) (file : Bytes) → length (resized n file) ≡ n
unfolding resized
length-resized n file = omega (
  arith,
  length-append (take n file) (zeros (n - length file)),
  length-take n file,
  length-zeros (n - length file),
)

pub written_at-Keeps :
    (limit pos : ℕ) (bytes file : Bytes)
    → limit ≤ pos
    → limit ≤ length file
    → Keeps limit file (written_at pos bytes file)
unfolding written_at
written_at-Keeps limit pos bytes file h le =
    let (same, inside) = resized-Keeps limit pos file h le in
    let back = bytes ++ drop (pos + length bytes) file in
    (
      take-append_le limit (resized pos file) back inside ∙ same,
      omega (arith, length-append (resized pos file) back),
    )

-- Bytes written inside a file, or at its end, stand there.
pub written_at_new :
    (pos : ℕ) (bytes file : Bytes)
    → pos ≤ length file
    → ((front : Bytes) × (length front ≡ pos)
        × (take (pos + length bytes) (written_at pos bytes file) ≡ front ++ bytes))
      × (pos + length bytes ≤ length (written_at pos bytes file))
unfolding written_at
written_at_new pos bytes file le =
    let front = resized pos file in
    let rest = drop (pos + length bytes) file in
    let size = length-append front bytes in
    let total = length-append (front ++ bytes) rest in
    let start = length-resized pos file in
    let assoc : front ++ (bytes ++ rest) ≡ (front ++ bytes) ++ rest =
      sym (append_assoc front bytes rest) in
    (
      (
        front,
        start,
        ap (take (pos + length bytes)) assoc
            ∙ take-append_le (pos + length bytes) (front ++ bytes) rest (omega arith)
            ∙ take_all (pos + length bytes) (front ++ bytes) (omega arith),
      ),
      rw assoc (omega arith),
    )

module _ (x : Externals) where
  Placed-Keeps :
      (limit limit' n : ℕ) (file file' : Bytes) (ps : List ℕ) (fs : List Frame)
      → take limit file' ≡ take limit file
      → limit ≤ limit'
      → Placed x file limit n ps fs
      → Placed x file' limit' n ps fs
  Placed-Keeps limit limit' n file file' [] [] same le h = tt
  Placed-Keeps limit limit' n file file' [] (f ∷ fs) same le h = elim h [ ]
  Placed-Keeps limit limit' n file file' (p ∷ ps) [] same le h = elim h [ ]
  Placed-Keeps limit limit' n file file' (p ∷ ps) ((e, b) ∷ fs) same le
        (enc, w, o, fit, (front, l, here), h) =
      let shifted : take (p + length b) file' ≡ take (p + length b) file =
        sym (take-take_min (p + length b) limit file' fit)
        ∙ ap (take (p + length b)) same
        ∙ take-take_min (p + length b) limit file fit in
      (
        enc,
        w,
        o,
        omega arith,
        (front, l, shifted ∙ here),
        Placed-Keeps limit limit' (n + 1) file file' ps fs same le h,
      )

  Placed-snoc :
      (limit n p : ℕ) (file : Bytes) (ps : List ℕ) (fs : List Frame) (e : LogEntry) (b : Bytes)
      → Placed x file limit n ps fs
      → Placed x file limit (n + length fs) (p ∷ []) ((e, b) ∷ [])
      → Placed x file limit n (ps ++ p ∷ []) (fs ++ (e, b) ∷ [])
  Placed-snoc limit n p file [] [] e b h k =
      let shift : n + 0 ≡ n = omega arith in
      subst (λ m. Placed x file limit m (p ∷ []) ((e, b) ∷ [])) shift k
  Placed-snoc limit n p file [] (f ∷ fs) e b h k = elim h [ ]
  Placed-snoc limit n p file (q ∷ ps) [] e b h k = elim h [ ]
  Placed-snoc limit n p file (q ∷ ps) ((e', b') ∷ fs) e b (enc, w, o, fit, front, h) k =
      let shift : n + suc (length fs) ≡ n + 1 + length fs = omega arith in
      (
        enc,
        w,
        o,
        fit,
        front,
        Placed-snoc limit (n + 1) p file ps fs e b h
            (subst (λ m. Placed x file limit m (p ∷ []) ((e, b) ∷ [])) shift k),
      )

  update_same :
      (segs : ℕ → Option Bytes) (base : ℕ) (o : Option Bytes) → update segs base o base ≡ o
  update_same segs base o = rw ((==_iff base base).1 refl) refl

  pub HasRecords-Keeps :
      (segs : ℕ → Option Bytes) (base limit : ℕ) (ps : List ℕ) (fs : List Frame)
      (file file' : Bytes)
      → HasRecords x segs base limit ps fs
      → segs base ≡ some file
      → Keeps limit file file'
      → HasRecords x (update segs base (some file')) base limit ps fs
  HasRecords-Keeps segs base limit ps fs file file' (file0, here, le, h) same (front, inside) =
      let equal : file0 ≡ file = ground arith in
      (
        file',
        update_same segs base (some file'),
        inside,
        Placed-Keeps limit limit base file file' ps fs front (omega arith)
            (subst (λ g. Placed x g limit base ps fs) equal h),
      )

  -- A record written at the limit is one more.
  pub HasRecords-written :
      (segs : ℕ → Option Bytes) (base limit : ℕ) (ps : List ℕ) (fs : List Frame) (file : Bytes)
      (e : LogEntry) (b : Bytes)
      → HasRecords x segs base limit ps fs
      → segs base ≡ some file
      → encode_record x e ≡ ok b
      → IsEntry x e
      → e.offset ≡ base + length fs
      → HasRecords x
          (update segs base (some (written_at limit b file)))
          base
          (limit + length b)
          (ps ++ limit ∷ [])
          (fs ++ (e, b) ∷ [])
  HasRecords-written segs base limit ps fs file e b (file0, here, le, h) same enc w o =
      let equal : file0 ≡ file = ground arith in
      let inside : limit ≤ length file = subst (λ g. limit ≤ length g) equal le in
      let (front, kept) = written_at-Keeps limit limit b file (omega arith) inside in
      let (here', fits) = written_at_new limit b file inside in
      (
        written_at limit b file,
        update_same segs base _,
        fits,
        Placed-snoc (limit + length b) base limit (written_at limit b file) ps fs e b
            (Placed-Keeps limit (limit + length b) base file (written_at limit b file) ps fs front
              (omega arith) (subst (λ g. Placed x g limit base ps fs) equal h))
            (enc, w, o, omega arith, here', tt),
      )

  pub HasRecords-grow :
      (segs : ℕ → Option Bytes) (base limit limit' : ℕ) (ps : List ℕ) (fs : List Frame)
      (file : Bytes)
      → HasRecords x segs base limit ps fs
      → segs base ≡ some file
      → limit ≤ limit'
      → limit' ≤ length file
      → HasRecords x segs base limit' ps fs
  HasRecords-grow segs base limit limit' ps fs file (file0, here, le, h) same grow fits =
      let equal : file0 ≡ file = ground arith in
      (
        file,
        same,
        fits,
        Placed-Keeps limit limit' base file file ps fs refl grow
            (subst (λ g. Placed x g limit base ps fs) equal h),
      )
