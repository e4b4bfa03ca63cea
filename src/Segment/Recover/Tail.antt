-- ===== src/Segment/Recover/Tail.antt =====
-- adapter-event-log-segment/src/segment.rs: recovery drops the tail of the file that is no whole record.
use otk_core.Prelude.{
  some, ℕ, zero, suc, ◌+◌, ◌≡◌, ◌≤◌, ◌<◌, ◌⊎◌, refl, sym, ap, ◌∙◌, List, [], ◌∷◌, ◌++◌, Bytes, ok,
  err, ltb, leb, leb→le, ◌==◌, length, take, drop, from_le, u64_max, arith, false, Bool-cases, inl,
  inr, All, All-take, All-append, IsByte, append_assoc, append-nil, length-append, lt→ltb, ge→ltb,
  ltb→ge, take-length_append, drop-length_append, take-append-drop, subst, length-take, ==_iff,
}
use otk_core.Timing.Storage.{LogEntry, io, unexpected_eof}
use otk_core.Segment.{Externals, IsExternals}
use otk_core.Segment.Record.{encode_record, read_record}
use otk_core.Segment.Record.RoundTrip.{IsEntry, read_record-encode_record}
use otk_core.Segment.Record.Torn.{read_record-Extends, read_record-ok}
use otk_core.Segment.Frames.{record_size}
use otk_core.Segment.Recover.{
  halt, onward, cut, accept_record, refuse_record, recover_round, recover_loop,
}

take-take_le : (m n : ℕ) (xs : Bytes) → m ≤ n → take m (take n xs) ≡ take m xs
take-take_le zero n xs h = refl
take-take_le (suc m) zero xs h = absurd (omega arith)
take-take_le (suc m) (suc n) [] h = refl
take-take_le (suc m) (suc n) (x ∷ xs) h = ap (◌∷◌ x) (take-take_le m n xs (omega arith))

length-nil : (xs : Bytes) → length xs ≤ 0 → xs ≡ []
length-nil [] h = refl
length-nil (x ∷ xs) h = absurd (omega arith)

module _ (x : Externals) where
  -- What a crash leaves behind the last whole record: less than a length, a length of zero (the
  -- sentinel of a roll), or the front of a record.
  abbrev pub IsTail : Bytes → Type 0
  IsTail tail =
      (length tail < 4)
      ⊎ (from_le (take 4 tail) ≡ 0)
      ⊎ ((e : LogEntry) × (b : Bytes) × (k : ℕ) × (encode_record x e ≡ ok b)
          × IsEntry x e
          × All IsByte b
          × (k < length b)
          × (tail ≡ take k b))

  module _ (v : IsExternals x) where
    -- The front of a record does not read as a record.
    read_record-torn :
        (front : Bytes) (e : LogEntry) (b : Bytes) (k : ℕ)
        → All IsByte front
        → encode_record x e ≡ ok b
        → IsEntry x e
        → All IsByte b
        → k < length b
        → 4 ≤ k
        → read_record x (front ++ take k b) (length front) ≡ err (io unexpected_eof x.early_eof)
    read_record-torn front e b k fb h w bb short long =
        let file = front ++ take k b in
        let rest : file ++ drop k b ≡ front ++ (b ++ []) =
          append_assoc front (take k b) (drop k b)
          ∙ ap (λ r. front ++ r) (take-append-drop k b ∙ sym (append-nil b)) in
        let read : read_record x (file ++ drop k b) (length front) ≡ ok e =
          ap (λ r. read_record x r (length front)) rest
          ∙ read_record-encode_record x v e b front [] w h in
        elim (read_record-Extends x (length front) file (drop k b)
          (omega (arith, length-append front (take k b)))) [
            | inl early ↦ early
            | inr same ↦
                let (positive, fits) =
                  read_record-ok x (length front) file e
                    (All-append IsByte front (take k b) fb (All-take IsByte k b bb))
                    (same ∙ read) in
                let (n, stored, size, some_bytes) = record_size x v e b [] h in
                let here : drop (length front) file ≡ take k b =
                  drop-length_append front (take k b) in
                let start : from_le (take 4 (drop (length front) file)) ≡ n =
                  ap (λ r. from_le (take 4 r)) here
                  ∙ ap from_le (take-take_le 4 k b long ∙ ap (take 4) (sym (append-nil b)))
                  ∙ stored in
                absurd (omega (arith, ap length here, length-take k b))
          ]

    recover_round-torn :
        (base : ℕ) (front : Bytes) (ps : List ℕ) (e : LogEntry) (b : Bytes) (k : ℕ)
        → All IsByte front
        → encode_record x e ≡ ok b
        → IsEntry x e
        → All IsByte b
        → k < length b
        → recover_round x (front ++ take k b) base (length front) ps
          ≡ cut (front ++ take k b) ps (length front)
    unfolding recover_round refuse_record
    recover_round-torn base front ps e b k fb h w bb short =
        elim (Bool-cases (ltb (length (take k b)) 4)) [
          | inl few ↦ rw (drop-length_append front (take k b), few) refl
          | inr more ↦ elim (Bool-cases (from_le (take 4 (take k b)) == 0)) [
            | inl sentinel ↦ rw (drop-length_append front (take k b), more, sentinel) refl
            | inr positive ↦
                let enough = ltb→ge (length (take k b)) 4 more in
                rw
                  (
                    drop-length_append front (take k b),
                    more,
                    positive,
                    read_record-torn front e b k fb h w bb short (omega (arith, length-take k b)),
                  )
                  refl
          ]
        ]

    recover_round-IsTail :
        (base : ℕ) (front tail : Bytes) (ps : List ℕ)
        → All IsByte front
        → IsTail tail
        → recover_round x (front ++ tail) base (length front) ps
          ≡ cut (front ++ tail) ps (length front)
    unfolding recover_round
    recover_round-IsTail base front tail ps fb (inl few) =
        rw (drop-length_append front tail, lt→ltb (length tail) 4 few) refl
    recover_round-IsTail base front tail ps fb (inr (inl sentinel)) =
        elim (Bool-cases (ltb (length tail) 4)) [
          | inl few ↦ rw (drop-length_append front tail, few) refl
          | inr more ↦ rw (drop-length_append front tail, more, sentinel) refl
        ]
    recover_round-IsTail base front tail ps fb (inr (inr (e, b, k, h, w, bb, short, same))) =
        subst
          (λ r.
            recover_round x (front ++ r) base (length front) ps
            ≡ cut (front ++ r) ps (length front))
          (sym same) (recover_round-torn base front ps e b k fb h w bb short)

    cut-front :
        (front tail : Bytes) (ps : List ℕ)
        → cut (front ++ tail) ps (length front)
          ≡ halt (ok (record { file = front; positions = ps; next_pos = length front }))
    unfolding cut
    cut-front front tail ps = rw (take-length_append front tail) refl

    -- A round at a whole record takes it.
    pub recover_round-record :
        (base : ℕ) (front back b : Bytes) (ps : List ℕ) (e : LogEntry)
        → encode_record x e ≡ ok b
        → IsEntry x e
        → e.offset ≡ base + length ps
        → length front + length b ≤ u64_max
        → recover_round x (front ++ (b ++ back)) base (length front) ps
          ≡ onward (ps ++ length front ∷ []) (length front + length b)
    unfolding recover_round accept_record
    recover_round-record base front back b ps e h w o fits =
        let (n, stored, size, some_bytes) = record_size x v e b back h in
        let fit = w.offset_fits in
        let same : length front + n + 8 ≡ length front + length b = omega arith in
        rw
          (
            drop-length_append front (b ++ back),
            ge→ltb (length (b ++ back)) 4 (omega (arith, length-append b back)),
            stored,
            positive n some_bytes,
            read_record-encode_record x v e b front back w h,
            ← o,
            ge→ltb u64_max e.offset fit,
            (==_iff e.offset e.offset).1 refl,
            drop-length_append front (b ++ back),
            stored,
            same,
            ge→ltb u64_max (length front + length b) fits,
          )
          refl
      where
        positive : (n : ℕ) → 0 < n → (n == 0) ≡ false
        positive n h = ground arith

    pub recover_loop-end :
        (base : ℕ) (front tail : Bytes) (ps : List ℕ) (f : ℕ)
        → All IsByte front
        → IsTail tail
        → recover_loop x (suc f) (front ++ tail) base (length front) ps
          ≡ some (ok (record { file = front; positions = ps; next_pos = length front }))
    unfolding recover_loop
    recover_loop-end base front tail ps f fb t =
        elim (Bool-cases (leb (length (front ++ tail)) (length front))) [
          | inl past ↦
              let none_left = length-nil tail (
                omega (
                  arith,
                  leb→le (length (front ++ tail)) (length front) past,
                  length-append front tail,
                )) in
              rw (past, none_left, append-nil front) refl
          | inr inside ↦
              rw (inside, recover_round-IsTail base front tail ps fb t, cut-front front tail ps)
                refl
        ]
