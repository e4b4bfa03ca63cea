-- ===== src/Segment/Frames.antt =====
-- adapter-event-log-segment/src/segment.rs: runs of whole records in a file.
use otk_core.Prelude.{
  ℕ, zero, suc, ◌+◌, ◌≡◌, ◌<◌, refl, sym, ap, ◌∙◌, List, [], ◌∷◌, ◌++◌, Bytes, ok, length, take,
  to_le, from_le, from_le-to_le, length-to_le, length-append, append_assoc, take_front, All,
  All-append, IsByte, arith, subst,
}
use otk_core.Timing.Storage.{LogEntry}
use otk_core.Segment.{Externals, IsExternals}
use otk_core.Segment.Record.{encode_record, frame, body}
use otk_core.Segment.Record.RoundTrip.{IsEntry, encode_record-frame, frame-fields}

-- An entry with the bytes of its record.
abbrev pub Frame : Type 0
Frame = LogEntry × Bytes

abbrev pub content : List Frame → Bytes
content [] = []
content ((e, b) ∷ fs) = b ++ content fs

-- Where each record starts, from a place on.
abbrev pub starts : ℕ → List Frame → List ℕ
starts pos [] = []
starts pos ((e, b) ∷ fs) = pos ∷ starts (pos + length b) fs

pub content-append : (fs gs : List Frame) → content (fs ++ gs) ≡ content fs ++ content gs
content-append [] gs = refl
content-append ((e, b) ∷ fs) gs =
    ap (λ r. b ++ r) (content-append fs gs) ∙ sym (append_assoc b (content fs) (content gs))

pub starts-append :
    (pos : ℕ) (fs gs : List Frame)
    → starts pos (fs ++ gs) ≡ starts pos fs ++ starts (pos + length (content fs)) gs
starts-append pos [] gs = let e : pos ≡ pos + 0 = omega arith in ap (λ p. starts p gs) e
starts-append pos ((e, b) ∷ fs) gs =
    let shift : pos + length b + length (content fs) ≡ pos + length (b ++ content fs) =
      omega (arith, length-append b (content fs)) in
    ap (λ r. pos ∷ r)
      (starts-append (pos + length b) fs gs
        ∙ ap (λ p. starts (pos + length b) fs ++ starts p gs) shift)

pub length-starts : (pos : ℕ) (fs : List Frame) → length (starts pos fs) ≡ length fs
length-starts pos [] = refl
length-starts pos ((e, b) ∷ fs) = ap suc (length-starts (pos + length b) fs)

length-body :
    (o t : ℕ) (id cbor : Bytes)
    → length (body o t id cbor) ≡ 8 + 8 + 2 + length id + 4 + length cbor
unfolding body
length-body o t id cbor =
    let r5 = to_le 4 (length cbor) ++ cbor in
    let r4 = id ++ r5 in
    let r3 = to_le 2 (length id) ++ r4 in
    omega (
      arith,
      length-append (to_le 8 o) (to_le 8 t ++ r3),
      length-append (to_le 8 t) r3,
      length-append (to_le 2 (length id)) r4,
      length-append id r5,
      length-append (to_le 4 (length cbor)) cbor,
      length-to_le 8 o,
      length-to_le 8 t,
      length-to_le 2 (length id),
      length-to_le 4 (length cbor),
    )

module _ (x : Externals) where
  -- Records that `write_record` wrote, of entries with the offsets from n on.
  abbrev pub Framed : ℕ → List Frame → Type 0
  Framed n [] = Unit {0}
  Framed n ((e, b) ∷ fs) =
      (encode_record x e ≡ ok b) × IsEntry x e × (e.offset ≡ n) × All IsByte b × Framed (n + 1) fs

  pub Framed-append :
      (n : ℕ) (fs gs : List Frame) → Framed n fs → Framed (n + length fs) gs → Framed n (fs ++ gs)
  Framed-append n [] gs h k = let e : n + 0 ≡ n = omega arith in subst (λ m. Framed m gs) e k
  Framed-append n ((e, b) ∷ fs) gs (q, w, o, bytes, h) k =
      let shift : n + suc (length fs) ≡ n + 1 + length fs = omega arith in
      (q, w, o, bytes, Framed-append (n + 1) fs gs h (subst (λ m. Framed m gs) shift k))

  pub Framed-take : (k n : ℕ) (fs : List Frame) → Framed n fs → Framed n (take k fs)
  Framed-take zero n fs h = tt
  Framed-take (suc k) n [] h = tt
  Framed-take (suc k) n ((e, b) ∷ fs) (q, w, o, bytes, h) =
      (q, w, o, bytes, Framed-take k (n + 1) fs h)

  pub content-IsByte : (n : ℕ) (fs : List Frame) → Framed n fs → All IsByte (content fs)
  content-IsByte n [] h = tt
  content-IsByte n ((e, b) ∷ fs) (q, w, o, bytes, h) =
      All-append IsByte b (content fs) bytes (content-IsByte (n + 1) fs h)

  module _ (v : IsExternals x) where
    -- The length that a record starts with, and its length in the file.
    pub record_size :
        (e : LogEntry) (b back : Bytes)
        → encode_record x e ≡ ok b
        → (n : ℕ) × (from_le (take 4 (b ++ back)) ≡ n) × (length b ≡ n + 8) × (0 < n)
    record_size e b back h =
        let (cbor, d, le, nonempty, short, same) = encode_record-frame x v e b h in
        let n = 8 + 8 + 2 + length e.producer_id + 4 + length cbor in
        (
          n,
          ap (λ r. from_le (take 4 (r ++ back))) same
              ∙ ap (λ r. from_le (take 4 r)) (frame-fields x v e cbor back)
              ∙ ap from_le (take_front 4 (to_le 4 n) _ (length-to_le 4 n))
              ∙ from_le-to_le 4 n (omega arith),
          ap length same ∙ length-frame e cbor,
          omega arith,
        )
      where
        length-frame :
            (e : LogEntry) (cbor : Bytes)
            → length (frame x e cbor) ≡ 8 + 8 + 2 + length e.producer_id + 4 + length cbor + 8
        length-frame e cbor =
            let id = e.producer_id in
            let payload = body e.offset e.appended_at_ns id cbor in
            let crc = to_le 4 (x.crc32 payload) in
            unfold frame in
            omega (
              arith,
              length-append (to_le 4 (8 + 8 + 2 + length id + 4 + length cbor)) (payload ++ crc),
              length-to_le 4 (8 + 8 + 2 + length id + 4 + length cbor),
              length-append payload crc,
              length-to_le 4 (x.crc32 payload),
              length-body e.offset e.appended_at_ns id cbor,
            )
