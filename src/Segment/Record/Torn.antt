-- ===== src/Segment/Record/Torn.antt =====
-- adapter-event-log-segment/src/segment.rs: reading where the file ends early.
use otk_core.Prelude.{
  ℕ, ◌+◌, ◌^◌, ◌≡◌, ◌<◌, ◌≤◌, ◌⊎◌, refl, ap, Bool, true, false, not, ◌++◌, Bytes, Text, Result, ok,
  err, map_err, ltb, ge→ltb, ltb→ge, ◌==◌, if◌then◌else◌, length, take, drop, from_le, All, IsByte,
  All-take, All-drop, from_le-lt, length-append, length-take, length-drop, take-append_le,
  drop-append_le, arith, >>=-eq-ok, Bool-cases, inl, inr, Result-cases,
}
use otk_core.Timing.Storage.{LogEntry, StorageError, io, unexpected_eof}
use otk_core.Segment.{Externals, max_event_cbor, max_producer_id_bytes}
use otk_core.Segment.Record.{
  exact, read_event, implied_event_len, check_event_len, read_id, read_producer, read_record,
}

module _ (x : Externals) where
  -- With more of the file the first result is the second, unless it was the end of the file.
  abbrev pub Extends : {A : Type 0} → Result StorageError A → Result StorageError A → Type 0
  Extends r s = (r ≡ err (io unexpected_eof x.early_eof)) ⊎ (r ≡ s)

  exact-Extends :
      {A : Type 0} (n : ℕ) (r s : Bytes) (next : Bytes → Bytes → Result StorageError A)
      → ((b c : Bytes) → Extends (next b c) (next b (c ++ s)))
      → Extends (exact x n r next) (exact x n (r ++ s) next)
  unfolding exact
  exact-Extends n r s next h = elim (Bool-cases (ltb (length r) n)) [
    | inl short ↦ rw short (inl refl)
    | inr long ↦
        rw
          (
            long,
            ge→ltb (length (r ++ s)) n
                (let l = ltb→ge (length r) n long in omega (arith, length-append r s)),
            take-append_le n r s (ltb→ge (length r) n long),
            drop-append_le n r s (ltb→ge (length r) n long),
          )
          (h (take n r) (drop n r))
  ]

  if-Extends :
      {A : Type 0} (b : Bool) (e : Result StorageError A) (r s : Result StorageError A)
      → Extends r s
      → Extends (if b then e else r) (if b then e else s)
  if-Extends true e r s h = inr refl
  if-Extends false e r s h = h

  read_event-Extends :
      (pos o a : ℕ) (id : Text) (n : ℕ) (r s : Bytes)
      → Extends (read_event x pos o a id n r) (read_event x pos o a id n (r ++ s))
  unfolding read_event
  read_event-Extends pos o a id n r s = exact-Extends 4 r s _ λ len c.
      if-Extends (not (from_le len == n)) _ _ _
        (exact-Extends (from_le len) c s _ λ cbor d. exact-Extends 4 d s _ λ crc f. inr refl)

  read_id-Extends :
      (pos n o a : ℕ) (id : Bytes) (r s : Bytes)
      → Extends (read_id x pos n o a id r) (read_id x pos n o a id (r ++ s))
  unfolding read_id check_event_len
  read_id-Extends pos n o a id r s = elim (Result-cases (x.from_utf8 id)) [
    | inr (m, q) ↦ rw q (inr refl)
    | inl (p, q) ↦
        rw q (if-Extends (ltb max_event_cbor n) _ _ _ (read_event-Extends pos o a p n r s))
  ]

  -- A file that is cut short reads as the whole one, or its end is met.
  pub read_record-Extends :
      (pos : ℕ) (file s : Bytes)
      → pos ≤ length file
      → Extends (read_record x file pos) (read_record x (file ++ s) pos)
  unfolding read_record read_producer
  read_record-Extends pos file s inside = rw (drop-append_le pos file s inside) (
      exact-Extends 4 (drop pos file) s _ λ len r1. if-Extends (from_le len == 0) _ _ _ (
        if-Extends (ltb (from_le len) 22) _ _ _ (
          exact-Extends 8 r1 s _ λ o r2. exact-Extends 8 r2 s _ λ a r3.
            exact-Extends 2 r3 s _ λ n r4. if-Extends (from_le n == 0) _ _ _ (
              if-Extends (ltb max_producer_id_bytes (from_le n)) _ _ _ (
                exact-Extends (from_le n) r4 s _
                  λ id r5. read_id-Extends pos _ (from_le o) (from_le a) id r5 s)))))

  exact-ok :
      {A : Type 0} (n : ℕ) (r : Bytes) (next : Bytes → Bytes → Result StorageError A) (a : A)
      → exact x n r next ≡ ok a
      → (n ≤ length r) × (next (take n r) (drop n r) ≡ ok a)
  unfolding exact
  exact-ok n r next a h = (ground arith, ground arith)

  if-ok :
      {A : Type 0} (b : Bool) (e : StorageError) (r : Result StorageError A) (a : A)
      → (if b then err e else r) ≡ ok a
      → (b ≡ false) × (r ≡ ok a)
  if-ok true e r a h = absurd (cc)
  if-ok false e r a h = (refl, h)

  read_event-ok :
      (pos o t : ℕ) (id : Text) (n : ℕ) (r : Bytes) (e : LogEntry)
      → read_event x pos o t id n r ≡ ok e
      → n + 8 ≤ length r
  unfolding read_event
  read_event-ok pos o t id n r e h =
      let (l1, h1) = exact-ok 4 r _ e h in
      let stored = from_le (take 4 r) in
      let (same, h2) = if-ok (not (stored == n)) _ _ e h1 in
      let (l2, h3) = exact-ok stored (drop 4 r) _ e h2 in
      let (l3, h4) = exact-ok 4 (drop stored (drop 4 r)) _ e h3 in
      let equal : stored ≡ n = ground arith in
      omega (arith, length-drop 4 r, length-drop stored (drop 4 r))

  read_id-ok :
      (pos n o t : ℕ) (id : Bytes) (r : Bytes) (e : LogEntry)
      → read_id x pos n o t id r ≡ ok e
      → (n ≤ max_event_cbor) × (n + 8 ≤ length r)
  unfolding read_id check_event_len
  read_id-ok pos n o t id r e h =
      let (p, q, h1) = >>=-eq-ok (map_err _ (x.from_utf8 id)) (check_event_len x pos n o t r) h in
      let (small, h2) = if-ok (ltb max_event_cbor n) _ _ e h1 in
      (ltb→ge max_event_cbor n small, read_event-ok pos o t p n r e h2)

  -- A read that succeeds has its record whole in the file, by the length that the record starts with.
  pub read_record-ok :
      (pos : ℕ) (file : Bytes) (e : LogEntry)
      → All IsByte file
      → read_record x file pos ≡ ok e
      → (0 < from_le (take 4 (drop pos file)))
        × (from_le (take 4 (drop pos file)) + 8 ≤ length (drop pos file))
  unfolding read_record read_producer implied_event_len
  read_record-ok pos file e bytes h =
      let r = drop pos file in
      let (l1, h1) = exact-ok 4 r _ e h in
      let n = from_le (take 4 r) in
      let (positive, h2) = if-ok (n == 0) _ _ e h1 in
      let (large, h3) = if-ok (ltb n 22) _ _ e h2 in
      let r1 = drop 4 r in
      let (l2, h4) = exact-ok 8 r1 _ e h3 in
      let r2 = drop 8 r1 in
      let (l3, h5) = exact-ok 8 r2 _ e h4 in
      let r3 = drop 8 r2 in
      let (l4, h6) = exact-ok 2 r3 _ e h5 in
      let m = from_le (take 2 r3) in
      let (some_id, h7) = if-ok (m == 0) _ _ e h6 in
      let (short_id, h8) = if-ok (ltb max_producer_id_bytes m) _ _ e h7 in
      let r4 = drop 2 r3 in
      let (l5, h9) = exact-ok m r4 _ e h8 in
      let (small, l6) = read_id-ok pos _ _ _ (take m r4) (drop m r4) e h9 in
      let fits : n < 2 ^ 32 =
        from_le-lt-4 (take 4 r) (All-take IsByte 4 r (All-drop IsByte pos file bytes))
          (omega (arith, length-take 4 r)) in
      let bound = ltb→ge n 22 large in
      let bound' = ltb→ge max_producer_id_bytes m short_id in
      (
        omega arith,
        omega (
          arith,
          length-drop 4 r,
          length-drop 8 r1,
          length-drop 8 r2,
          length-drop 2 r3,
          length-drop m r4,
        ),
      )
    where
      from_le-lt-4 : (bs : Bytes) → All IsByte bs → length bs ≡ 4 → from_le bs < 2 ^ 32
      from_le-lt-4 bs h l =
          let lt = from_le-lt bs h in
          let e : 256 ^ length bs ≡ 256 ^ 4 = ap (λ k. 256 ^ k) l in omega arith
