-- ===== src/Segment/Record/RoundTrip.antt =====
-- adapter-event-log-segment/src/segment.rs: what is written is read back.
use otk_core.Prelude.{
  ℕ, ◌+◌, ◌≡◌, ◌≢◌, ◌<◌, ◌≤◌, refl, ap, ap₂, ◌∙◌, false, [], ◌∷◌, ◌++◌, Bytes, Text, Result, ok,
  ge→ltb, ◌==◌, ==_iff, length, drop, to_le, from_le, from_le-to_le, length-to_le, length-append,
  take-length_append, drop-length_append, append_assoc, arith, take_front, take_all, drop_past,
  u64_max, inl, inr, Result-cases,
}
use otk_core.Timing.Storage.{LogEntry, StorageError}
use otk_core.Segment.{
  Externals, IsExternals, version, header_len, max_event_cbor, max_producer_id_bytes,
}
use otk_core.Segment.Record.{
  exact, SegmentHeader, magic, header_bytes, read_header, body, frame, check_record, encode_record,
  read_event, implied_event_len, check_event_len, read_id, read_producer, read_record,
}

pub exact-append :
    {A : Type 0} (x : Externals) (n : ℕ) (xs ys : Bytes)
    (next : Bytes → Bytes → Result StorageError A)
    → length xs ≡ n
    → exact x n (xs ++ ys) next ≡ next xs ys
unfolding exact
exact-append x n xs ys next e =
    rw (ge→ltb (length (xs ++ ys)) n (omega (arith, length-append xs ys)), ← e)
      (ap₂ next (take-length_append xs ys) (drop-length_append xs ys))

-- An entry that a log can hold: u64 numbers, and a producer id that is a string.
pub record IsEntry (x : Externals) (e : LogEntry) : Type 0 where
  pub offset_fits : e.offset ≤ u64_max
  pub appended_fits : e.appended_at_ns ≤ u64_max
  pub is_utf8 : x.from_utf8 e.producer_id ≡ ok e.producer_id

body-append :
    (offset at : ℕ) (id cbor r : Bytes)
    → body offset at id cbor ++ r
      ≡ to_le 8 offset
        ++ (to_le 8 at ++ (to_le 2 (length id) ++ (id ++ (to_le 4 (length cbor) ++ (cbor ++ r)))))
unfolding body
body-append offset at id cbor r = simp append_assoc refl

module _ (x : Externals) (v : IsExternals x) where
  -- The bytes of a record and what follows, field by field.
  pub frame-fields :
      (e : LogEntry) (cbor back : Bytes)
      → frame x e cbor ++ back
        ≡ to_le 4 (8 + 8 + 2 + length e.producer_id + 4 + length cbor)
          ++ (to_le 8 e.offset
              ++ (to_le 8 e.appended_at_ns
                  ++ (to_le 2 (length e.producer_id)
                      ++ (e.producer_id
                          ++ (to_le 4 (length cbor)
                              ++ (cbor
                                  ++ (to_le 4 (
                                        x.crc32 (body e.offset e.appended_at_ns e.producer_id cbor))
                                      ++ back)))))))
  unfolding frame
  frame-fields e cbor back =
      let size = to_le 4 (8 + 8 + 2 + length e.producer_id + 4 + length cbor) in
      let payload = body e.offset e.appended_at_ns e.producer_id cbor in
      append_assoc size (payload ++ to_le 4 (x.crc32 payload)) back
      ∙ ap (λ r. size ++ r)
          (append_assoc payload (to_le 4 (x.crc32 payload)) back
            ∙ body-append e.offset e.appended_at_ns e.producer_id cbor
                (to_le 4 (x.crc32 payload) ++ back))

  read_event-frame :
      (pos : ℕ) (e : LogEntry) (cbor back : Bytes)
      → x.event.decode cbor ≡ ok e.event
      → length cbor ≤ max_event_cbor
      → read_event x pos e.offset e.appended_at_ns e.producer_id (length cbor) (
          to_le 4 (length cbor)
          ++ (cbor
              ++ (to_le 4 (x.crc32 (body e.offset e.appended_at_ns e.producer_id cbor)) ++ back)))
        ≡ ok e
  unfolding read_event
  read_event-frame pos e cbor back d le =
      let crc = x.crc32 (body e.offset e.appended_at_ns e.producer_id cbor) in
      let stored = from_le-to_le 4 (length cbor) (omega arith) in
      let checked = from_le-to_le 4 crc (v.crc32_fits _) in
      rw
        (
          exact-append x 4 (to_le 4 (length cbor)) (cbor ++ (to_le 4 crc ++ back)) _
              (length-to_le 4 (length cbor)),
          stored,
          (==_iff (length cbor) (length cbor)).1 refl,
          exact-append x (length cbor) cbor (to_le 4 crc ++ back) _ refl,
          exact-append x 4 (to_le 4 crc) back _ (length-to_le 4 crc),
          checked,
          (==_iff crc crc).1 refl,
          d,
        )
        refl

  read_id-frame :
      (pos : ℕ) (e : LogEntry) (cbor back : Bytes)
      → IsEntry x e
      → x.event.decode cbor ≡ ok e.event
      → length cbor ≤ max_event_cbor
      → read_id x pos (length cbor) e.offset e.appended_at_ns e.producer_id (
          to_le 4 (length cbor)
          ++ (cbor
              ++ (to_le 4 (x.crc32 (body e.offset e.appended_at_ns e.producer_id cbor)) ++ back)))
        ≡ ok e
  unfolding read_id check_event_len
  read_id-frame pos e cbor back w d le =
      rw (w.is_utf8, ge→ltb max_event_cbor (length cbor) le) (read_event-frame pos e cbor back d le)

  implied_event_len_lem :
      (n m : ℕ) → n ≤ max_event_cbor → implied_event_len (8 + 8 + 2 + m + 4 + n) m ≡ n
  unfolding implied_event_len
  implied_event_len_lem n m le = omega arith

  read_producer-frame :
      (pos : ℕ) (e : LogEntry) (cbor back : Bytes)
      → IsEntry x e
      → x.event.decode cbor ≡ ok e.event
      → length cbor ≤ max_event_cbor
      → length e.producer_id ≢ 0
      → length e.producer_id ≤ max_producer_id_bytes
      → read_producer x pos
          (8 + 8 + 2 + length e.producer_id + 4 + length cbor)
          e.offset
          e.appended_at_ns
          (length e.producer_id)
          (e.producer_id
            ++ (to_le 4 (length cbor)
                ++ (cbor
                    ++ (to_le 4 (x.crc32 (body e.offset e.appended_at_ns e.producer_id cbor))
                        ++ back))))
        ≡ ok e
  unfolding read_producer
  read_producer-frame pos e cbor back w d le nonempty short =
      let id = e.producer_id in
      let crc = x.crc32 (body e.offset e.appended_at_ns id cbor) in
      rw
        (
          ≢→== (length id) 0 nonempty,
          ge→ltb max_producer_id_bytes (length id) short,
          exact-append x (length id) id (to_le 4 (length cbor) ++ (cbor ++ (to_le 4 crc ++ back))) _
              refl,
          implied_event_len_lem (length cbor) (length id) le,
        )
        (read_id-frame pos e cbor back w d le)
    where
      ≢→== : (a b : ℕ) → a ≢ b → (a == b) ≡ false
      ≢→== a b h = ground arith

  -- A record that `write_record` writes is the frame of an entry that passed its checks.
  pub encode_record-frame :
      (e : LogEntry) (bytes : Bytes)
      → encode_record x e ≡ ok bytes
      → (cbor : Bytes) × (x.event.decode cbor ≡ ok e.event)
        × (length cbor ≤ max_event_cbor)
        × (length e.producer_id ≢ 0)
        × (length e.producer_id ≤ max_producer_id_bytes)
        × (bytes ≡ frame x e cbor)
  unfolding encode_record check_record
  encode_record-frame e bytes h = elim (Result-cases (x.event.to_vec e.event)) [
    | inr (m, q) ↦ absurd (cc (rw (q, encode_record) at h))
    | inl (cbor, q) ↦
        let checked : check_record x e cbor ≡ ok bytes = rw (q, encode_record) at h in
        (
          cbor,
          v.trips e.event cbor q,
          ground arith,
          λ z. absurd (ground arith),
          ground arith,
          ground arith,
        )
  ]

  read_record-frame :
      (e : LogEntry) (cbor back : Bytes) (pos : ℕ) (file : Bytes)
      → IsEntry x e
      → x.event.decode cbor ≡ ok e.event
      → length cbor ≤ max_event_cbor
      → length e.producer_id ≢ 0
      → length e.producer_id ≤ max_producer_id_bytes
      → drop pos file ≡ frame x e cbor ++ back
      → read_record x file pos ≡ ok e
  unfolding read_record
  read_record-frame e cbor back pos file w d le nonempty short here =
      let id = e.producer_id in
      let size = 8 + 8 + 2 + length id + 4 + length cbor in
      let crc = x.crc32 (body e.offset e.appended_at_ns id cbor) in
      let r4 = id ++ (to_le 4 (length cbor) ++ (cbor ++ (to_le 4 crc ++ back))) in
      let r3 = to_le 2 (length id) ++ r4 in
      let r2 = to_le 8 e.appended_at_ns ++ r3 in
      let r1 = to_le 8 e.offset ++ r2 in
      let whole : drop pos file ≡ to_le 4 size ++ r1 = here ∙ frame-fields e cbor back in
      rw
        (
          whole,
          exact-append x 4 (to_le 4 size) r1 _ (length-to_le 4 size),
          from_le-to_le 4 size (omega arith),
          positive size (omega arith),
          ge→ltb size 22 (omega arith),
          exact-append x 8 (to_le 8 e.offset) r2 _ (length-to_le 8 e.offset),
          exact-append x 8 (to_le 8 e.appended_at_ns) r3 _ (length-to_le 8 e.appended_at_ns),
          exact-append x 2 (to_le 2 (length id)) r4 _ (length-to_le 2 (length id)),
          from_le-to_le 8 e.offset (let f = w.offset_fits in omega arith),
          from_le-to_le 8 e.appended_at_ns (let f = w.appended_fits in omega arith),
          from_le-to_le 2 (length id) (omega arith),
        )
        (read_producer-frame pos e cbor back w d le nonempty short)
    where
      positive : (n : ℕ) → 0 < n → (n == 0) ≡ false
      positive n h = ground arith

  -- A record that was written, wherever it stands in a file, is read back as its entry. The entry's
  -- numbers are u64 and its producer id is a string; the codec is taken to decode what it encodes,
  -- and the checksum to be a u32.
  pub read_record-encode_record :
      (e : LogEntry) (bytes front back : Bytes)
      → IsEntry x e
      → encode_record x e ≡ ok bytes
      → read_record x (front ++ (bytes ++ back)) (length front) ≡ ok e
  read_record-encode_record e bytes front back w h =
      let (cbor, d, le, nonempty, short, same) = encode_record-frame e bytes h in
      read_record-frame e cbor back (length front) (front ++ (bytes ++ back)) w d le nonempty short
        (drop-length_append front (bytes ++ back) ∙ ap (λ b. b ++ back) same)

-- A segment's header that was written is read back, whatever follows it, where its numbers are u64.
pub read_header-header_bytes :
    (x : Externals) (debug : Bytes → Text) (h : SegmentHeader) (back : Bytes)
    → h.base_offset ≤ u64_max
    → h.created_at_ns ≤ u64_max
    → read_header x debug (header_bytes h ++ back) ≡ ok h
unfolding read_header header_bytes
read_header-header_bytes x debug h back base created =
    let base_bytes = to_le 8 h.base_offset in
    let created_bytes = to_le 8 h.created_at_ns in
    let numbers = base_bytes ++ created_bytes in
    let start : Bytes = magic ++ (version ∷ 0 ∷ 0 ∷ 0 ∷ []) in
    let size : length (start ++ numbers) ≡ header_len = omega (
      arith,
      length-append base_bytes created_bytes,
      length-to_le 8 h.base_offset,
      length-to_le 8 h.created_at_ns,
    ) in
    exact-append x header_len (start ++ numbers) back _ size
    ∙ rw
        (
          take_front 8 base_bytes created_bytes (length-to_le 8 h.base_offset),
          drop_past 8 0 base_bytes created_bytes (length-to_le 8 h.base_offset),
          take_all 8 created_bytes (omega (arith, length-to_le 8 h.created_at_ns)),
          from_le-to_le 8 h.base_offset (omega arith),
          from_le-to_le 8 h.created_at_ns (omega arith),
        )
        (unfold from_le in refl)
