-- ===== src/Segment/Record.antt =====
-- adapter-event-log-segment/src/segment.rs: the header of a segment and its records.
pub mod RoundTrip
pub mod Torn
use otk_core.Prelude.{
  ℕ, ◌+◌, ◌-◌, ◌%◌, ◌^◌, ◌≡◌, ◌<◌, Bool, true, false, not, ◌||◌, List, [], ◌∷◌, ◌++◌, Bytes, Text,
  text, text_eq, Result, ok, err, ◌>>=◌, map_err, ltb, ◌==◌, if◌then◌else◌, length, take, drop,
  to_le, from_le,
}
use otk_core.Protocol.Traceparent.{hex_text}
use otk_core.Timing.Storage.{
  LogEntry, StorageError, invalid_input, corrupted, io, ErrorKind, unexpected_eof, decimal,
}
use otk_core.Segment.{
  Externals, version, header_len, max_event_cbor, max_producer_id_bytes, sentinel_msg,
}

-- `?` on a `read_exact` of n bytes at the cursor, before the rest of the function.
unfoldable pub exact :
    {A : Type 0}
    → Externals
    → ℕ
    → Bytes
    → (Bytes → Bytes → Result StorageError A)
    → Result StorageError A
exact x n rest next =
    if ltb (length rest) n
    then err (io unexpected_eof x.early_eof)
    else next (take n rest) (drop n rest)

pub record SegmentHeader : Type 0 where
  pub base_offset : ℕ
  pub created_at_ns : ℕ

abbrev pub magic : Bytes
magic = 0x4F ∷ 0x54 ∷ 0x4B ∷ 0x53 ∷ []

-- The 24 bytes that `SegmentHeader::write` writes.
unfoldable pub header_bytes : SegmentHeader → Bytes
header_bytes h =
    magic ++ (version ∷ 0 ∷ 0 ∷ 0 ∷ []) ++ (to_le 8 h.base_offset ++ to_le 8 h.created_at_ns)

-- `SegmentHeader::read` on the start of a file. The debug text of the four bytes is a parameter.
unfoldable pub read_header : Externals → (Bytes → Text) → Bytes → Result StorageError SegmentHeader
read_header x debug file = exact x header_len file λ buf rest.
    if not (text_eq (take 4 buf) magic)
    then err (corrupted (text "bad magic: " ++ debug (take 4 buf)))
    else if not (from_le (take 1 (drop 4 buf)) == version)
    then err
        (corrupted (text "unknown segment version " ++ decimal 20 (from_le (take 1 (drop 4 buf)))))
    else ok (record {
      base_offset = from_le (take 8 (drop 8 buf));
      created_at_ns = from_le (take 8 (drop 16 buf));
    })

-- What the checksum is over, after the payload's length.
unfoldable pub body : ℕ → ℕ → Text → Bytes → Bytes
body offset appended_at_ns producer_id cbor =
    to_le 8 offset
    ++ (to_le 8 appended_at_ns
        ++ (to_le 2 (length producer_id) ++ (producer_id ++ (to_le 4 (length cbor) ++ cbor))))

-- The buffer that `write_record` builds of an entry and its CBOR.
unfoldable pub frame : Externals → LogEntry → Bytes → Bytes
unfolding body
frame x e cbor =
    let payload = body e.offset e.appended_at_ns e.producer_id cbor in
    to_le 4 (8 + 8 + 2 + length e.producer_id + 4 + length cbor)
    ++ (payload ++ to_le 4 (x.crc32 payload))

-- `write_record` up to the write of the buffer, once the event is encoded.
unfoldable pub check_record : Externals → LogEntry → Bytes → Result StorageError Bytes
check_record x e cbor =
    if ltb max_event_cbor (length cbor)
    then err (
        invalid_input (
          text "event CBOR ("
          ++ (decimal 20 (length cbor)
              ++ text " bytes) exceeds maximum record size (4194304 bytes)")))
    else if length e.producer_id == 0
    then err (invalid_input (text "producer_id must not be empty"))
    else if ltb max_producer_id_bytes (length e.producer_id)
    then err (
        invalid_input (
          text "producer_id ("
          ++ (decimal 20 (length e.producer_id)
              ++ text " bytes) exceeds maximum length (256 bytes)")))
    else ok (frame x e cbor)

unfoldable pub encode_record : Externals → LogEntry → Result StorageError Bytes
encode_record x e = do
  cbor ← map_err (λ m. corrupted (text "CBOR encode: " ++ m)) (x.event.to_vec e.event)
  check_record x e cbor

abbrev at_pos : ℕ → Text
at_pos pos = text " at pos " ++ decimal 20 pos

-- The texts of the errors.
unfoldable pub event_len_mismatch : ℕ → ℕ → ℕ → Text
event_len_mismatch pos expected stored =
    text "event_len mismatch"
    ++ at_pos pos
    ++ (text ": payload_len implies "
        ++ (decimal 20 expected ++ (text ", stored " ++ decimal 20 stored)))

unfoldable pub crc_mismatch : ℕ → ℕ → ℕ → Text
crc_mismatch pos computed stored =
    text "CRC mismatch"
    ++ at_pos pos
    ++ (text ": expected 0x" ++ (hex_text 8 computed ++ (text ", got 0x" ++ hex_text 8 stored)))

unfoldable pub cbor_decode : ℕ → Text → Text
cbor_decode pos m = text "CBOR decode" ++ at_pos pos ++ (text ": " ++ m)

unfoldable pub event_too_long : ℕ → ℕ → Text
event_too_long pos expected =
    text "event CBOR length "
    ++ decimal 20 expected
    ++ at_pos pos
    ++ text " exceeds maximum 4194304"

unfoldable pub not_utf8 : ℕ → Text → Text
not_utf8 pos m = text "producer_id" ++ at_pos pos ++ (text " is not valid UTF-8: " ++ m)

unfoldable pub no_producer_id : ℕ → Text
no_producer_id pos =
    text "producer_id_len is 0"
    ++ at_pos pos
    ++ text "; v2 segments require a non-empty producer id"

unfoldable pub producer_id_too_long : ℕ → ℕ → Text
producer_id_too_long pos id_len =
    text "producer_id_len " ++ decimal 20 id_len ++ at_pos pos ++ text " exceeds maximum 256"

unfoldable pub payload_too_small : ℕ → ℕ → Text
payload_too_small pos payload_len =
    text "payload_len "
    ++ decimal 20 payload_len
    ++ (text " too small" ++ at_pos pos)
    ++ text " (minimum 22)"

-- `read_record` from the event's length on.
unfoldable pub read_event : Externals → ℕ → ℕ → ℕ → Text → ℕ → Bytes → Result StorageError LogEntry
read_event x pos offset appended_at_ns producer_id expected r = exact x 4 r λ len_buf r1.
    let stored = from_le len_buf in
    if not (stored == expected)
    then err (corrupted (event_len_mismatch pos expected stored))
    else exact x stored r1 λ cbor r2. exact x 4 r2 λ crc_buf r3.
      let stored_crc = from_le crc_buf in
      let computed_crc = x.crc32 (body offset appended_at_ns producer_id cbor) in
      if not (computed_crc == stored_crc)
      then err (corrupted (crc_mismatch pos computed_crc stored_crc))
      else do
        event ← map_err (λ m. corrupted (cbor_decode pos m)) (x.event.decode cbor)
        ok (record {
          offset = offset;
          appended_at_ns = appended_at_ns;
          producer_id = producer_id;
          event = event;
        })

-- `payload_len - 8 - 8 - 2 - producer_id_len as u32 - 4` on u32, where overflow wraps around.
unfoldable pub implied_event_len : ℕ → ℕ → ℕ
implied_event_len payload_len id_len = (payload_len - 8 - 8 - 2 + 2 ^ 32 - id_len - 4) % 2 ^ 32

-- From the test of the implied length of the event on.
unfoldable pub check_event_len :
    Externals → ℕ → ℕ → ℕ → ℕ → Bytes → Text → Result StorageError LogEntry
check_event_len x pos expected offset appended_at_ns r producer_id =
    if ltb max_event_cbor expected
    then err (corrupted (event_too_long pos expected))
    else read_event x pos offset appended_at_ns producer_id expected r

-- From the bytes of the producer id on.
unfoldable pub read_id : Externals → ℕ → ℕ → ℕ → ℕ → Bytes → Bytes → Result StorageError LogEntry
read_id x pos expected offset appended_at_ns id_bytes r = do
  producer_id ← map_err (λ m. corrupted (not_utf8 pos m)) (x.from_utf8 id_bytes)
  check_event_len x pos expected offset appended_at_ns r producer_id

-- From the producer id's length on.
unfoldable pub read_producer : Externals → ℕ → ℕ → ℕ → ℕ → ℕ → Bytes → Result StorageError LogEntry
read_producer x pos payload_len offset appended_at_ns id_len r =
    if id_len == 0
    then err (corrupted (no_producer_id pos))
    else if ltb max_producer_id_bytes id_len
    then err (corrupted (producer_id_too_long pos id_len))
    else exact x id_len r
        (read_id x pos (implied_event_len payload_len id_len) offset appended_at_ns)

unfoldable pub read_record : Externals → Bytes → ℕ → Result StorageError LogEntry
read_record x file pos = exact x 4 (drop pos file) λ len_buf r1.
    let payload_len = from_le len_buf in
    if payload_len == 0
    then err (corrupted sentinel_msg)
    else if ltb payload_len 22
    then err (corrupted (payload_too_small pos payload_len))
    else exact x 8 r1 λ offset r2. exact x 8 r2 λ appended r3. exact x 2 r3 λ id_len r4.
      read_producer x pos payload_len (from_le offset) (from_le appended) (from_le id_len) r4
