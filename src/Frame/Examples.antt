-- ===== src/Frame/Examples.antt =====
-- frame-codec/src: tests over a codec of single bytes, and the theorems at concrete inputs.
use otk_core.Prelude.{
  ℕ, zero, suc, ◌+◌, ◌*◌, ◌≤◌, ◌<◌, ◌≡◌, ◌≢◌, refl, ap, false, Option, none, some, [], ◌∷◌, ◌++◌,
  List, Bytes, Text, arith, subst, Result, ok, err, IsByte, All, length, ltb, if◌then◌else◌, to_be,
  text, ◌⊎◌, to_le,
}
use mathlib.Core.Option
use mathlib.Core.List.{flatten}
use otk_core.Protocol.{Cbor, RoundTrips, WritesBytes}
use otk_core.Frame.{oversize_frame, corrupt_frame}
use otk_core.Frame.Stream
use otk_core.Frame.Stream.Chunks.{push_all, push_all-flatten}
use otk_core.Frame.Stream.RoundTrip.{
  push_all-encode_all, push-oversize, push_all-bounds, encode_all as stream_encode_all,
}
use otk_core.Frame.Serial
use otk_core.Frame.Serial.{Cobs, IsCobs, crc16_ccitt_false, check_frame}
use otk_core.Frame.Serial.Crc.{check_frame-one_byte}
use otk_core.Frame.Serial.Session.{push-resync, encode_all as serial_encode_all}
use otk_core.Frame.Serial.Bounds.{push-overlong, push-new_bounds, IsBounded}

-- A codec that satisfies what is taken of minicbor: a number below 256 is one byte.
abbrev byte_to_vec : ℕ → Result Text Bytes
byte_to_vec n = if ltb n 256 then ok (n ∷ []) else err []

abbrev byte_decode : Bytes → Result Text ℕ
byte_decode (b ∷ []) = ok b
byte_decode _ = err []

abbrev byte_cbor : Cbor ℕ
byte_cbor = record { to_vec = byte_to_vec; decode = byte_decode }

byte_cbor-RoundTrips : RoundTrips byte_cbor
byte_cbor-RoundTrips n bs h =
    let same : n ∷ [] ≡ bs = ground arith in subst (λ b. byte_decode b ≡ ok n) same refl

byte_cbor-WritesBytes : WritesBytes byte_cbor
byte_cbor-WritesBytes n bs h =
    let same : n ∷ [] ≡ bs = ground arith in
    let small : n < 256 = ground arith in subst (All IsByte) same (small, tt)

-- An escaping code that satisfies what is taken of COBS.
abbrev escape : Bytes → Bytes
escape [] = []
escape (zero ∷ bs) = 1 ∷ escape bs
escape (suc b ∷ bs) = 2 ∷ suc b ∷ escape bs

abbrev unescape : Bytes → Option Bytes
unescape [] = some []
unescape (zero ∷ bs) = none
unescape (suc zero ∷ bs) = Option.map (◌∷◌ 0) (unescape bs)
unescape (suc (suc c) ∷ []) = none
unescape (suc (suc c) ∷ b ∷ bs) = Option.map (◌∷◌ b) (unescape bs)

unescape-escape : (bs : Bytes) → unescape (escape bs) ≡ some bs
unescape-escape [] = refl
unescape-escape (zero ∷ bs) = ap (Option.map (◌∷◌ 0)) (unescape-escape bs)
unescape-escape (suc b ∷ bs) = ap (Option.map (◌∷◌ (suc b))) (unescape-escape bs)

escape_nonzero : (bs : Bytes) → All (λ b. b ≢ 0) (escape bs)
escape_nonzero [] = tt
escape_nonzero (zero ∷ bs) = (omega arith, escape_nonzero bs)
escape_nonzero (suc b ∷ bs) = (omega arith, (omega arith, escape_nonzero bs))

escape_bound : (bs : Bytes) → length (escape bs) ≤ 2 * length bs
escape_bound [] = omega arith
escape_bound (zero ∷ bs) = omega (arith, escape_bound bs)
escape_bound (suc b ∷ bs) = omega (arith, escape_bound bs)

abbrev unmark : Bytes → Option Bytes
unmark [] = none
unmark (b ∷ bs) = unescape bs

abbrev escaping : Cobs
escaping = record {
  max_encoding_length = λ n. 2 * n + 1;
  encode = λ bs. 3 ∷ escape bs;
  decode = unmark;
}

escaping-IsCobs : IsCobs escaping
escaping-IsCobs = record {
  decodes = λ bs h. unescape-escape bs;
  no_zero = λ bs h. (omega arith, escape_nonzero bs);
  nonempty = λ bs h. omega arith;
  fits = λ bs h. omega (arith, escape_bound bs);
  monotone = λ m n h. omega arith;
}

-- The check value of the CRC catalogue.
crc16_known : crc16_ccitt_false (text "123456789") ≡ 0x29B1
unfolding crc16_ccitt_false Serial.crc_loop Serial.crc_rounds Serial.crc_round
crc16_known = refl

-- Two frames, cut inside the second length prefix.
abbrev two_frames : List Bytes
two_frames = (0 ∷ 0 ∷ 0 ∷ 1 ∷ 7 ∷ 0 ∷ 0 ∷ []) ∷ (0 ∷ 1 ∷ 9 ∷ []) ∷ []

push_all-encode_all_example :
    (push_all byte_cbor (Stream.new 16) two_frames ≡ (Stream.new 16, ok 7 ∷ ok 9 ∷ []))
    × (Stream.has_pending (Stream.new 16) ≡ false)
push_all-encode_all_example =
    push_all-encode_all byte_cbor 16 (7 ∷ 9 ∷ []) 10 two_frames (omega arith) byte_cbor-RoundTrips
      sent
  where
    sent : stream_encode_all byte_cbor (7 ∷ 9 ∷ []) 10 ≡ ok (flatten two_frames)
    sent = unfold stream_encode_all Stream.encode_stream to_be to_le flatten in refl

push-oversize_example :
    Stream.push byte_cbor (Stream.new 2) (to_be 4 3 ++ ((7 ∷ 8 ∷ 9 ∷ []) ++ [])) ≡ (
      let (d, rs) = Stream.push byte_cbor (Stream.new 2) [] in
      (d, err (oversize_frame (some 3) 2) ∷ rs))
push-oversize_example =
    push-oversize byte_cbor 2 3 (7 ∷ 8 ∷ 9 ∷ []) [] (omega arith) (omega arith) refl

push_all-bounds_example :
    let d = (push_all byte_cbor (Stream.new 2) two_frames).0 in
    (length d.buf < 4 + 2) × ((d.skip_bytes ≡ 0) ⊎ (d.buf ≡ []))
push_all-bounds_example = push_all-bounds byte_cbor 2 two_frames

check_frame-one_byte_example :
    check_frame byte_cbor 16 ((5 ∷ 6 ∷ []) ++ to_be 2 (crc16_ccitt_false (5 ∷ 7 ∷ [])))
    ≡ err corrupt_frame
check_frame-one_byte_example =
    check_frame-one_byte byte_cbor 16 (5 ∷ []) [] 7 6 (omega arith) (omega arith) (omega arith)

push-resync_example :
    Serial.push byte_cbor escaping
      (Serial.new escaping 16)
      (((1 ∷ 2 ∷ []) ++ 0 ∷ []) ++ ((3 ∷ 2 ∷ 7 ∷ 2 ∷ 0x91 ∷ 2 ∷ 0x17 ∷ 0 ∷ []) ++ []))
    ≡ (
      Serial.new escaping 16,
      (Serial.push byte_cbor escaping (Serial.new escaping 16) ((1 ∷ 2 ∷ []) ++ 0 ∷ [])).1
          ++ (ok 7 ∷ []),
    )
push-resync_example =
    push-resync byte_cbor escaping 16 escaping-IsCobs byte_cbor-RoundTrips byte_cbor-WritesBytes
      (1 ∷ 2 ∷ []) (7 ∷ []) 10 _ (omega arith) (omega arith) sent
  where
    sent :
        serial_encode_all byte_cbor escaping (7 ∷ []) 10
        ≡ ok ((3 ∷ 2 ∷ 7 ∷ 2 ∷ 0x91 ∷ 2 ∷ 0x17 ∷ 0 ∷ []) ++ [])
    sent =
        unfold serial_encode_all Serial.encode_serial Serial.with_crc crc16_ccitt_false
          Serial.crc_loop Serial.crc_rounds Serial.crc_round to_be to_le in
        refl

abbrev long_run : Bytes
long_run = 1 ∷ 2 ∷ 3 ∷ 4 ∷ 5 ∷ 6 ∷ 7 ∷ 8 ∷ []

push-overlong_example :
    Serial.push byte_cbor escaping (Serial.new escaping 1) (long_run ++ 0 ∷ [])
    ≡ (Serial.new escaping 1, err (oversize_frame none 1) ∷ [])
push-overlong_example =
    push-overlong byte_cbor escaping 1 long_run (omega arith) (unfold Serial.new in omega arith)

push-new_bounds_example :
    IsBounded (Serial.push byte_cbor escaping (Serial.new escaping 1) long_run).0
push-new_bounds_example = push-new_bounds byte_cbor escaping 1 long_run

push_all-flatten_example :
    push_all byte_cbor (Stream.new 2) two_frames
    ≡ Stream.push byte_cbor (Stream.new 2) (flatten two_frames)
push_all-flatten_example =
    push_all-flatten byte_cbor (Stream.new 2) two_frames
      (unfold Stream.new Stream.round Stream.frame_round in refl)
