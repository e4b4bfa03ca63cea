-- ===== src/Frame/Serial/Session.antt =====
-- frame-codec/src/serial.rs: frames that `encode_serial` wrote come out of the decoder, also behind
-- noise.
use otk_core.Prelude.{
  ℕ, ◌+◌, ◌≤◌, ◌≡◌, refl, ap, ◌∙◌, false, [], ◌∷◌, ◌++◌, List, Bytes, arith, Result, ok, IsByte,
  All, All-append, to_be, to_be-IsByte, length, length-append, length-to_be, Result-cases, inl, inr,
  u64_max, ◌>>=◌, >>=-eq-ok, map,
}
use native.Mathlib.Nat.{le_trans}
use otk_core.Protocol.{Cbor, RoundTrips, WritesBytes}
use otk_core.Frame.{FrameError}
use otk_core.Frame.Serial.{
  Cobs, IsCobs, SerialFrameDecoder, new, push, finish_frame, check_payload, encode_serial, with_crc,
  crc16_ccitt_false, saturating_add,
}
use otk_core.Frame.Serial.Crc.{check_frame-joined, crc16-IsU16}
use otk_core.Frame.Serial.Steps.{
  push-append, push_nil, push_run, SameLimits, push-SameLimits, delimiter_idle,
}

module _ {A : Type 0} (cbor : Cbor A) (cobs : Cobs) (m : ℕ) where
  -- Whatever came before it, a delimiter brings a decoder back to its first state.
  pub push_delimited :
      (noise : Bytes) → (push cbor cobs (new cobs m) (noise ++ 0x00 ∷ [])).0 ≡ new cobs m
  unfolding new
  push_delimited noise =
      ap (λ r. r.0) (push-append cbor cobs (new cobs m) noise (0x00 ∷ []))
      ∙ unfold push in
        delimiter_idle cbor cobs reached ∙ λ i. record {
          buf = [];
          max_frame_size = (limits.0 i);
          max_wire_size = (limits.1 i);
          discarding = false;
        }
    where
      reached : SerialFrameDecoder
      reached = (push cbor cobs (new cobs m) noise).0

      limits : SameLimits cbor cobs reached (new cobs m)
      limits = push-SameLimits cbor cobs (new cobs m) noise

  encode_serial-ok :
      (a : A) (m' : ℕ) (frame : Bytes)
      → encode_serial cbor cobs a m' ≡ ok frame
      → (payload : Bytes) × (cbor.to_vec a ≡ ok payload)
        × (length payload ≤ m')
        × (frame ≡ cobs.encode (with_crc payload) ++ 0x00 ∷ [])
  unfolding encode_serial
  encode_serial-ok a m' frame e = elim (Result-cases (cbor.to_vec a)) [
    | inl (p, q) ↦ (p, q, ground arith, ground arith)
    | inr (x, q) ↦ absurd (ground arith)
  ]

  module _ (c : IsCobs cobs) (trips : RoundTrips cbor) (bytes : WritesBytes cbor) where
    -- What is between the delimiters of a good frame decodes to its envelope.
    finish_frame-encode :
        (a : A) (payload : Bytes)
        → cbor.to_vec a ≡ ok payload
        → length payload ≤ m
        → finish_frame cbor cobs m (cobs.encode (with_crc payload)) ≡ ok a
    unfolding finish_frame with_crc check_payload
    finish_frame-encode a p e fits =
        let crc = crc16_ccitt_false p in
        ground (
          arith,
          c.decodes (p ++ to_be 2 crc)
              (All-append IsByte p (to_be 2 crc) (bytes a p e) (to_be-IsByte 2 crc)),
          check_frame-joined cbor m p crc (crc16-IsU16 p),
          trips a p e,
        )

    push-encode_serial :
        (a : A) (m' : ℕ) (frame : Bytes)
        → m + 2 ≤ u64_max
        → m' ≤ m
        → encode_serial cbor cobs a m' ≡ ok frame
        → push cbor cobs (new cobs m) frame ≡ (new cobs m, ok a ∷ [])
    unfolding new
    push-encode_serial a m' frame room le e =
        let (p, q, fits, whole) = encode_serial-ok a m' frame e in
        let sent = with_crc p in
        let sent_bytes : All IsByte sent =
          unfold with_crc in All-append IsByte p _ (bytes a p q) (to_be-IsByte 2 _) in
        let size : length sent ≡ length p + 2 =
          unfold with_crc in
          omega (
            arith,
            length-append p (to_be 2 (crc16_ccitt_false p)),
            length-to_be 2 (crc16_ccitt_false p),
          ) in
        ap (push cbor cobs (new cobs m)) whole
        ∙ push_run cbor cobs (new cobs m) (cobs.encode sent) refl refl (c.no_zero sent sent_bytes)
            (c.nonempty sent sent_bytes)
            (le_trans (c.fits sent sent_bytes)
              (c.monotone (length sent) (saturating_add m 2) (omega (arith, size))))
        ∙ ap (λ r. (new cobs m, r ∷ [])) (finish_frame-encode a p q (omega arith))

-- The frames of several envelopes, one after the other.
unfoldable pub encode_all : {A : Type 0} → Cbor A → Cobs → List A → ℕ → Result FrameError Bytes
encode_all cbor cobs [] m = ok []
encode_all cbor cobs (a ∷ rest) m = do
  frame ← encode_serial cbor cobs a m
  frames ← encode_all cbor cobs rest m
  ok (frame ++ frames)

module _ {A : Type 0} (cbor : Cbor A) (cobs : Cobs) (m : ℕ) (c : IsCobs cobs)
    (trips : RoundTrips cbor) (bytes : WritesBytes cbor) where
  push-encode_all :
      (sent : List A) (m' : ℕ) (frames : Bytes)
      → m + 2 ≤ u64_max
      → m' ≤ m
      → encode_all cbor cobs sent m' ≡ ok frames
      → push cbor cobs (new cobs m) frames ≡ (new cobs m, map ok sent)
  unfolding encode_all
  push-encode_all [] m' frames room le e =
      ap (push cbor cobs (new cobs m)) (ground arith) ∙ push_nil cbor cobs (new cobs m)
  push-encode_all (a ∷ rest) m' frames room le e =
      let (frame, e1, e2) = >>=-eq-ok (encode_serial cbor cobs a m') _ e in
      let (frames', e3, e4) = >>=-eq-ok (encode_all cbor cobs rest m') _ e2 in
      let split : frames ≡ frame ++ frames' = cc (e4) in
      ap (push cbor cobs (new cobs m)) split
      ∙ push-append cbor cobs (new cobs m) frame frames'
      ∙ rw (push-encode_serial cbor cobs m c trips bytes a m' frame room le e1)
          (ap (λ r. (r.0, ok a ∷ r.1)) (push-encode_all rest m' frames' room le e3))

  -- Whatever bytes a new decoder was fed, up to a delimiter: the frames of a session that follow,
  -- encoded under a limit that is at most the decoder's, give exactly their envelopes in order, and
  -- the decoder ends with nothing pending. The COBS and CBOR codecs are taken to decode what they
  -- encoded, and the limit to leave room for the checksum in a u64.
  pub push-resync :
      (noise : Bytes) (sent : List A) (m' : ℕ) (frames : Bytes)
      → m + 2 ≤ u64_max
      → m' ≤ m
      → encode_all cbor cobs sent m' ≡ ok frames
      → push cbor cobs (new cobs m) ((noise ++ 0x00 ∷ []) ++ frames)
        ≡ (new cobs m, (push cbor cobs (new cobs m) (noise ++ 0x00 ∷ [])).1 ++ map ok sent)
  push-resync noise sent m' frames room le e =
      push-append cbor cobs (new cobs m) (noise ++ 0x00 ∷ []) frames
      ∙ rw (push_delimited cbor cobs m noise, push-encode_all sent m' frames room le e)
