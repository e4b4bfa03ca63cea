-- ===== src/Frame/Serial/Steps.antt =====
-- frame-codec/src/serial.rs: `push` on a run of nonzero bytes, on a delimiter, and in pieces.
use otk_core.Prelude.{
  ℕ, ◌+◌, ◌≤◌, ◌<◌, ◌≡◌, ◌≢◌, refl, sym, ap, ◌∙◌, true, false, none, [], ◌∷◌, ◌++◌, Bytes, arith,
  err, All, length, length-append, inl, inr, append_assoc, append-nil, ◌==◌, Bool-cases, ltb,
  ltb→lt, ltb→ge,
}
use otk_core.Protocol.{Cbor}
use otk_core.Frame.{oversize_frame}
use otk_core.Frame.Serial.{Cobs, SerialFrameDecoder, push_byte, push, finish_frame}

module _ {A : Type 0} (cbor : Cbor A) (cobs : Cobs) where
  -- `push` works byte by byte, so input can be cut anywhere.
  pub push-append :
      (d : SerialFrameDecoder) (a b : Bytes)
      → let (d1, rs1) = push cbor cobs d a in
        let (d2, rs2) = push cbor cobs d1 b in push cbor cobs d (a ++ b) ≡ (d2, rs1 ++ rs2)
  unfolding push
  push-append d [] b = refl
  push-append d (x ∷ a) b =
      let (d1, rs1) = push_byte cbor cobs d x in
      ap (λ r. (r.0, rs1 ++ r.1)) (push-append d1 a b)
      ∙ ap (λ rs. ((push cbor cobs (push cbor cobs d1 a).0 b).0, rs))
          (sym
            (append_assoc rs1 (push cbor cobs d1 a).1 (push cbor cobs (push cbor cobs d1 a).0 b).1))

  pub push_nil : (d : SerialFrameDecoder) → push cbor cobs d [] ≡ (d, [])
  unfolding push
  push_nil d = refl

  pub push_byte_room :
      (d : SerialFrameDecoder) (b : ℕ)
      → d.discarding ≡ false
      → b ≢ 0
      → length d.buf < d.max_wire_size
      → push_byte cbor cobs d b ≡ (record d { buf = d.buf ++ b ∷ [] }, [])
  unfolding push_byte
  push_byte_room d b keep nz room = ground arith

  -- Nonzero bytes are buffered while they fit.
  pub push_buffer :
      (d : SerialFrameDecoder) (bs : Bytes)
      → d.discarding ≡ false
      → All (λ b. b ≢ 0) bs
      → length d.buf + length bs ≤ d.max_wire_size
      → push cbor cobs d bs ≡ (record d { buf = d.buf ++ bs }, [])
  unfolding push
  push_buffer d [] keep nz fits = ap (λ x. (record d { buf = x }, [])) (sym (append-nil d.buf))
  push_buffer d (b ∷ bs) keep nz fits = rw (push_byte_room d b keep nz.0 (omega arith)) (
      push_buffer (record d { buf = d.buf ++ b ∷ [] }) bs keep nz.1
        (omega (arith, length-append d.buf (b ∷ [])))
      ∙ ap (λ x. (record d { buf = x }, [])) (append_assoc d.buf (b ∷ []) bs))

  -- Nonzero bytes are dropped in the discard state.
  push_discard :
      (d : SerialFrameDecoder) (bs : Bytes)
      → d.discarding ≡ true
      → All (λ b. b ≢ 0) bs
      → push cbor cobs d bs ≡ (d, [])
  unfolding push
  push_discard d [] drops nz = refl
  push_discard d (b ∷ bs) drops nz = rw (dropped d b drops nz.0) (push_discard d bs drops nz.1)
    where
      dropped :
          (d : SerialFrameDecoder) (b : ℕ)
          → d.discarding ≡ true
          → b ≢ 0
          → push_byte cbor cobs d b ≡ (d, [])
      dropped d b h n = unfold push_byte in ground arith

  -- A delimiter ends what is buffered.
  push_delimiter :
      (d : SerialFrameDecoder)
      → 0 < length d.buf
      → push_byte cbor cobs d 0x00 ≡ (
        record d { discarding = false; buf = [] },
        finish_frame cbor cobs d.max_frame_size d.buf ∷ [],
      )
  unfolding push_byte
  push_delimiter d h = ground arith

  -- A run of nonzero bytes that fits, with its delimiter, is one frame.
  pub push_run :
      (d : SerialFrameDecoder) (bs : Bytes)
      → d.discarding ≡ false
      → d.buf ≡ []
      → All (λ b. b ≢ 0) bs
      → 0 < length bs
      → length bs ≤ d.max_wire_size
      → push cbor cobs d (bs ++ 0x00 ∷ []) ≡ (
        record d { discarding = false; buf = [] },
        finish_frame cbor cobs d.max_frame_size bs ∷ [],
      )
  push_run d bs keep idle nz some_bytes fits =
      push-append d bs (0x00 ∷ [])
      ∙ rw (push_buffer d bs keep nz (omega (arith, ap length idle)), idle)
          (unfold push in
            ap (λ r. (r.0, r.1 ++ [])) (push_delimiter (record d { buf = bs }) some_bytes))

  -- A run that is too long is reported when it passes the limit, and its rest is dropped.
  pub push_overlong :
      (d : SerialFrameDecoder) (bs : Bytes)
      → d.discarding ≡ false
      → All (λ b. b ≢ 0) bs
      → length d.buf ≤ d.max_wire_size
      → d.max_wire_size < length d.buf + length bs
      → push cbor cobs d bs ≡ (
        record d { buf = []; discarding = true },
        err (oversize_frame none d.max_frame_size) ∷ [],
      )
  unfolding push
  push_overlong d [] keep nz l h = absurd (omega arith)
  push_overlong d (b ∷ bs) keep nz l h = elim (Bool-cases (ltb (length d.buf) d.max_wire_size)) [
    | inl room ↦ rw (push_byte_room d b keep nz.0 (ltb→lt _ _ room)) (
        push_overlong (record d { buf = d.buf ++ b ∷ [] }) bs keep nz.1
          (omega (arith, length-append d.buf (b ∷ []), ltb→lt _ _ room))
          (omega (arith, length-append d.buf (b ∷ []))))
    | inr full ↦ rw (push_byte_full d b keep nz.0 (ltb→ge _ _ full)) (
        ap (λ r. (r.0, err (oversize_frame none d.max_frame_size) ∷ r.1))
          (push_discard (record d { buf = []; discarding = true }) bs refl nz.1))
  ]
    where
      push_byte_full :
          (d : SerialFrameDecoder) (b : ℕ)
          → d.discarding ≡ false
          → b ≢ 0
          → d.max_wire_size ≤ length d.buf
          → push_byte cbor cobs d b ≡ (
            record d { buf = []; discarding = true },
            err (oversize_frame none d.max_frame_size) ∷ [],
          )
      push_byte_full d b keep nz full = unfold push_byte in ground arith

  -- The limits never change.
  abbrev pub SameLimits : SerialFrameDecoder → SerialFrameDecoder → Type 0
  SameLimits d e = (d.max_frame_size ≡ e.max_frame_size) × (d.max_wire_size ≡ e.max_wire_size)

  pub push-SameLimits : (d : SerialFrameDecoder) (bs : Bytes) → SameLimits (push cbor cobs d bs).0 d
  unfolding push
  push-SameLimits d [] = (refl, refl)
  push-SameLimits d (b ∷ bs) =
      let d1 = (push_byte cbor cobs d b).0 in
      let (f, w) = push-SameLimits d1 bs in let (f', w') = one d b in (f ∙ f', w ∙ w')
    where
      one : (d : SerialFrameDecoder) (b : ℕ) → SameLimits (push_byte cbor cobs d b).0 d
      one d b = unfold push_byte in (ground arith, ground arith)

  -- A delimiter leaves nothing behind.
  pub delimiter_idle :
      (d : SerialFrameDecoder)
      → (push_byte cbor cobs d 0x00).0 ≡ record d { buf = []; discarding = false }
  unfolding push_byte
  delimiter_idle d = elim (Bool-cases (length d.buf == 0)) [
    | inl e ↦ rw e (ap (λ x. record d { buf = x; discarding = false }) (empty d.buf e))
    | inr e ↦ rw e
  ]
    where
      empty : (bs : Bytes) → (length bs == 0) ≡ true → bs ≡ []
      empty [] h = refl
      empty (b ∷ bs) h = absurd (ground arith)
