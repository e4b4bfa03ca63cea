-- ===== src/Frame/Serial/Bounds.antt =====
-- frame-codec/src/serial.rs: an overlong run of bytes is reported once, and the buffer is bounded.
use otk_core.Prelude.{
  false, inl, ◌⊎◌, ℕ, ◌≤◌, ◌<◌, ◌≡◌, ◌≢◌, refl, ◌∙◌, none, [], ◌∷◌, ◌++◌, Bytes, arith, err, All,
  length, length-append,
}
use otk_core.Protocol.{Cbor}
use otk_core.Frame.{oversize_frame}
use otk_core.Frame.Serial.{Cobs, SerialFrameDecoder, new, push_byte, push}
use otk_core.Frame.Serial.Steps.{push-append, push_overlong}

-- In a new decoder a run of nonzero bytes that is longer than the greatest size on the wire gives one
-- error, which has the decoder's limit and no length, and with its delimiter leaves the decoder as new.
pub push-overlong :
    {A : Type 0} (cbor : Cbor A) (cobs : Cobs) (m : ℕ) (bs : Bytes)
    → All (λ b. b ≢ 0) bs
    → (new cobs m).max_wire_size < length bs
    → push cbor cobs (new cobs m) (bs ++ 0x00 ∷ []) ≡ (new cobs m, err (oversize_frame none m) ∷ [])
unfolding new
push-overlong cbor cobs m bs nz long =
    push-append cbor cobs (new cobs m) bs (0x00 ∷ [])
    ∙ rw (push_overlong cbor cobs (new cobs m) bs refl nz (omega arith) (omega arith))
        (unfold push push_byte in refl)

-- What a decoder that started new holds never exceeds its wire limit, and in the discard state it
-- holds nothing.
pub record IsBounded (d : SerialFrameDecoder) : Type 0 where
  pub short : length d.buf ≤ d.max_wire_size
  pub dropped : (d.discarding ≡ false) ⊎ (d.buf ≡ [])

module _ {A : Type 0} (cbor : Cbor A) (cobs : Cobs) where
  push_byte-IsBounded :
      (d : SerialFrameDecoder) (b : ℕ) → IsBounded d → IsBounded (push_byte cbor cobs d b).0
  push_byte-IsBounded d b v = record {
    short = unfold push_byte in ground (arith, v.short, length-append d.buf (b ∷ []));
    dropped = unfold push_byte in ground (arith, v.dropped);
  }

  push-IsBounded :
      (d : SerialFrameDecoder) (bs : Bytes) → IsBounded d → IsBounded (push cbor cobs d bs).0
  unfolding push
  push-IsBounded d [] v = v
  push-IsBounded d (b ∷ bs) v =
      push-IsBounded (push_byte cbor cobs d b).0 bs (push_byte-IsBounded d b v)

  -- After any input a decoder that started new holds at most as many bytes as the longest encoded
  -- frame has, and none while it discards.
  pub push-new_bounds : (m : ℕ) (bs : Bytes) → IsBounded (push cbor cobs (new cobs m) bs).0
  push-new_bounds m bs =
      push-IsBounded (new cobs m) bs
        (unfold new in record { short = omega arith; dropped = inl refl })
