-- ===== src/Frame/Serial.antt =====
-- frame-codec/src/serial.rs: COBS frames with a CRC on an unreliable byte stream. The codec of the
-- envelope and the `cobs` crate are parameters.
pub mod Crc
pub mod Steps
pub mod Session
pub mod Bounds
use Prim.Native.Nat.{bit_and, bit_xor}
use otk_core.Prelude.{
  ℕ, zero, suc, ◌+◌, ◌-◌, ◌*◌, ◌%◌, ◌^◌, ◌≤◌, ◌<◌, ◌≡◌, ◌≢◌, min, Bool, true, false, not, ◌||◌,
  Option, none, some, [], ◌∷◌, ◌++◌, List, Bytes, Result, ok, err, map_err, IsByte, All, to_be,
  from_be, ltb, leb, ◌==◌, if◌then◌else◌, length, take, drop, u64_max,
}
use otk_core.Protocol.{Cbor}
use otk_core.Frame.{
  FrameError, oversize_frame, corrupt_frame, lost_sync, encode_failed, decode_failed,
}

-- The functions of the `cobs` crate that the module calls. `encode` returns the bytes written;
-- `decode` returns the bytes decoded, or nothing on an ill-formed input.
pub record Cobs : Type 0 where
  pub max_encoding_length : ℕ → ℕ
  pub encode : Bytes → Bytes
  pub decode : Bytes → Option Bytes

-- What consistent-overhead byte stuffing promises of byte strings.
pub record IsCobs (c : Cobs) : Type 0 where
  pub decodes : (bs : Bytes) → All IsByte bs → c.decode (c.encode bs) ≡ some bs
  pub no_zero : (bs : Bytes) → All IsByte bs → All (λ b. b ≢ 0) (c.encode bs)
  pub nonempty : (bs : Bytes) → All IsByte bs → 0 < length (c.encode bs)
  pub fits : (bs : Bytes) → All IsByte bs → length (c.encode bs) ≤ c.max_encoding_length (length bs)
  pub monotone : (m n : ℕ) → m ≤ n → c.max_encoding_length m ≤ c.max_encoding_length n

-- One of the eight rounds for a byte, on a u16.
unfoldable pub crc_round : ℕ → ℕ
crc_round crc =
    if not (bit_and crc 0x8000 == 0) then bit_xor (crc * 2 % 2 ^ 16) 0x1021 else crc * 2 % 2 ^ 16

unfoldable pub crc_rounds : ℕ → ℕ → ℕ
crc_rounds zero crc = crc
crc_rounds (suc n) crc = crc_rounds n (crc_round crc)

-- The loop over the bytes, from a given register.
unfoldable pub crc_loop : ℕ → Bytes → ℕ
crc_loop crc [] = crc
crc_loop crc (byte ∷ rest) = crc_loop (crc_rounds 8 (bit_xor crc (byte * 2 ^ 8 % 2 ^ 16))) rest

unfoldable pub crc16_ccitt_false : Bytes → ℕ
crc16_ccitt_false bytes = crc_loop 0xFFFF bytes

unfoldable pub with_crc : Bytes → Bytes
with_crc payload = payload ++ to_be 2 (crc16_ccitt_false payload)

module _ {A : Type 0} (cbor : Cbor A) (cobs : Cobs) where
  unfoldable pub encode_serial : A → ℕ → Result FrameError Bytes
  unfolding with_crc
  encode_serial envelope max_frame_size = elim (cbor.to_vec envelope) [
    | err e ↦ err encode_failed
    | ok payload ↦
        if ltb max_frame_size (length payload)
        then err (oversize_frame (some (length payload)) max_frame_size)
        else ok (cobs.encode (with_crc payload) ++ 0x00 ∷ [])
  ]

-- `scratch` is reused memory only: its content is not read before it is written.
pub record SerialFrameDecoder : Type 0 where
  pub buf : Bytes
  pub max_frame_size : ℕ
  pub max_wire_size : ℕ
  pub discarding : Bool

-- `usize::saturating_add`
abbrev pub saturating_add : ℕ → ℕ → ℕ
saturating_add a b = min (a + b) u64_max

unfoldable pub new : Cobs → ℕ → SerialFrameDecoder
new cobs max_frame_size = record {
  buf = [];
  max_frame_size = max_frame_size;
  max_wire_size = cobs.max_encoding_length (saturating_add max_frame_size 2);
  discarding = false;
}

unfoldable pub has_pending : SerialFrameDecoder → Bool
has_pending d = not (length d.buf == 0) || d.discarding

module _ {A : Type 0} (cbor : Cbor A) where
  -- The size check and the CBOR decoding of a payload whose checksum is right.
  unfoldable pub check_payload : ℕ → Bytes → Result FrameError A
  check_payload max_frame_size payload =
      if ltb max_frame_size (length payload)
      then err (oversize_frame (some (length payload)) max_frame_size)
      else map_err decode_failed (cbor.decode payload)

  -- The bytes between two delimiters, once they are COBS-decoded.
  unfoldable pub check_frame : ℕ → Bytes → Result FrameError A
  check_frame max_frame_size decoded =
      let payload = take (length decoded - 2) decoded in
      let crc_bytes = drop (length decoded - 2) decoded in
      if ltb (length decoded) 2
      then err corrupt_frame
      else if not (crc16_ccitt_false payload == from_be crc_bytes)
      then err corrupt_frame
      else check_payload max_frame_size payload

module _ {A : Type 0} (cbor : Cbor A) (cobs : Cobs) where
  unfoldable pub finish_frame : ℕ → Bytes → Result FrameError A
  finish_frame max_frame_size buf = elim (cobs.decode buf) [
    | some decoded ↦ check_frame cbor max_frame_size decoded
    | none ↦ err lost_sync
  ]

  -- The body of the loop for one byte: the new state and what is pushed on the results.
  unfoldable pub push_byte :
      SerialFrameDecoder → ℕ → SerialFrameDecoder × List (Result FrameError A)
  push_byte d b =
      if b == 0x00
      then (if length d.buf == 0 then (record d { discarding = false }, []) else (
        record d { discarding = false; buf = [] },
        finish_frame d.max_frame_size d.buf ∷ [],
      ))
      else if d.discarding
      then (d, [])
      else if leb d.max_wire_size (length d.buf)
      then (
        record d { buf = []; discarding = true },
        err (oversize_frame none d.max_frame_size) ∷ [],
      )
      else (record d { buf = d.buf ++ b ∷ [] }, [])

  unfoldable pub push : SerialFrameDecoder → Bytes → SerialFrameDecoder × List (Result FrameError A)
  push d [] = (d, [])
  push d (b ∷ bs) = let (d1, rs1) = push_byte d b in let (d2, rs2) = push d1 bs in (d2, rs1 ++ rs2)
