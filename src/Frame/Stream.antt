-- ===== src/Frame/Stream.antt =====
-- frame-codec/src/stream.rs: length-prefixed frames on a reliable byte stream, on a target whose
-- `usize` holds a `u32`. The codec of the envelope is a parameter.
pub mod Progress
pub mod Chunks
pub mod RoundTrip
use otk_core.Prelude.{
  ℕ, zero, suc, ◌+◌, ◌-◌, min, Bool, not, ◌||◌, some, [], ◌∷◌, ◌++◌, List, Bytes, Result, ok, err,
  map_err, to_be, from_be, ltb, if◌then◌else◌, length, take, drop, u32_max,
}
use otk_core.Protocol.{Cbor}
use otk_core.Frame.{FrameError, oversize_frame, encode_failed, decode_failed}

module _ {A : Type 0} (cbor : Cbor A) where
  -- `A` is `OtkEnvelope`.
  unfoldable pub encode_stream : A → ℕ → Result FrameError Bytes
  encode_stream envelope max_frame_size = elim (cbor.to_vec envelope) [
    | err e ↦ err encode_failed
    | ok payload ↦
        let effective_max = min max_frame_size u32_max in
        if ltb effective_max (length payload)
        then err (oversize_frame (some (length payload)) effective_max)
        else ok (to_be 4 (length payload) ++ payload)
  ]

pub record StreamFrameDecoder : Type 0 where
  pub buf : Bytes
  pub max_frame_size : ℕ
  pub skip_bytes : ℕ

unfoldable pub new : ℕ → StreamFrameDecoder
new max_frame_size = record { buf = []; max_frame_size = max_frame_size; skip_bytes = 0 }

unfoldable pub is_empty : Bytes → Bool
is_empty [] = Bool.true
is_empty (b ∷ bs) = Bool.false

unfoldable pub has_pending : StreamFrameDecoder → Bool
unfolding is_empty
has_pending d = not (is_empty d.buf) || ltb 0 d.skip_bytes

-- One round of the loop over `buf[pos..]` and `skip_bytes`: it breaks, or pushes a result and goes on.
pub data Round (A : Type 0) : Type 0 where
  pause : Bytes → ℕ → Round A
  emit : Result FrameError A → Bytes → ℕ → Round A

module _ {A : Type 0} (cbor : Cbor A) (max_frame_size : ℕ) where
  -- The loop's body from the test of the declared length on.
  unfoldable pub payload_round : Bytes → ℕ → Round A
  payload_round rest len =
      if ltb max_frame_size len
      then emit (err (oversize_frame (some len) max_frame_size)) (drop 4 rest) len
      else if ltb (length rest) (4 + len)
      then pause rest 0
      else emit (map_err decode_failed (cbor.decode (take len (drop 4 rest)))) (drop (4 + len) rest)
          0

  -- The loop's body once there is nothing to skip.
  unfoldable pub frame_round : Bytes → Round A
  frame_round rest =
      if ltb (length rest) 4 then pause rest 0 else payload_round rest (from_be (take 4 rest))

  -- The whole body: bytes of an oversize frame that are in the buffer go first.
  unfoldable pub round : Bytes → ℕ → Round A
  round rest skip =
      let skipped = min (length rest) skip in
      if ltb 0 skip
      then (if ltb 0 (skip - skipped)
          then pause (drop skipped rest) (skip - skipped)
          else frame_round (drop skipped rest))
      else frame_round rest

  -- The loop, with the results it pushes, on fuel. Each round that goes on takes four bytes at least.
  unfoldable pub rounds : ℕ → Bytes → ℕ → Bytes × ℕ × List (Result FrameError A)
  rounds zero rest skip = (rest, skip, [])
  rounds (suc fuel) rest skip = elim (round rest skip) [
    | pause rest' skip' ↦ (rest', skip', [])
    | emit r rest' skip' ↦
        let (rest'', skip'', rs) = rounds fuel rest' skip' in (rest'', skip'', r ∷ rs)
  ]

-- `buf.drain(..pos)`, and the results.
abbrev pub finish :
    {A : Type 0} → StreamFrameDecoder → Bytes × ℕ × List A → StreamFrameDecoder × List A
finish d (rest, skip, rs) = (record d { buf = rest; skip_bytes = skip }, rs)

-- `push`: the fast path for bytes to skip, then the loop.
module _ {A : Type 0} (cbor : Cbor A) where
  unfoldable pub push : StreamFrameDecoder → Bytes → StreamFrameDecoder × List (Result FrameError A)
  push d bytes =
      let skip = min (length bytes) d.skip_bytes in
      let skip_bytes = if ltb 0 d.skip_bytes then d.skip_bytes - skip else d.skip_bytes in
      let buf = d.buf ++ (if ltb 0 d.skip_bytes then drop skip bytes else bytes) in
      finish d (rounds cbor d.max_frame_size (suc (length buf)) buf skip_bytes)
