-- ===== src/Frame/Stream/Progress.antt =====
-- frame-codec/src/stream.rs: one round of the decoder's loop, more input behind it, and how the
-- loop ends.
use otk_core.Prelude.{
  ℕ, ◌+◌, ◌-◌, ◌≤◌, ◌<◌, ◌≡◌, refl, min, [], ◌∷◌, ◌++◌, Bytes, arith, Result, length, take, drop,
  length-append, length-drop, take-append_le, drop-append_le, drop-append_ge, drop_all, append-nil,
  from_be,
}
use otk_core.Protocol.{Cbor}
use otk_core.Frame.{FrameError}
use otk_core.Frame.Stream.{pause, emit, payload_round, frame_round, round}

module _ {A : Type 0} (cbor : Cbor A) (m : ℕ) where
  payload_round-emit :
      (x : Bytes) (len : ℕ) (x' : Bytes) (k' : ℕ) (r : Result FrameError A)
      → 4 ≤ length x
      → payload_round cbor m x len ≡ emit r x' k'
      → length x' + 4 ≤ length x
  unfolding payload_round
  payload_round-emit x len x' k' r l h =
      let body = length-drop (4 + len) x in let head = length-drop 4 x in ground (arith, body, head)

  payload_round-pause :
      (x : Bytes) (len : ℕ) (x' : Bytes) (k' : ℕ)
      → payload_round cbor m x len ≡ pause x' k'
      → (x' ≡ x) × (k' ≡ 0)
  unfolding payload_round
  payload_round-pause x len x' k' h = ground arith

  payload_round-pause_bound :
      (x : Bytes) (len : ℕ) → payload_round cbor m x len ≡ pause x 0 → length x < 4 + m
  unfolding payload_round
  payload_round-pause_bound x len h = ground arith

  payload_round-append :
      (x y : Bytes) (len : ℕ) (x' : Bytes) (k' : ℕ) (r : Result FrameError A)
      → 4 ≤ length x
      → payload_round cbor m x len ≡ emit r x' k'
      → payload_round cbor m (x ++ y) len ≡ emit r (x' ++ y) k'
  unfolding payload_round
  payload_round-append x y len x' k' r l h = ground (
    arith,
    length-append x y,
    drop-append_le 4 x y,
    drop-append_le (4 + len) x y,
    take-append_le len (drop 4 x) y,
    length-drop 4 x,
  )

  frame_round-emit :
      (x x' : Bytes) (k' : ℕ) (r : Result FrameError A)
      → frame_round cbor m x ≡ emit r x' k'
      → length x' + 4 ≤ length x
  unfolding frame_round
  frame_round-emit x x' k' r h =
      let len = from_be (take 4 x) in ground (arith, payload_round-emit x len x' k' r)

  frame_round-pause :
      (x x' : Bytes) (k' : ℕ) → frame_round cbor m x ≡ pause x' k' → (x' ≡ x) × (k' ≡ 0)
  unfolding frame_round
  frame_round-pause x x' k' h =
      let len = from_be (take 4 x) in ground (arith, payload_round-pause x len x' k')

  frame_round-pause_bound : (x : Bytes) → frame_round cbor m x ≡ pause x 0 → length x < 4 + m
  unfolding frame_round
  frame_round-pause_bound x h =
      let len = from_be (take 4 x) in ground (arith, payload_round-pause_bound x len)

  frame_round-append :
      (x y x' : Bytes) (k' : ℕ) (r : Result FrameError A)
      → frame_round cbor m x ≡ emit r x' k'
      → frame_round cbor m (x ++ y) ≡ emit r (x' ++ y) k'
  unfolding frame_round
  frame_round-append x y x' k' r h = ground (
    arith,
    length-append x y,
    take-append_le 4 x y,
    payload_round-append x y (from_be (take 4 x)) x' k' r,
  )

  -- A round that goes on takes at least a length prefix off the buffer.
  pub round-emit :
      (x : Bytes) (k : ℕ) (x' : Bytes) (k' : ℕ) (r : Result FrameError A)
      → round cbor m x k ≡ emit r x' k'
      → length x' + 4 ≤ length x
  unfolding round
  round-emit x k x' k' r h =
      let cut = drop (min (length x) k) x in
      let shorter = length-drop (min (length x) k) x in
      ground (arith, frame_round-emit x x' k' r, frame_round-emit cut x' k' r, shorter)

  -- It does not look at the input that follows.
  pub round-append :
      (x y : Bytes) (k : ℕ) (x' : Bytes) (k' : ℕ) (r : Result FrameError A)
      → round cbor m x k ≡ emit r x' k'
      → round cbor m (x ++ y) k ≡ emit r (x' ++ y) k'
  unfolding round
  round-append x y k x' k' r h =
      let n = min (length x) k in
      ground (
        arith,
        length-append x y,
        drop-append_le n x y,
        frame_round-append x y x' k' r,
        frame_round-append (drop n x) y x' k' r,
      )

  -- A round that breaks keeps all that a later round, over more input, needs.
  pub round-pause_append :
      (x y : Bytes) (k : ℕ) (x' : Bytes) (k' : ℕ)
      → round cbor m x k ≡ pause x' k'
      → round cbor m (x ++ y) k ≡ round cbor m (x' ++ y) k'
  unfolding round
  round-pause_append x y k x' k' h =
      let n = min (length x) k in
      ground (
        arith,
        length-append x y,
        drop-append_le n x y,
        drop-append_ge (min (length (x ++ y)) k) x y,
        drop_all n x,
        frame_round-pause x x' k',
        frame_round-pause (drop n x) x' k',
      )

  pub round-pause :
      (x : Bytes) (k : ℕ) (x' : Bytes) (k' : ℕ)
      → round cbor m x k ≡ pause x' k'
      → round cbor m x' k' ≡ pause x' k'
  round-pause x k x' k' h = cc (h, round-pause_append x [] k x' k' h, append-nil x, append-nil x')

  pub round-pause_length :
      (x : Bytes) (k : ℕ) (x' : Bytes) (k' : ℕ)
      → round cbor m x k ≡ pause x' k'
      → length x' ≤ length x
  unfolding round
  round-pause_length x k x' k' h =
      let n = min (length x) k in
      ground (arith, length-drop n x, frame_round-pause x x' k', frame_round-pause (drop n x) x' k')

  -- The bytes to skip can be taken off the input before the round.
  pub round_skip :
      (x : Bytes) (k : ℕ)
      → round cbor m x k ≡ round cbor m (drop (min (length x) k) x) (k - min (length x) k)
  unfolding round
  round_skip x k = let n = min (length x) k in ground (arith, length-drop n x, drop_all n x)

  -- What the loop waits with is shorter than the longest frame.
  pub round-pause_short : (x : Bytes) (k : ℕ) → round cbor m x k ≡ pause x k → length x < 4 + m
  unfolding round
  round-pause_short x k h =
      let n = min (length x) k in
      ground (
        arith,
        length-drop n x,
        frame_round-pause x x k,
        frame_round-pause (drop n x) x k,
        frame_round-pause_bound x,
        frame_round-pause_bound (drop n x),
      )

  -- While it has bytes to skip it holds none.
  pub round-pause_empty : (x : Bytes) (k : ℕ) → round cbor m x k ≡ pause x k → 0 < k → x ≡ []
  unfolding round
  round-pause_empty [] k h p = refl
  round-pause_empty (b ∷ bs) k h p =
      let n = min (length (b ∷ bs)) k in
      ground (arith, length-drop n (b ∷ bs), frame_round-pause (drop n (b ∷ bs)) (b ∷ bs) k)
