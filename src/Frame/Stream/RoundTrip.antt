-- ===== src/Frame/Stream/RoundTrip.antt =====
-- frame-codec/src/stream.rs: what `encode_stream` wrote comes out of the decoder, an oversize frame
-- is skipped, and what the decoder holds is bounded.
use otk_core.Prelude.{
  ℕ, suc, ◌+◌, ◌-◌, ◌^◌, ◌≤◌, ◌<◌, ◌≡◌, refl, sym, ap, ◌∙◌, min, some, [], ◌∷◌, ◌++◌, List, Bytes,
  arith, Result, ok, err, to_be, from_be, length, take, drop, length-append, length-to_be,
  from_be-to_be, take_front, drop_past, drop-length_append, map, append_assoc, ap₂, Result-cases,
  inl, inr, ◌>>=◌, >>=-eq-ok, false, ◌⊎◌, Bool-cases, ltb, ltb→lt, ltb→ge, subst,
}
use mathlib.Core.List.{flatten}
use otk_core.Protocol.{Cbor, RoundTrips}
use otk_core.Frame.{FrameError, oversize_frame}
use otk_core.Frame.Stream.{
  pause, emit, payload_round, frame_round, round, rounds, encode_stream, StreamFrameDecoder, new,
  push, finish, has_pending,
}
use otk_core.Frame.Stream.Progress.{round-emit, round_skip, round-pause_short, round-pause_empty}
use otk_core.Frame.Stream.Chunks.{
  IsSettled, prepend, rounds_same, rounds_emit, rounds_fuel, push_nothing, push-rounds, push_all,
  push_all-flatten, push_all-IsSettled, push_all_keeps_max,
}

module _ {A : Type 0} (cbor : Cbor A) (m : ℕ) where
  -- The length prefix is read back.
  frame_round-prefix :
      (n : ℕ) (x : Bytes)
      → n < 2 ^ 32
      → frame_round cbor m (to_be 4 n ++ x) ≡ payload_round cbor m (to_be 4 n ++ x) n
  unfolding frame_round
  frame_round-prefix n x h =
      let prefix : from_be (take 4 (to_be 4 n ++ x)) ≡ n =
        ap from_be (take_front 4 (to_be 4 n) x (length-to_be 4 n))
        ∙ from_be-to_be 4 n (omega arith) in
      ground (arith, prefix, length-append (to_be 4 n) x, length-to_be 4 n)

  frame_round-whole :
      (payload x : Bytes) {a : A}
      → length payload ≤ m
      → length payload < 2 ^ 32
      → cbor.decode payload ≡ ok a
      → round cbor m (to_be 4 (length payload) ++ (payload ++ x)) 0 ≡ emit (ok a) x 0
  unfolding round payload_round
  frame_round-whole payload x fits short decodes =
      let n = length payload in
      let frame = to_be 4 n in
      ground (
        arith,
        frame_round-prefix n (payload ++ x) short,
        drop_past 4 0 frame (payload ++ x) (length-to_be 4 n),
        drop_past 4 n frame (payload ++ x) (length-to_be 4 n),
        take_front n payload x refl,
        drop-length_append payload x,
        length-append frame (payload ++ x),
        length-append payload x,
        length-to_be 4 n,
      )

  frame_round-oversize :
      (n : ℕ) (x : Bytes)
      → m < n
      → n < 2 ^ 32
      → round cbor m (to_be 4 n ++ x) 0 ≡ emit (err (oversize_frame (some n) m)) x n
  unfolding round payload_round
  frame_round-oversize n x big short =
      ground (arith, frame_round-prefix n x, drop_past 4 0 (to_be 4 n) x (length-to_be 4 n))

  new-IsSettled : IsSettled cbor (new m)
  unfolding new round frame_round
  new-IsSettled = refl

  push-new :
      (x : Bytes) (f : ℕ)
      → length x < f
      → push cbor (new m) x ≡ finish (new m) (rounds cbor m f x 0)
  unfolding new
  push-new x f h = push-rounds cbor (new m) x f new-IsSettled h

  -- After a round that goes on with nothing buffered before.
  push_emit :
      (x y : Bytes) (k f : ℕ) (r : Result FrameError A)
      → round cbor m x 0 ≡ emit r y k
      → length y < f
      → push cbor (new m) x ≡ (let (d, rs) = finish (new m) (rounds cbor m f y k) in (d, r ∷ rs))
  push_emit x y k f r h l =
      push-new x (suc (length x)) (omega arith)
      ∙ ap (finish (new m)) (
          rounds_emit cbor m (length x) x 0 h
          ∙ ap (prepend (r ∷ [])) (
              rounds_fuel cbor m (length x) f y k (omega (arith, round-emit cbor m x 0 y k r h)) l))

  -- The frame that `encode_stream` returns.
  encode_stream-ok :
      (a : A) (m' : ℕ) (frame : Bytes)
      → encode_stream cbor a m' ≡ ok frame
      → (payload : Bytes) × (cbor.to_vec a ≡ ok payload)
        × (length payload ≤ m')
        × (length payload < 2 ^ 32)
        × (frame ≡ to_be 4 (length payload) ++ payload)
  unfolding encode_stream
  encode_stream-ok a m' frame e = elim (Result-cases (cbor.to_vec a)) [
    | inl (p, q) ↦ (p, q, ground arith, ground arith, ground arith)
    | inr (x, q) ↦ absurd (ground arith)
  ]

  -- A whole good frame at the front of the input of an idle decoder gives its envelope.
  push-frame :
      (a : A) (m' : ℕ) (frame x : Bytes)
      → m' ≤ m
      → RoundTrips cbor
      → encode_stream cbor a m' ≡ ok frame
      → push cbor (new m) (frame ++ x) ≡ (let (d, rs) = push cbor (new m) x in (d, ok a ∷ rs))
  push-frame a m' frame x le trips e =
      let (p, q, fits, short, whole) = encode_stream-ok a m' frame e in
      let at_front = ap (λ f. f ++ x) whole ∙ append_assoc (to_be 4 (length p)) p x in
      ap (push cbor (new m)) at_front
      ∙ push_emit _ x 0 (suc (length x)) (ok a)
          (frame_round-whole p x (omega arith) short (trips a p q)) (omega arith)
      ∙ ap (λ r. (r.0, ok a ∷ r.1)) (sym (push-new x (suc (length x)) (omega arith)))

  -- In a new decoder a whole frame that is oversize, its length being a u32, is reported once, with its
  -- declared length; exactly its payload is skipped, and what follows is decoded as if the frame
  -- had not been there.
  pub push-oversize :
      (n : ℕ) (body x : Bytes)
      → m < n
      → n < 2 ^ 32
      → length body ≡ n
      → push cbor (new m) (to_be 4 n ++ (body ++ x))
        ≡ (let (d, rs) = push cbor (new m) x in (d, err (oversize_frame (some n) m) ∷ rs))
  push-oversize n body x big short whole =
      push_emit _ (body ++ x) n (suc (length (body ++ x))) _
        (frame_round-oversize n (body ++ x) big short) (omega arith)
      ∙ ap (λ r. (r.0, err (oversize_frame (some n) m) ∷ r.1))
          (ap (finish (new m)) (
              rounds_same cbor m (length (body ++ x)) (body ++ x) x n 0 skipped
              ∙ rounds_fuel cbor m _ (suc (length x)) x 0 (omega (arith, length-append body x))
                  (omega arith))
            ∙ sym (push-new x (suc (length x)) (omega arith)))
    where
      all_of_it : min (length (body ++ x)) n ≡ length body
      all_of_it = omega (arith, length-append body x)

      skipped : round cbor m (body ++ x) n ≡ round cbor m x 0
      skipped =
          round_skip cbor m (body ++ x) n
          ∙ ap₂ (round cbor m) (ap (λ k. drop k (body ++ x)) all_of_it ∙ drop-length_append body x)
              (let e : n - min (length (body ++ x)) n ≡ 0 = omega (arith, all_of_it) in e)

-- The frames of several envelopes, one after the other.
unfoldable pub encode_all : {A : Type 0} → Cbor A → List A → ℕ → Result FrameError Bytes
encode_all cbor [] m = ok []
encode_all cbor (a ∷ rest) m = do
  frame ← encode_stream cbor a m
  frames ← encode_all cbor rest m
  ok (frame ++ frames)

module _ {A : Type 0} (cbor : Cbor A) (m : ℕ) where
  push-encode_all :
      (sent : List A) (m' : ℕ) (frames : Bytes)
      → m' ≤ m
      → RoundTrips cbor
      → encode_all cbor sent m' ≡ ok frames
      → push cbor (new m) frames ≡ (new m, map ok sent)
  unfolding encode_all
  push-encode_all [] m' frames le trips e =
      ap (push cbor (new m)) (ground arith) ∙ push_nothing cbor (new m) (new-IsSettled cbor m)
  push-encode_all (a ∷ rest) m' frames le trips e =
      let (frame, e1, e2) = >>=-eq-ok (encode_stream cbor a m') _ e in
      let (frames', e3, e4) = >>=-eq-ok (encode_all cbor rest m') _ e2 in
      let split : frames ≡ frame ++ frames' = cc (e4) in
      ap (push cbor (new m)) split
      ∙ push-frame cbor m a m' frame frames' le trips e1
      ∙ ap (λ r. (r.0, ok a ∷ r.1)) (push-encode_all rest m' frames' le trips e3)

  -- If every envelope of a session is encoded under a limit that is at most the decoder's, then
  -- however the bytes of the frames reach a new decoder, in pieces of any sizes, the results are
  -- those envelopes in order, and the decoder ends with nothing pending. The CBOR codec is taken to
  -- decode what it encoded.
  pub push_all-encode_all :
      (sent : List A) (m' : ℕ) (chunks : List Bytes)
      → m' ≤ m
      → RoundTrips cbor
      → encode_all cbor sent m' ≡ ok (flatten chunks)
      → (push_all cbor (new m) chunks ≡ (new m, map ok sent)) × (has_pending (new m) ≡ false)
  push_all-encode_all sent m' chunks le trips e = (
    push_all-flatten cbor (new m) chunks (new-IsSettled cbor m)
        ∙ push-encode_all sent m' (flatten chunks) le trips e,
    unfold new has_pending in refl,
  )

  -- After any input a decoder that started new holds fewer bytes than a frame of the greatest size
  -- has, and holds none while it has bytes of an oversize frame to skip.
  pub push_all-bounds :
      (chunks : List Bytes)
      → let d = (push_all cbor (new m) chunks).0 in
        (length d.buf < 4 + m) × ((d.skip_bytes ≡ 0) ⊎ (d.buf ≡ []))
  unfolding new
  push_all-bounds chunks = elim (Bool-cases (ltb 0 d.skip_bytes)) [
    | inl skips ↦ (short, inr (round-pause_empty cbor m d.buf d.skip_bytes s (ltb→lt _ _ skips)))
    | inr plain ↦ (short, inl (omega (arith, ltb→ge _ _ plain)))
  ]
    where
      d : StreamFrameDecoder
      d = (push_all cbor (new m) chunks).0

      s : round cbor m d.buf d.skip_bytes ≡ pause d.buf d.skip_bytes
      s =
          subst (λ k. round cbor k d.buf d.skip_bytes ≡ pause d.buf d.skip_bytes)
            (push_all_keeps_max cbor (new m) chunks)
            (push_all-IsSettled cbor (new m) chunks (new-IsSettled cbor m))

      short : length d.buf < 4 + m
      short = round-pause_short cbor m d.buf d.skip_bytes s
