-- ===== src/Frame/Stream/Chunks.antt =====
-- frame-codec/src/stream.rs: the decoder's results do not depend on how the input is cut into calls
-- of `push`, and what it holds back between calls.
use otk_core.Prelude.{
  ℕ, zero, suc, ◌-◌, ◌<◌, ◌≡◌, refl, sym, ap, ◌∙◌, min, [], ◌∷◌, ◌++◌, List, Bytes, arith, Result,
  length, drop, length-append, length-drop, Bool-cases, ltb, ltb→lt, append-nil, ◌⊎◌, inl, inr,
  append_assoc,
}
use mathlib.Core.List.{flatten}
use otk_core.Protocol.{Cbor}
use otk_core.Frame.{FrameError}
use otk_core.Frame.Stream.{Round, pause, emit, round, rounds, StreamFrameDecoder, push, finish}
use otk_core.Frame.Stream.Progress.{
  round-emit, round-append, round-pause_append, round-pause, round-pause_length, round_skip,
  round-pause_empty,
}

Round-cases :
    {A : Type 0} (r : Round A)
    → ((x : Bytes) × (k : ℕ) × (r ≡ pause x k))
      ⊎ ((a : Result FrameError A) × (x : Bytes) × (k : ℕ) × (r ≡ emit a x k))
Round-cases (pause x k) = inl (x, k, refl)
Round-cases (emit a x k) = inr (a, x, k, refl)

abbrev pub prepend : {A : Type 0} → List A → Bytes × ℕ × List A → Bytes × ℕ × List A
prepend rs (x, k, ss) = (x, k, rs ++ ss)

module _ {A : Type 0} (cbor : Cbor A) (m : ℕ) where
  -- Two starts with the same first round run alike.
  pub rounds_same :
      (f : ℕ) (x y : Bytes) (j k : ℕ)
      → round cbor m x j ≡ round cbor m y k
      → rounds cbor m (suc f) x j ≡ rounds cbor m (suc f) y k
  unfolding rounds
  rounds_same f x y j k h = rw (h, rounds)

  pub rounds_emit :
      (f : ℕ) (x : Bytes) (k : ℕ) {x' : Bytes} {k' : ℕ} {r : Result FrameError A}
      → round cbor m x k ≡ emit r x' k'
      → rounds cbor m (suc f) x k ≡ prepend (r ∷ []) (rounds cbor m f x' k')
  unfolding rounds
  rounds_emit f x k h = rw (h, rounds)

  pub rounds_pause :
      (f : ℕ) (x : Bytes) (k : ℕ) {x' : Bytes} {k' : ℕ}
      → round cbor m x k ≡ pause x' k'
      → rounds cbor m (suc f) x k ≡ (x', k', [])
  unfolding rounds
  rounds_pause f x k h = rw (h, rounds)

  -- Fuel above the length of the buffer is enough: more of it changes nothing.
  pub rounds_fuel :
      (f g : ℕ) (x : Bytes) (k : ℕ)
      → length x < f
      → length x < g
      → rounds cbor m f x k ≡ rounds cbor m g x k
  rounds_fuel zero g x k hf hg = absurd (omega arith)
  rounds_fuel (suc f) zero x k hf hg = absurd (omega arith)
  rounds_fuel (suc f) (suc g) x k hf hg = elim (Round-cases (round cbor m x k)) [
    | inl (x', k', e) ↦ rounds_pause f x k e ∙ sym (rounds_pause g x k e)
    | inr (r, x', k', e) ↦
        let l = round-emit cbor m x k x' k' r e in
        rounds_emit f x k e
        ∙ ap (prepend (r ∷ [])) (rounds_fuel f g x' k' (omega arith) (omega arith))
        ∙ sym (rounds_emit g x k e)
  ]

  -- With that much fuel the loop ends by its break.
  pub rounds_settled :
      (f : ℕ) (x : Bytes) (k : ℕ)
      → length x < f
      → let (x', k', rs) = rounds cbor m f x k in round cbor m x' k' ≡ pause x' k'
  rounds_settled zero x k h = absurd (omega arith)
  rounds_settled (suc f) x k h = elim (Round-cases (round cbor m x k)) [
    | inl (x', k', e) ↦ rw (rounds_pause f x k e) (round-pause cbor m x k x' k' e)
    | inr (r, x', k', e) ↦
        let l = round-emit cbor m x k x' k' r e in
        rw (rounds_emit f x k e) (rounds_settled f x' k' (omega arith))
  ]

  abbrev run : Bytes → ℕ → Bytes × ℕ × List (Result FrameError A)
  run x k = rounds cbor m (suc (length x)) x k

  abbrev continue :
      Bytes → Bytes × ℕ × List (Result FrameError A) → Bytes × ℕ × List (Result FrameError A)
  continue y (x, k, rs) = prepend rs (run (x ++ y) k)

  rounds-append :
      (f g : ℕ) (x y : Bytes) (k : ℕ)
      → length x < f
      → length (x ++ y) < g
      → rounds cbor m g (x ++ y) k ≡ continue y (rounds cbor m f x k)
  rounds-append zero g x y k hf hg = absurd (omega arith)
  rounds-append (suc f) zero x y k hf hg = absurd (omega arith)
  rounds-append (suc f) (suc g) x y k hf hg = elim (Round-cases (round cbor m x k)) [
    | inl (x', k', e) ↦ rw (rounds_pause f x k e) (
        rounds_same g (x ++ y) (x' ++ y) k k' (round-pause_append cbor m x y k x' k' e)
        ∙ rounds_fuel (suc g) (suc (length (x' ++ y))) (x' ++ y) k'
            (omega
              (arith, length-append x y, length-append x' y, round-pause_length cbor m x k x' k' e))
            (omega arith))
    | inr (r, x', k', e) ↦ rw (rounds_emit f x k e) (
        rounds_emit g (x ++ y) k (round-append cbor m x y k x' k' r e)
        ∙ ap (prepend (r ∷ [])) (
            rounds-append f g x' y k' (omega (arith, round-emit cbor m x k x' k' r e)) (
              omega
                (arith, length-append x y, length-append x' y, round-emit cbor m x k x' k' r e))))
  ]

-- The loop has nothing left to do on what the decoder holds. A new decoder is so, and `push` leaves
-- it so.
module _ {A : Type 0} (cbor : Cbor A) where
  abbrev pub IsSettled : StreamFrameDecoder → Type 0
  IsSettled d = round cbor d.max_frame_size d.buf d.skip_bytes ≡ pause d.buf d.skip_bytes

  -- The fast path changes nothing: the loop does the same over all bytes not yet consumed.
  skip_first :
      (m : ℕ) (buf bytes : Bytes) (k f : ℕ)
      → round cbor m buf k ≡ pause buf k
      → length (buf ++ bytes) < f
      → 0 < k
      → let n = min (length bytes) k in
        rounds cbor m (suc (length (buf ++ drop n bytes))) (buf ++ drop n bytes) (k - n)
        ≡ rounds cbor m f (buf ++ bytes) k
  skip_first m buf bytes k f s h p = rw (round-pause_empty cbor m buf k s p) (
      rounds_fuel cbor m (suc (length rest)) (suc (length bytes)) rest (k - n) (omega arith)
        (omega (arith, length-drop n bytes))
      ∙ sym (rounds_same cbor m (length bytes) bytes rest k (k - n) (round_skip cbor m bytes k))
      ∙ rounds_fuel cbor m (suc (length bytes)) f bytes k (omega arith)
          (omega (arith, length-append buf bytes)))
    where
      n : ℕ
      n = min (length bytes) k

      rest : Bytes
      rest = drop n bytes

  pub push-rounds :
      (d : StreamFrameDecoder) (bytes : Bytes) (f : ℕ)
      → IsSettled d
      → length (d.buf ++ bytes) < f
      → push cbor d bytes ≡ finish d (rounds cbor d.max_frame_size f (d.buf ++ bytes) d.skip_bytes)
  unfolding push
  push-rounds d bytes f s h = elim (Bool-cases (ltb 0 d.skip_bytes)) [
    | inl skips ↦
        rw skips (ap (finish d) (skip_first _ d.buf bytes d.skip_bytes f s h (ltb→lt _ _ skips)))
    | inr plain ↦ rw plain (
        ap (finish d) (
          rounds_fuel cbor d.max_frame_size (suc (length (d.buf ++ bytes))) f (d.buf ++ bytes)
            d.skip_bytes (omega arith) h))
  ]

  pub push-IsSettled :
      (d : StreamFrameDecoder) (bytes : Bytes) → IsSettled d → IsSettled (push cbor d bytes).0
  push-IsSettled d bytes s =
      let f = suc (length (d.buf ++ bytes)) in
      rw (push-rounds d bytes f s (omega arith))
        (rounds_settled cbor d.max_frame_size f (d.buf ++ bytes) d.skip_bytes (omega arith))

  -- Feeding two pieces of input one after the other gives the results, and leaves the decoder, that
  -- feeding them at once does.
  pub push-append :
      (d : StreamFrameDecoder) (a b : Bytes)
      → IsSettled d
      → let (d1, rs1) = push cbor d a in
        let (d2, rs2) = push cbor d1 b in push cbor d (a ++ b) ≡ (d2, rs1 ++ rs2)
  push-append d a b s = rw (push-rounds d a (suc (length (d.buf ++ a))) s (omega arith)) (
      push-rounds d (a ++ b) (suc (length (d.buf ++ (a ++ b)))) s (omega arith)
      ∙ ap (finish d) (
          ap (λ x. rounds cbor m (suc (length x)) x d.skip_bytes) (sym (append_assoc d.buf a b))
          ∙ rounds-append cbor m (suc (length (d.buf ++ a))) _ (d.buf ++ a) b d.skip_bytes
              (omega arith) (omega arith))
      ∙ sym (ap (λ r. (r.0, reached.2 ++ r.1)) (push-rounds d1 b _ settled (omega arith))))
    where
      m : ℕ
      m = d.max_frame_size

      reached : Bytes × ℕ × List (Result FrameError A)
      reached = rounds cbor m (suc (length (d.buf ++ a))) (d.buf ++ a) d.skip_bytes

      d1 : StreamFrameDecoder
      d1 = record d { buf = reached.0; skip_bytes = reached.1 }

      settled : IsSettled d1
      settled =
          rounds_settled cbor m (suc (length (d.buf ++ a))) (d.buf ++ a) d.skip_bytes (omega arith)

  -- `push` called on each chunk in turn, with the results of all calls.
  unfoldable pub push_all :
      StreamFrameDecoder → List Bytes → StreamFrameDecoder × List (Result FrameError A)
  push_all d [] = (d, [])
  push_all d (c ∷ cs) =
      let (d1, rs1) = push cbor d c in let (d2, rs2) = push_all d1 cs in (d2, rs1 ++ rs2)

  pub push_nothing : (d : StreamFrameDecoder) → IsSettled d → push cbor d [] ≡ (d, [])
  push_nothing d s =
      push-rounds d [] (suc (length (d.buf ++ []))) s (omega arith)
      ∙ ap (finish d) (
          ap (λ x. rounds cbor d.max_frame_size (suc (length x)) x d.skip_bytes) (append-nil d.buf)
          ∙ rounds_pause cbor d.max_frame_size (length d.buf) d.buf d.skip_bytes s)

  -- However an input is cut into calls of `push`, even within a length prefix or a payload, the
  -- results and the decoder at the end are those of one call on the whole input. The decoder at the
  -- start is one with no more to do on the bytes it holds.
  pub push_all-flatten :
      (d : StreamFrameDecoder) (chunks : List Bytes)
      → IsSettled d
      → push_all d chunks ≡ push cbor d (flatten chunks)
  unfolding push_all flatten
  push_all-flatten d [] s = sym (push_nothing d s)
  push_all-flatten d (c ∷ cs) s =
      ap (λ r. (r.0, (push cbor d c).1 ++ r.1))
        (push_all-flatten (push cbor d c).0 cs (push-IsSettled d c s))
      ∙ sym (push-append d c (flatten cs) s)

  pub push_all-IsSettled :
      (d : StreamFrameDecoder) (chunks : List Bytes) → IsSettled d → IsSettled (push_all d chunks).0
  push_all-IsSettled d chunks s =
      rw (push_all-flatten d chunks s) (push-IsSettled d (flatten chunks) s)

  pub push_all_keeps_max :
      (d : StreamFrameDecoder) (chunks : List Bytes)
      → (push_all d chunks).0.max_frame_size ≡ d.max_frame_size
  unfolding push_all push
  push_all_keeps_max d [] = refl
  push_all_keeps_max d (c ∷ cs) = push_all_keeps_max (push cbor d c).0 cs
