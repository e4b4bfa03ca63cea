-- ===== src/Segment/Recover/Fuel.antt =====
-- adapter-event-log-segment/src/segment.rs: the recovery ends.
use otk_core.Prelude.{
  ℕ, zero, suc, ◌-◌, ◌<◌, ◌≡◌, ◌⊎◌, refl, List, Bytes, Result, leb, length, arith, Bool-cases, some,
  Result-cases, inl, inr,
}
use otk_core.Timing.Storage.{StorageError, io, corrupted, unexpected_eof}
use otk_core.Segment.{Externals}
use otk_core.Segment.Record.{read_record}
use otk_core.Segment.Recover.{
  Recovered, Round, halt, onward, cut, accept_record, refuse_record, recover_round, recover_loop,
}

Round-cases :
    (r : Round)
    → ((a : Result StorageError Recovered) × (r ≡ halt a))
      ⊎ ((ps : List ℕ) × (p : ℕ) × (r ≡ onward ps p))
Round-cases (halt a) = inl (a, refl)
Round-cases (onward ps p) = inr (ps, p, refl)

refuse_record-halt :
    (file : Bytes) (ps : List ℕ) (pos : ℕ) (e : StorageError) (qs : List ℕ) (q : ℕ)
    → refuse_record file ps pos e ≡ onward qs q
    → pos < q
unfolding refuse_record cut
refuse_record-halt file ps pos (io unexpected_eof m) qs q h = absurd (cc)
refuse_record-halt file ps pos (corrupted m) qs q h = absurd (cc)
refuse_record-halt file ps pos e qs q h = absurd (cc)

recover_round-advances :
    (x : Externals) (file : Bytes) (base pos : ℕ) (ps qs : List ℕ) (q : ℕ)
    → recover_round x file base pos ps ≡ onward qs q
    → pos < q
unfolding recover_round accept_record cut
recover_round-advances x file base pos ps qs q h = elim (Result-cases (read_record x file pos)) [
  | inl (e, r) ↦ ground (arith, r)
  | inr (e, r) ↦ ground (arith, r, refuse_record-halt file ps pos e qs q)
]

-- On any file the loop ends by its own tests: with fuel above the bytes that are left there is a
-- result, and it is the same for any such fuel.
pub recover_loop_fuel :
    (x : Externals) (file : Bytes) (base : ℕ) (f g pos : ℕ) (ps : List ℕ)
    → length file - pos < f
    → length file - pos < g
    → (r : Result StorageError Recovered) × (recover_loop x f file base pos ps ≡ some r)
      × (recover_loop x g file base pos ps ≡ some r)
unfolding recover_loop
recover_loop_fuel x file base zero g pos ps p q = absurd (omega arith)
recover_loop_fuel x file base (suc f) zero pos ps p q = absurd (omega arith)
recover_loop_fuel x file base (suc f) (suc g) pos ps p q =
    elim (Bool-cases (leb (length file) pos)) [
      | inl past ↦ rw past (_, refl, refl)
      | inr inside ↦ elim (Round-cases (recover_round x file base pos ps)) [
        | inl (a, r) ↦ rw (inside, r) (a, refl, refl)
        | inr (qs, q', r) ↦
            let further = recover_round-advances x file base pos ps qs q' r in
            rw (inside, r) (recover_loop_fuel x file base f g q' qs (ground arith) (ground arith))
      ]
    ]
