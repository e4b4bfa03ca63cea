-- ===== src/Timing/Gate/HighWater.antt =====
-- timing-core/src/domain/sequence_gate.rs: the gate's map against the detections that were committed.
use otk_core.Prelude.{
  ℕ, ◌≡◌, refl, sym, Bool, false, not, ◌&&◌, ◌||◌, Option, none, some, List, [], ◌∷◌, ◌++◌, Text,
  arith, ok, leb, inl, inr, append_assoc, append-nil, subst, Result-cases,
}
use otk_core.Prelude.Map.{Key, key_eq, key_eq_iff, lookup, lookup-insert}
use otk_core.Event.{Detection, OtkEvent, detection}
use otk_core.Timing.Storage.{LogEntry, EventLog, IsEventLog, Contents, contents_of}
use otk_core.Timing.Gate.{
  persist, SequenceGate, new, key_of, peek, commit, seed_event, seed_entries, seed_from_log,
}

-- Does a mark cover a sequence number?
abbrev pub covered : Option ℕ → ℕ → Bool
covered none n = false
covered (some hw) n = leb n hw

-- Does the sequence hold a detection of this key with this sequence number or a greater one?
abbrev pub reaches : Key → ℕ → Text → OtkEvent → Bool
reaches k n p (detection d) = key_eq (key_of p d) k && leb n d.sequence_number
reaches k n p _ = false

abbrev pub reached : Key → ℕ → Contents → Bool
reached k n [] = false
reached k n ((p, e) ∷ c) = reaches k n p e || reached k n c

pub reached-append :
    (k : Key) (n : ℕ) (c c' : Contents) → reached k n (c ++ c') ≡ (reached k n c || reached k n c')
reached-append k n [] c' = refl
reached-append k n ((p, e) ∷ c) c' = ground (arith, reached-append k n c c')

-- The gate knows of each key and number exactly what the committed detections tell.
abbrev pub Represents : SequenceGate → Contents → Type 0
Represents gate c = (k : Key) (n : ℕ) → covered (lookup k gate.high_water) n ≡ reached k n c

pub new-Represents : Represents new []
unfolding new lookup
new-Represents k n = refl

-- `commit` raises one mark, to the greater of the old one and the new number.
pub commit-covered :
    (gate : SequenceGate) (p : Text) (d : Detection) (k : Key) (n : ℕ)
    → covered (lookup k (commit gate p d).high_water) n
      ≡ (covered (lookup k gate.high_water) n || reaches k n p (detection d))
unfolding commit
commit-covered gate p d k n = ground (
  arith,
  lookup-insert (key_of p d) k d.sequence_number gate.high_water,
  key_eq_iff (key_of p d) k,
)

pub peek-covered :
    (gate : SequenceGate) (p : Text) (d : Detection)
    → persist (peek gate p d)
      ≡ not (covered (lookup (key_of p d) gate.high_water) d.sequence_number)
unfolding peek persist
peek-covered gate p d = ground arith

seed_event-Represents :
    (gate : SequenceGate) (p : Text) (e : OtkEvent) (c : Contents)
    → Represents gate c
    → Represents (seed_event gate p e) (c ++ (p, e) ∷ [])
unfolding seed_event
seed_event-Represents gate p (detection d) c r k n =
    ground (arith, commit-covered gate p d k n, r k n, reached-append k n c ((p, detection d) ∷ []))
seed_event-Represents gate p e c r k n = ground (arith, r k n, reached-append k n c ((p, e) ∷ []))

pub seed_entries-Represents :
    (gate : SequenceGate) (es : List LogEntry) (c : Contents)
    → Represents gate c
    → Represents (seed_entries gate es) (c ++ contents_of es)
unfolding seed_entries
seed_entries-Represents gate [] c r = subst (Represents gate) (sym (append-nil c)) r
seed_entries-Represents gate (e ∷ es) c r =
    subst (Represents (seed_entries (seed_event gate e.producer_id e.event) es))
      (append_assoc c ((e.producer_id, e.event) ∷ []) (contents_of es))
      (seed_entries-Represents (seed_event gate e.producer_id e.event) es
        (c ++ (e.producer_id, e.event) ∷ []) (seed_event-Represents gate e.producer_id e.event c r))

module _ (l : EventLog) (contents : l.Log → Contents) (v : IsEventLog l contents) where
  -- A seeded gate knows what the log holds.
  pub seed_from_log-Represents :
      (s : l.Log) (n : ℕ)
      → (seed_from_log l new s).2 ≡ ok n
      → Represents (seed_from_log l new s).1 (contents s)
  unfolding seed_from_log
  seed_from_log-Represents s n h = elim (Result-cases (l.earliest_offset s).1) [
    | inr (x, e) ↦ absurd (cc (rw (e, seed_from_log) at h))
    | inl (none, e) ↦
        rw (e, seed_from_log) (subst (Represents new) (sym (v.earliest_none s e)) new-Represents)
    | inl (some o, e) ↦ elim (Result-cases (l.read_range o none (l.earliest_offset s).0).1) [
      | inr (x, q) ↦ absurd (cc (rw (e, q, seed_from_log) at h))
      | inl (es, q) ↦
          rw (e, q, seed_from_log)
            (subst (Represents (seed_entries new es)) (v.read_all s o es e q)
              (seed_entries-Represents new es [] new-Represents))
    ]
  ]
