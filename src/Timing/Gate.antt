-- ===== src/Timing/Gate.antt =====
-- timing-core/src/domain/sequence_gate.rs: the high-water mark for each producer and detector.
pub mod HighWater
pub mod Deliveries
use otk_core.Prelude.{
  ℕ, ◌+◌, Bool, true, false, Option, none, some, List, [], ◌∷◌, Text, Result, ok, err, leb, ltb,
  ◌==◌, if◌then◌else◌, length,
}
use otk_core.Prelude.Map.{Key, Map, lookup, insert}
use otk_core.Event.{Detection, OtkEvent, detection}
use otk_core.Timing.Storage.{LogEntry, StorageError, EventLog}

pub data GateDecision : Type 0 where
  accept : GateDecision
  advance : ℕ → GateDecision
  gap : ℕ → ℕ → GateDecision
  duplicate : ℕ → ℕ → GateDecision

unfoldable pub persist : GateDecision → Bool
persist accept = true
persist (advance previous_high_water) = true
persist (gap expected got) = true
persist (duplicate high_water got) = false

pub record SequenceGate : Type 0 where
  pub high_water : Map ℕ

unfoldable pub new : SequenceGate
new = record { high_water = [] }

abbrev pub key_of : Text → Detection → Key
key_of producer_id det = (producer_id, det.detector_id)

-- The `match` on the mark.
unfoldable pub decide : Option ℕ → ℕ → GateDecision
decide none seq = accept
decide (some hw) seq =
    if leb seq hw then duplicate hw seq else if seq == hw + 1 then advance hw else gap (hw + 1) seq

unfoldable pub peek : SequenceGate → Text → Detection → GateDecision
unfolding decide
peek gate producer_id det =
    decide (lookup (key_of producer_id det) gate.high_water) det.sequence_number

unfoldable pub commit : SequenceGate → Text → Detection → SequenceGate
commit gate producer_id det =
    let seq = det.sequence_number in
    let key = key_of producer_id det in
    let raised = record gate { high_water = insert key seq gate.high_water } in
    elim (lookup key gate.high_water) [
      | none ↦ raised
      | some hw ↦ if ltb hw seq then raised else gate
    ]

unfoldable pub check : SequenceGate → Text → Detection → SequenceGate × GateDecision
check gate producer_id det =
    let decision = peek gate producer_id det in
    (if persist decision then commit gate producer_id det else gate, decision)

-- Its body: a detection is committed, any other event ignored.
unfoldable pub seed_event : SequenceGate → Text → OtkEvent → SequenceGate
seed_event gate producer_id (detection det) = commit gate producer_id det
seed_event gate producer_id _ = gate

-- The loop of `seed_from_log` over the entries read.
unfoldable pub seed_entries : SequenceGate → List LogEntry → SequenceGate
seed_entries gate [] = gate
seed_entries gate (entry ∷ rest) = seed_entries (seed_event gate entry.producer_id entry.event) rest

unfoldable pub seed_from_log :
    (l : EventLog) → SequenceGate → l.Log → l.Log × SequenceGate × Result StorageError ℕ
seed_from_log l gate s =
    let (s1, earliest) = l.earliest_offset s in
    elim earliest [
      | err e ↦ (s1, gate, err e)
      | ok none ↦ (s1, gate, ok 0)
      | ok (some o) ↦
          let (s2, read) = l.read_range o none s1 in
          elim read [
            | err e ↦ (s2, gate, err e)
            | ok entries ↦ (s2, seed_entries gate entries, ok (length entries))
          ]
    ]
