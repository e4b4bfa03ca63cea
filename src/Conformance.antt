-- ===== src/Conformance.antt =====
-- conformance/src/mem_log.rs: the reference event log that is kept in memory, less its subscriptions.
-- Its lock serialises the calls, each of which is one step here. A `usize` is a u64. The clock is a
-- function of the offset that it stamps.
pub mod Contract
pub mod Offsets
pub mod View
pub mod Examples
use otk_core.Prelude.{
  ℕ, ◌+◌, ◌-◌, ◌≤◌, Bool, true, false, not, ◌||◌, Option, none, some, List, [], ◌∷◌, ◌++◌, Text,
  text, Result, ok, err, min, ltb, leb, if◌then◌else◌, length, take, drop,
}
use otk_core.Event.{OtkEvent}
use otk_core.Timing.Storage.{LogEntry, StorageError, retention_expired, invalid_input}

-- `Inner`, less the handle that wakes the subscribers.
pub record MemLog : Type 0 where
  pub entries : List LogEntry
  pub earliest_retained : Option ℕ

unfoldable pub new : MemLog
new = record { entries = []; earliest_retained = none }

unfoldable pub earliest_available_offset : ℕ → ℕ → Option ℕ
earliest_available_offset earliest entries_len =
    if ltb earliest entries_len then some earliest else none

unfoldable pub evict_below : ℕ → MemLog → MemLog
evict_below boundary m = record m { earliest_retained = some (min boundary (length m.entries)) }

unfoldable pub evict_all : MemLog → MemLog
evict_all m = record m { earliest_retained = some (length m.entries) }

abbrev is_empty {ℓ} : {A : Type ℓ} → List A → Bool
is_empty [] = true
is_empty (x ∷ xs) = false

-- The entries that the loop pushes.
unfoldable pub new_entries : (ℕ → ℕ) → ℕ → Text → List OtkEvent → List LogEntry
new_entries now_ns start producer_id [] = []
new_entries now_ns start producer_id (e ∷ es) =
    record { offset = start; appended_at_ns = now_ns start; producer_id = producer_id; event = e }
    ∷ new_entries now_ns (start + 1) producer_id es

unfoldable pub append : (ℕ → ℕ) → Text → List OtkEvent → MemLog → MemLog × Result StorageError ℕ
append now_ns producer_id events m =
    if is_empty events
    then (m, err (invalid_input (text "events slice must not be empty")))
    else if is_empty producer_id
    then (m, err (invalid_input (text "producer_id must not be empty")))
    else let start = length m.entries in
      (
        record m { entries = m.entries ++ new_entries now_ns start producer_id events },
        ok (start + length events - 1),
      )

-- Is the offset below the retention boundary?
unfoldable pub evicted : MemLog → ℕ → Option ℕ
evicted m from = elim m.earliest_retained [
  | none ↦ none
  | some earliest ↦ if ltb from earliest then some earliest else none
]

unfoldable pub to_index : Option ℕ → ℕ → ℕ
to_index none len = len
to_index (some to) len = min to len

-- The queries read the log and change nothing.
unfoldable pub read_range : ℕ → Option ℕ → MemLog → Result StorageError (List LogEntry)
read_range from to m =
    let len = length m.entries in
    elim (evicted m from) [
      | some earliest ↦ err (retention_expired from (earliest_available_offset earliest len))
      | none ↦
          if leb len from
          then ok []
          else let to_idx = to_index to len in
            if leb to_idx from then ok [] else ok (take (to_idx - from) (drop from m.entries))
    ]

unfoldable pub latest_offset : MemLog → Result StorageError (Option ℕ)
latest_offset m =
    let len = length m.entries in
    if is_empty m.entries then ok none else elim m.earliest_retained [
      | none ↦ ok (some (len - 1))
      | some earliest ↦ elim (earliest_available_offset earliest len) [
        | none ↦ ok none
        | some e ↦ ok (some (len - 1))
      ]
    ]

unfoldable pub earliest_offset : MemLog → Result StorageError (Option ℕ)
earliest_offset m = if is_empty m.entries then ok none else elim m.earliest_retained [
  | none ↦ ok (some 0)
  | some earliest ↦ ok (earliest_available_offset earliest (length m.entries))
]
