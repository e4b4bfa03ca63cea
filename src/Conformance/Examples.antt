-- ===== src/Conformance/Examples.antt =====
-- Tests of the services over the log in memory, and the theorems at concrete inputs.
use otk_core.Prelude.{
  ℕ, ◌+◌, ◌-◌, min, err, inl, length, ◌≡◌, refl, false, not, none, some, [], ◌∷◌, List, text, arith,
  ok, All,
}
use otk_core.Prelude.Int.{ℤ}
use otk_core.Prelude.Map.{lookup, insert}
use otk_core.Event.{
  Detection, OtkEvent, detection, adapter_receive_time, runtime_discovered, loop_transponder,
  beam_break,
}
use otk_core.Timing.Storage.{LogEntry, Contents, EventLog, retention_expired}
use otk_core.Timing.Gate.{
  SequenceGate, key_of, check, peek, persist, commit, seed_from_log, seed_entries, seed_event,
  decide,
}
use otk_core.Timing.Gate as Gate
use otk_core.Timing.Gate.HighWater.{reached, Represents, new-Represents}
use otk_core.Timing.Gate.Deliveries.{
  Delivery, check_all, check_all-Increasing, check_all_again, seed_from_log-peek, Explains,
  peek-Explains, Increasing,
}
use otk_core.Timing.Crossing.{
  CrossingProcessor, PendingGroup, default_config, detections, has_rssi, pick_peak, commit_group,
  peek_detection, commit_detection, add_to_group, outside_window, beyond_window,
}
use otk_core.Timing.Crossing as Grouping
use otk_core.Timing.Crossing.Peak.{IsPeak, pick_peak-IsPeak, Reaches, commit_group-Reaches}
use otk_core.Timing.Crossing.Grouping.{IsGrouped, commit_detection-IsGrouped, peek_detection_commit}
use otk_core.Timing.Service.{EventIngestService, append_event}
use otk_core.Timing.Service as Service
use otk_core.Timing.Service.Ingest.{KeptOnError, append_event-KeptOnError}
use otk_core.Timing.Service.Once.{
  Call, append_all, logged, append_all-Increasing, new-append_all-Increasing,
}
use otk_core.Conformance.{
  MemLog, append, new_entries, earliest_offset, read_range, evicted, to_index, evict_below,
  latest_offset,
}
use otk_core.Conformance as Conformance
use otk_core.Timing.Storage.Contract.{Numbered, Appended}
use otk_core.Conformance.View.{view, mem_log-expected}
use otk_core.Conformance.Offsets.{append-Numbered, read_range-Numbered, append-read_range}
use otk_core.Conformance.Contract.{held, mem_log, mem_log-IsEventLog, new-IsMem}

-- A detection of one rider at the start, by its number and its time.
abbrev pass : ℕ → ℕ → Detection
pass seq at = record {
  detection_id = text "d-1";
  detector_id = text "loop-1";
  timing_point_id = text "tp-start";
  subject_id = some (text "bib-42");
  detected_at_ns = at;
  detected_at_uncertainty_ns = none;
  received_at_ns = none;
  timestamping_method = adapter_receive_time;
  timebase_id = text "gps-1";
  source_attestation = runtime_discovered;
  sequence_number = seq;
  sensor = beam_break;
}

abbrev clock : ℕ → ℕ
clock n = n

abbrev log : EventLog
log = mem_log clock

abbrev log_contents : log.Log → Contents
log_contents s = held s.0

abbrev started : EventIngestService log
started = record {
  log = (Conformance.new, new-IsMem);
  processor = Grouping.new default_config;
  gate = Gate.new;
  metrics = [];
}

-- A second delivery of a number, then a gap.
abbrev deliveries : List Delivery
deliveries = (text "p", pass 1 10) ∷ (text "p", pass 1 10) ∷ (text "p", pass 5 20) ∷ []

deliveries_kept :
    (check_all Gate.new deliveries).1 ≡ (text "p", pass 1 10) ∷ (text "p", pass 5 20) ∷ []
unfolding check_all check peek decide commit persist Gate.new lookup insert
deliveries_kept = refl

check_all-Increasing_example : Increasing (check_all Gate.new deliveries).1
check_all-Increasing_example = check_all-Increasing Gate.new deliveries

check_all_again_example :
    let g = (check_all Gate.new deliveries).0 in
    All (λ x. (persist (check g x.0 x.1).1 ≡ false) × ((check g x.0 x.1).0 ≡ g)) deliveries
check_all_again_example = check_all_again Gate.new deliveries

abbrev filled : log.Log
filled = (log.append (text "p") (detection (pass 1 10) ∷ []) (Conformance.new, new-IsMem)).0

filled_seeds : (seed_from_log log Gate.new filled).2 ≡ ok 1
unfolding seed_from_log append new_entries earliest_offset read_range evicted to_index
    Conformance.new
filled_seeds = refl

seed_from_log-peek_example :
    persist (peek (seed_from_log log Gate.new filled).1 (text "p") (pass 1 10))
    ≡ not (reached (key_of (text "p") (pass 1 10)) 1 (log_contents filled))
seed_from_log-peek_example =
    seed_from_log-peek log log_contents (mem_log-IsEventLog clock) filled 1 (text "p") (pass 1 10)
      filled_seeds

abbrev seen : SequenceGate
seen = (check_all Gate.new deliveries).0

peek-Explains_example :
    Explains
      (lookup (key_of (text "p") (pass 9 30)) seen.high_water)
      9
      (peek seen (text "p") (pass 9 30))
peek-Explains_example = peek-Explains seen (text "p") (pass 9 30) (omega arith)

-- Two readings by a loop, the second one stronger.
abbrev readings : PendingGroup
readings = record {
  first = record (pass 1 10) { sensor = loop_transponder (some (ℤ.negsuc 69)) none };
  others = record (pass 2 25) { sensor = loop_transponder (some (ℤ.negsuc 49)) none } ∷ [];
}

pick_peak-IsPeak_example : IsPeak (pick_peak readings) (detections readings)
pick_peak-IsPeak_example = pick_peak-IsPeak readings (omega arith, (omega arith, tt))

commit_group-Reaches_example :
    let c = commit_group (text "x") readings in
    All
      (λ d. Reaches c.crossed_at_ns c.crossed_at_uncertainty_ns d.detected_at_ns)
      (detections readings)
commit_group-Reaches_example = commit_group-Reaches (text "x") readings

-- The two readings are pending.
abbrev busy : CrossingProcessor
busy = record {
  config = default_config;
  pending = ((text "tp-start", text "bib-42"), readings) ∷ [];
}

abbrev later : Detection
later = pass 3 9_000_000_000

later_flushes : (commit_detection (text "x") busy later).1 ≡ commit_group (text "x") readings ∷ []
unfolding commit_detection add_to_group beyond_window lookup
later_flushes = refl

peek_detection_commit_example :
    peek_detection (text "x") busy later ≡ (commit_detection (text "x") busy later).1
peek_detection_commit_example = peek_detection_commit (text "x") busy later

commit_detection-IsGrouped_example : IsGrouped (commit_detection (text "x") busy later).0
commit_detection-IsGrouped_example =
    commit_detection-IsGrouped (text "x") busy later
      (((refl, refl, omega arith), ((refl, refl, omega arith), tt)), tt)

-- The log refuses a producer with no name.
append_event-KeptOnError_example :
    KeptOnError started (append_event (text "x") (text "y") started [] (detection (pass 1 10)))
append_event-KeptOnError_example =
    append_event-KeptOnError (text "x") (text "y") started [] (detection (pass 1 10))

abbrev call : ℕ → Call
call seq = record {
  id = text "x";
  discarded = text "y";
  producer_id = text "p";
  event = detection (pass seq (10 + seq));
}

append_all-Increasing_example :
    let s' = append_all started (call 1 ∷ call 1 ∷ call 2 ∷ []) in
    Represents s'.gate (log_contents s'.log) × Increasing (logged (log_contents s'.log))
unfolding Conformance.new
append_all-Increasing_example =
    append_all-Increasing log log_contents (mem_log-IsEventLog clock) started
      (call 1 ∷ call 1 ∷ call 2 ∷ []) new-Represents (unfold logged in tt)

-- A log that holds one entry, and a batch of two.
abbrev one : MemLog
one = (append clock (text "p") (detection (pass 1 10) ∷ []) Conformance.new).0

abbrev batch : List OtkEvent
batch = detection (pass 2 20) ∷ detection (pass 3 30) ∷ []

abbrev three : MemLog
three = (append clock (text "p") batch one).0

three-Numbered : Numbered 0 three.entries
unfolding Conformance.new
three-Numbered =
    append-Numbered clock (text "p") batch one
      (append-Numbered clock (text "p") (detection (pass 1 10) ∷ []) Conformance.new tt)

abbrev last_two : List LogEntry
last_two = new_entries clock 1 (text "p") batch

read_two : read_range 1 (some 9) three ≡ ok last_two
unfolding read_range evicted to_index append new_entries Conformance.new
read_two = refl

read_range-Numbered_example :
    Numbered 1 last_two × (length last_two ≡ min 9 (length three.entries) - 1)
read_range-Numbered_example = read_range-Numbered 1 (some 9) three last_two three-Numbered read_two

-- The first two of three entries are evicted.
abbrev kept : MemLog
kept = evict_below 2 three

mem_log-expected_example :
    Appended
      (view kept)
      (text "p")
      batch
      (view (append clock (text "p") batch kept).0)
      (append clock (text "p") batch kept).1
    × (read_range 1 (some 9) kept ≡ err (retention_expired 1 (some 2)))
    × (latest_offset kept ≡ ok (some 2))
    × (earliest_offset kept ≡ ok (some 2))
unfolding append new_entries Conformance.new evict_below
mem_log-expected_example =
    mem_log-expected clock (text "p") batch 1 (some 9) kept (omega arith) (inl (omega arith))

append-read_range_example :
    (read_range
        (length (MemLog.entries Conformance.new))
        none
        (append clock (text "p") batch Conformance.new).0
      ≡ ok (new_entries clock (length (MemLog.entries Conformance.new)) (text "p") batch))
    × (1 + 1 ≡ length (append clock (text "p") batch Conformance.new).0.entries)
append-read_range_example =
    append-read_range clock (text "p") batch Conformance.new 1 new-IsMem
      (unfold append new_entries Conformance.new in refl)

-- A restart on the log of one entry, then a retry of what it holds and a new detection.
new-append_all-Increasing_example :
    let (log1, gate, result) = seed_from_log log Gate.new filled in
    Increasing (
      logged (
        log_contents
          (append_all (Service.new log log1 default_config gate) (call 1 ∷ call 2 ∷ [])).log))
new-append_all-Increasing_example =
    new-append_all-Increasing log log_contents (mem_log-IsEventLog clock) filled default_config
      (call 1 ∷ call 2 ∷ []) 1 filled_seeds
      (unfold logged append new_entries Conformance.new in (tt, tt))
