-- ===== src/Timing/Service.antt =====
-- timing-core/src/services/event_ingest.rs: the service that takes the producers' events to the log.
-- The fresh random crossing ids of a call are its first arguments: the one that the peek draws, which
-- is persisted, and the one that the commit draws, which is discarded.
pub mod Ingest
pub mod Once
use otk_core.Prelude.{
  ℕ, ◌+◌, Bool, true, false, Option, none, some, List, [], ◌∷◌, ◌++◌, map, Text, text, Result, ok,
  err, min, u64_max,
}
use otk_core.Event.{
  CrossingId, DetectorId, CrossingEvent, OtkEvent, detection, detector_health, timebase_status,
  adapter_metadata, crossing,
}
use otk_core.Timing.Storage.{StorageError, EventLog, LogEntry, to_string}
use otk_core.Timing.Gate.{GateDecision, accept, advance, gap, duplicate, SequenceGate, peek}
use otk_core.Timing.Gate as Gate
use otk_core.Timing.Crossing.{
  Crossing, CrossingProcessor, ProcessorConfig, peek_detection, commit_detection,
}
use otk_core.Timing.Crossing as Grouping

pub data AppendOutcome : Type 0 where
  appended : ℕ → AppendOutcome
  dropped_duplicate : AppendOutcome

-- The calls of the `IngestMetrics` sink.
pub data MetricCall : Type 0 where
  record_duplicate_dropped : Text → DetectorId → MetricCall
  record_sequence_gap : Text → DetectorId → MetricCall
  record_event_appended : Text → Text → MetricCall

-- The service, with the calls made to its sink so far.
pub record EventIngestService (l : EventLog) : Type 0 where
  pub log : l.Log
  pub processor : CrossingProcessor
  pub gate : SequenceGate
  pub metrics : List MetricCall

unfoldable pub new : (l : EventLog) → l.Log → ProcessorConfig → SequenceGate → EventIngestService l
new l log config gate = record {
  log = log;
  processor = Grouping.new config;
  gate = gate;
  metrics = [];
}

unfoldable pub event_kind_label : OtkEvent → Text
event_kind_label (detection d) = text "Detection"
event_kind_label (detector_health h) = text "DetectorHealth"
event_kind_label (timebase_status t) = text "TimebaseStatus"
event_kind_label (adapter_metadata m) = text "AdapterMetadata"
event_kind_label (crossing c) = text "Crossing"

unfoldable pub map_crossing : Crossing → CrossingEvent
map_crossing c = record {
  crossing_id = c.crossing_id;
  timing_point_id = c.timing_point_id;
  subject_id = c.subject_id;
  crossed_at_ns = c.crossed_at_ns;
  crossed_at_uncertainty_ns = c.crossed_at_uncertainty_ns;
  timebase_id = c.timebase_id;
  timestamping_method = c.timestamping_method;
  source_attestation = c.source_attestation;
  detection_ids = c.detection_ids;
}

-- Phase 1: a duplicate's mark and number, or the pending gap of what goes on.
pub data Admission : Type 0 where
  drop : DetectorId → Admission
  proceed : Option (ℕ × ℕ) → Admission

unfoldable pub admission : DetectorId → GateDecision → Admission
admission d accept = proceed none
admission d (advance hw) = proceed none
admission d (gap expected got) = proceed (some (expected, got))
admission d (duplicate hw got) = drop d

unfoldable pub admit : SequenceGate → Text → OtkEvent → Admission
unfolding admission
admit gate producer_id (detection det) = admission det.detector_id (peek gate producer_id det)
admit gate producer_id _ = proceed none

-- Phase 2: the derived crossings, which follow the event in the batch.
unfoldable pub derive : CrossingId → CrossingProcessor → OtkEvent → List OtkEvent
derive id p (detection det) = map (λ c. crossing (map_crossing c)) (peek_detection id p det)
derive id p _ = []

-- The call for each crossing of the batch.
unfoldable pub crossing_metrics : List OtkEvent → List MetricCall
crossing_metrics [] = []
crossing_metrics (crossing c ∷ es) =
    record_event_appended (text "<timing-core>") (text "Crossing") ∷ crossing_metrics es
crossing_metrics (_ ∷ es) = crossing_metrics es

abbrev pub gap_metrics : Text → DetectorId → Option (ℕ × ℕ) → List MetricCall
gap_metrics producer_id detector_id none = []
gap_metrics producer_id detector_id (some g) = record_sequence_gap producer_id detector_id ∷ []

module _ {l : EventLog} where
  -- Phase 3, its part for a detection.
  unfoldable pub commit_event :
      CrossingId → Text → OtkEvent → Option (ℕ × ℕ) → EventIngestService l → EventIngestService l
  commit_event id producer_id (detection det) pending_gap s = record s {
    gate = Gate.commit s.gate producer_id det;
    processor = (commit_detection id s.processor det).0;
    metrics = s.metrics ++ gap_metrics producer_id det.detector_id pending_gap;
  }
  commit_event id producer_id _ pending_gap s = s

  -- Phases 2 and 3.
  unfoldable pub persist_event :
      CrossingId
      → CrossingId
      → Text
      → OtkEvent
      → Option (ℕ × ℕ)
      → EventIngestService l
      → EventIngestService l × Result StorageError AppendOutcome
  persist_event id discarded producer_id event pending_gap s =
      let crossings = derive id s.processor event in
      let (log, result) = l.append producer_id (event ∷ crossings) s.log in
      elim result [
        | err e ↦ (record s { log = log }, err e)
        | ok offset ↦
            let committed =
              commit_event discarded producer_id event pending_gap (record s { log = log }) in
            let calls =
              record_event_appended producer_id (event_kind_label event)
              ∷ crossing_metrics crossings in
            (record committed { metrics = committed.metrics ++ calls }, ok (appended offset))
      ]

  unfoldable pub append_event :
      CrossingId
      → CrossingId
      → EventIngestService l
      → Text
      → OtkEvent
      → EventIngestService l × Result StorageError AppendOutcome
  append_event id discarded s producer_id event = elim (admit s.gate producer_id event) [
    | drop detector ↦ (
      record s { metrics = s.metrics ++ record_duplicate_dropped producer_id detector ∷ [] },
      ok dropped_duplicate,
    )
    | proceed pending_gap ↦ persist_event id discarded producer_id event pending_gap s
  ]

-- The query port.
pub data QueryError : Type 0 where
  retention_expired : ℕ → Option ℕ → QueryError
  not_found : QueryError
  internal : Text → QueryError

pub record EventEntry : Type 0 where
  pub offset : ℕ
  pub event : OtkEvent

pub record EventPage : Type 0 where
  pub entries : List EventEntry
  pub latest_offset : Option ℕ

unfoldable pub map_storage_err : StorageError → QueryError
map_storage_err (StorageError.retention_expired requested earliest) =
    retention_expired requested earliest
map_storage_err e = internal (to_string e)

module _ {l : EventLog} where
  -- `saturating_add` on u64.
  unfoldable pub read_events :
      EventIngestService l → ℕ → ℕ → EventIngestService l × Result QueryError EventPage
  read_events s from limit =
      let (log1, latest) = l.latest_offset s.log in
      elim latest [
        | err e ↦ (record s { log = log1 }, err (map_storage_err e))
        | ok latest_offset ↦
            let to = min (from + limit) u64_max in
            let (log2, read) = l.read_range from (some to) log1 in
            elim read [
              | err e ↦ (record s { log = log2 }, err (map_storage_err e))
              | ok found ↦
                  let page : EventPage = record {
                    entries = map (λ e. record { offset = e.offset; event = e.event }) found;
                    latest_offset = latest_offset;
                  } in
                  (record s { log = log2 }, ok page)
            ]
      ]
