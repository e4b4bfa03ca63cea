-- ===== src/Event.antt =====
-- event-model/src: the canonical event types and identifiers. The `string_id!` newtypes are their
-- text; unsigned integers are numbers, with their ranges stated where a theorem needs them.
use otk_core.Prelude.{ℕ, Option, List, Text}
use otk_core.Prelude.Int.{ℤ}

-- event-model/src/ids.rs
abbrev pub DetectorId : Type 0
DetectorId = Text

abbrev pub TimingPointId : Type 0
TimingPointId = Text

abbrev pub SubjectId : Type 0
SubjectId = Text

abbrev pub TimebaseId : Type 0
TimebaseId = Text

abbrev pub DetectionId : Type 0
DetectionId = Text

abbrev pub CrossingId : Type 0
CrossingId = Text

abbrev pub StreamId : Type 0
StreamId = Text

abbrev pub OperatorId : Type 0
OperatorId = Text

-- event-model/src/timestamp.rs
pub data TimestampingMethod : Type 0 where
  hardware_event_capture : TimestampingMethod
  firmware_timer_read : TimestampingMethod
  adapter_receive_time : TimestampingMethod
  manual_entry : TimestampingMethod
  replay_recorded : TimestampingMethod

pub data SourceAttestation : Type 0 where
  runtime_discovered : SourceAttestation
  operator_asserted : SourceAttestation

pub data SyncState : Type 0 where
  locked : SyncState
  holdover : SyncState
  free_run : SyncState
  unsynchronized : SyncState
  unknown : SyncState

-- event-model/src/detection.rs
pub data SensorData : Type 0 where
  loop_transponder : Option ℤ → Option ℕ → SensorData
  beam_break : SensorData
  manual : Option OperatorId → SensorData

pub record Detection : Type 0 where
  pub detection_id : DetectionId
  pub detector_id : DetectorId
  pub timing_point_id : TimingPointId
  pub subject_id : Option SubjectId
  pub detected_at_ns : ℕ
  pub detected_at_uncertainty_ns : Option ℕ
  pub received_at_ns : Option ℕ
  pub timestamping_method : TimestampingMethod
  pub timebase_id : TimebaseId
  pub source_attestation : SourceAttestation
  pub sequence_number : ℕ
  pub sensor : SensorData

-- event-model/src/crossing.rs
pub record CrossingEvent : Type 0 where
  pub crossing_id : CrossingId
  pub timing_point_id : TimingPointId
  pub subject_id : Option SubjectId
  pub crossed_at_ns : ℕ
  pub crossed_at_uncertainty_ns : Option ℕ
  pub timebase_id : TimebaseId
  pub timestamping_method : TimestampingMethod
  pub source_attestation : SourceAttestation
  pub detection_ids : List DetectionId

-- event-model/src/stream.rs
pub data StreamKind : Type 0 where
  raw : StreamKind
  detections : StreamKind
  processed : StreamKind

pub record StreamDescriptor : Type 0 where
  pub stream_id : StreamId
  pub kind : StreamKind
  pub detector_id : Option DetectorId
  pub timing_point_id : Option TimingPointId

-- event-model/src/health.rs
pub data DetectorHealthStatus : Type 0 where
  healthy : DetectorHealthStatus
  degraded : Text → DetectorHealthStatus
  failed : Text → DetectorHealthStatus

pub record DetectorHealthEvent : Type 0 where
  pub detector_id : DetectorId
  pub reported_at_ns : ℕ
  pub status : DetectorHealthStatus
  pub message : Option Text

pub record TimebaseStatusEvent : Type 0 where
  pub timebase_id : TimebaseId
  pub reported_at_ns : ℕ
  pub sync_state : SyncState
  pub uncertainty_ns : Option ℕ
  pub source_attestation : SourceAttestation

-- event-model/src/metadata.rs
pub record AdapterCapabilities : Type 0 where
  pub streams : List StreamDescriptor
  pub timestamping_method : TimestampingMethod
  pub declared_resolution_ns : Option ℕ

pub record AdapterMetadataEvent : Type 0 where
  pub detector_id : DetectorId
  pub timing_point_id : TimingPointId
  pub timebase_id : TimebaseId
  pub source_attestation : SourceAttestation
  pub declared_at_ns : ℕ
  pub capabilities : AdapterCapabilities

-- event-model/src/lib.rs
pub data OtkEvent : Type 0 where
  detection : Detection → OtkEvent
  detector_health : DetectorHealthEvent → OtkEvent
  timebase_status : TimebaseStatusEvent → OtkEvent
  adapter_metadata : AdapterMetadataEvent → OtkEvent
  crossing : CrossingEvent → OtkEvent
