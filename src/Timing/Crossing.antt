-- ===== src/Timing/Crossing.antt =====
-- timing-core/src/domain: crossing.rs, processor_config.rs and crossing_processor.rs. A fresh random
-- crossing id is taken from a supply that the functions get as an argument.
pub mod Rssi
pub mod Peak
pub mod Grouping
use otk_core.Prelude.{
  ℕ, ◌+◌, ◌-◌, max, min, Bool, true, false, ◌||◌, Option, none, some, List, [], ◌∷◌, ◌++◌, map, ltb,
  leb, if◌then◌else◌,
}
use otk_core.Prelude.Int.{ℤ, leb_ℤ, i16_min}
use otk_core.Prelude.Map.{Key, Map, lookup, insert, remove}
use otk_core.Event.{
  CrossingId, TimingPointId, SubjectId, TimebaseId, DetectionId, TimestampingMethod,
  SourceAttestation, Detection, SensorData, loop_transponder,
}

pub record Crossing : Type 0 where
  pub crossing_id : CrossingId
  pub timing_point_id : TimingPointId
  pub subject_id : Option SubjectId
  pub crossed_at_ns : ℕ
  pub crossed_at_uncertainty_ns : Option ℕ
  pub timebase_id : TimebaseId
  pub timestamping_method : TimestampingMethod
  pub source_attestation : SourceAttestation
  pub detection_ids : List DetectionId

pub record ProcessorConfig : Type 0 where
  pub grouping_window_ns : ℕ

abbrev pub default_config : ProcessorConfig
default_config = record { grouping_window_ns = 2_000_000_000 }

-- A pending group always holds a detection: the first one to arrive, and the later ones in order.
pub record PendingGroup : Type 0 where
  pub first : Detection
  pub others : List Detection

abbrev pub detections : PendingGroup → List Detection
detections g = g.first ∷ g.others

-- `detections[0].detected_at_ns`
abbrev pub first_detected_at_ns : PendingGroup → ℕ
first_detected_at_ns g = g.first.detected_at_ns

-- The `rssi_dbm` of a loop transponder that reports one.
unfoldable pub rssi_of : SensorData → Option ℤ
rssi_of (loop_transponder rssi pulses) = rssi
rssi_of _ = none

abbrev is_some {ℓ} : {A : Type ℓ} → Option A → Bool
is_some none = false
is_some (some a) = true

abbrev any_rssi : List Detection → Bool
any_rssi [] = false
any_rssi (d ∷ ds) = is_some (rssi_of d.sensor) || any_rssi ds

unfoldable pub has_rssi : List Detection → Bool
has_rssi ds = any_rssi ds

-- The key of `max_by_key`: `i16::MIN` for a detection that has no RSSI.
unfoldable pub rssi_key : Detection → ℤ
rssi_key d = elim (rssi_of d.sensor) [ some rssi ↦ rssi | none ↦ i16_min ]

-- `max_by_key` keeps the last of the greatest, `min_by_key` the first of the least.
unfoldable pub max_by_rssi : Detection → List Detection → Detection
max_by_rssi best [] = best
max_by_rssi best (d ∷ ds) = max_by_rssi (if leb_ℤ (rssi_key best) (rssi_key d) then d else best) ds

unfoldable pub min_by_time : Detection → List Detection → Detection
min_by_time best [] = best
min_by_time best (d ∷ ds) =
    min_by_time (if ltb d.detected_at_ns best.detected_at_ns then d else best) ds

-- `detections[pick_peak_index(detections)]`
unfoldable pub pick_peak : PendingGroup → Detection
pick_peak g =
    if has_rssi (detections g) then max_by_rssi g.first g.others else min_by_time g.first g.others

-- `iter().map(|d| d.detected_at_ns).min()` and `max()`
unfoldable pub first_at : ℕ → List Detection → ℕ
first_at t [] = t
first_at t (d ∷ ds) = first_at (min t d.detected_at_ns) ds

unfoldable pub last_at : ℕ → List Detection → ℕ
last_at t [] = t
last_at t (d ∷ ds) = last_at (max t d.detected_at_ns) ds

-- The `match` on the peak's uncertainty and the span.
unfoldable pub widen : Option ℕ → ℕ → Option ℕ
widen (some u) s = if ltb 0 s then some (max u s) else some u
widen none s = if ltb 0 s then some s else none

unfoldable pub commit_group : CrossingId → PendingGroup → Crossing
commit_group id g =
    let start = first_detected_at_ns g in
    let span = last_at start g.others - first_at start g.others in
    let peak = pick_peak g in
    record {
      crossing_id = id;
      timing_point_id = g.first.timing_point_id;
      subject_id = g.first.subject_id;
      crossed_at_ns = peak.detected_at_ns;
      crossed_at_uncertainty_ns = widen peak.detected_at_uncertainty_ns span;
      timebase_id = peak.timebase_id;
      timestamping_method = peak.timestamping_method;
      source_attestation = peak.source_attestation;
      detection_ids = map (λ d. d.detection_id) (detections g);
    }

pub record CrossingProcessor : Type 0 where
  pub config : ProcessorConfig
  pub pending : Map PendingGroup

unfoldable pub new : ProcessorConfig → CrossingProcessor
new config = record { config = config; pending = [] }

-- `map(...).unwrap_or(false)`; subtraction on ℕ is `saturating_sub`.
unfoldable pub outside_window : CrossingProcessor → Detection → Option PendingGroup → Bool
outside_window p det none = false
outside_window p det (some g) =
    ltb p.config.grouping_window_ns (det.detected_at_ns - first_detected_at_ns g)

-- The same test as `commit_detection` writes it again.
unfoldable pub beyond_window : CrossingProcessor → Detection → Option PendingGroup → Bool
beyond_window p det none = false
beyond_window p det (some g) =
    ltb p.config.grouping_window_ns (det.detected_at_ns - first_detected_at_ns g)

abbrev pub alone : Detection → PendingGroup
alone det = record { first = det; others = [] }

-- The crossings of a detection that falls on a group, present or not.
unfoldable pub peek_group :
    CrossingId → CrossingProcessor → Detection → Option PendingGroup → List Crossing
peek_group id p det none = []
peek_group id p det (some g) = if outside_window p det (some g) then commit_group id g ∷ [] else []

unfoldable pub peek_detection : CrossingId → CrossingProcessor → Detection → List Crossing
unfolding peek_group
peek_detection id p det = elim det.subject_id [
  | none ↦ commit_group id (alone det) ∷ []
  | some subject ↦ peek_group id p det (lookup (det.timing_point_id, subject) p.pending)
]

-- `remove` of the old group where it is outside the window, then `entry(key).or_insert_with(…).push`.
unfoldable pub add_to_group :
    CrossingId
    → CrossingProcessor
    → Key
    → Detection
    → Option PendingGroup
    → CrossingProcessor × List Crossing
add_to_group id p key det none = (record p { pending = insert key (alone det) p.pending }, [])
add_to_group id p key det (some g) =
    if beyond_window p det (some g)
    then (
      record p { pending = insert key (alone det) (remove key p.pending) },
      commit_group id g ∷ [],
    )
    else (
      record p { pending = insert key (record g { others = g.others ++ det ∷ [] }) p.pending },
      [],
    )

unfoldable pub commit_detection :
    CrossingId → CrossingProcessor → Detection → CrossingProcessor × List Crossing
unfolding add_to_group
commit_detection id p det = elim det.subject_id [
  | none ↦ (p, commit_group id (alone det) ∷ [])
  | some subject ↦
      let key : Key = (det.timing_point_id, subject) in
      add_to_group id p key det (lookup key p.pending)
]

-- `drain`, in the order of the map, with an id for each crossing from the supply.
unfoldable pub flush_groups : (ℕ → CrossingId) → ℕ → Map PendingGroup → List Crossing
flush_groups ids n [] = []
flush_groups ids n ((key, g) ∷ rest) = commit_group (ids n) g ∷ flush_groups ids (n + 1) rest

unfoldable pub flush : (ℕ → CrossingId) → CrossingProcessor → CrossingProcessor × List Crossing
flush ids p = (record p { pending = [] }, flush_groups ids 0 p.pending)
