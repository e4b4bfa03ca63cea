-- ===== src/Segment/Examples.antt =====
-- adapter-event-log-segment/src: tests over a codec of health events, and the theorems at concrete inputs.
use otk_core.Prelude.{
  ℕ, zero, ◌+◌, ◌%◌, ◌^◌, ◌≡◌, ◌≤◌, refl, Option, none, some, List, [], ◌∷◌, ◌++◌, Bytes, Text,
  text, Result, ok, err, arith, take, from_le, to_le, ◌⊎◌, inl, ◌==◌, if◌then◌else◌, false,
}
use mathlib.Core.List.{flatten}
use otk_core.Event.{OtkEvent, detector_health, DetectorHealthStatus, healthy}
use otk_core.Protocol.{RoundTrips}
use otk_core.Timing.Storage.{LogEntry, StorageError, not_found, other, size_based}
use otk_core.Segment.{Externals, IsExternals}
use otk_core.Segment.Record.{
  header_bytes, read_header, frame, check_record, encode_record, read_record,
}
use otk_core.Segment.Record.RoundTrip.{IsEntry, read_record-encode_record, read_header-header_bytes}
use otk_core.Segment.Frames.{Frame, content, Framed}
use otk_core.Segment.Recover.{Recovered, recover_loop, recover_active}
use otk_core.Segment.Recover.Fuel.{recover_loop_fuel}
use otk_core.Segment.Recover.Cut.{recover_active-cut}
use otk_core.Segment.Index.{index_bytes, read_index, read_index-index_bytes}
use otk_core.Segment.Log.{World, SegmentLog, SegmentLogConfig, ClosedSegment, ActiveSegment, Ends}
use otk_core.Segment.Log.Valid.{IsLog}
use otk_core.Segment.Log.Read.{read_range, earliest_offset_raw, latest_offset_raw}
use otk_core.Segment.Log.ReadRange.{read_range-IsLog}
use otk_core.Segment.Log.Offsets.{offsets-IsLog}
use otk_core.Segment.Log.Append.{append}
use otk_core.Segment.Log.Names.{seg_bases, sort_bases, base_of_stem, strip_seg, base_name}
use otk_core.Segment.Log.Open.{open_log}
use otk_core.Segment.Log.Crash.{open_log-IsLog}
use otk_core.Segment.Log.AppendLog.{Extended, append-Extended}
use otk_core.Segment.Log.Calm.{Encodes}
use otk_core.Segment.Log.AppendCalm.{append_calm}

-- A codec of the event that a detector was healthy at time zero: the detector's name.
abbrev health : Text → OtkEvent
health id =
    detector_health
      (record { detector_id = id; reported_at_ns = 0; status = healthy; message = none })

abbrev health_to_vec : Text → ℕ → DetectorHealthStatus → Option Text → Result Text Bytes
health_to_vec id zero healthy none = ok id
health_to_vec id at status message = err []

abbrev event_to_vec : OtkEvent → Result Text Bytes
event_to_vec (detector_health h) = health_to_vec h.detector_id h.reported_at_ns h.status h.message
event_to_vec _ = err []

abbrev externals : Externals
externals = record {
  event = record { to_vec = event_to_vec; decode = λ bs. ok (health bs) };
  crc32 = λ bs. from_le bs % 2 ^ 32;
  from_utf8 = ok;
  early_eof = text "early eof";
}

externals_trips : RoundTrips externals.event
externals_trips e bs h = ground arith

externals-IsExternals : IsExternals externals
externals-IsExternals = record { trips = externals_trips; crc32_fits = λ bs. omega arith }

abbrev entry : ℕ → LogEntry
entry n = record {
  offset = n;
  appended_at_ns = 1000;
  producer_id = text "p";
  event = health (text "d");
}

-- The bytes of its record, for an offset below 256.
abbrev record_bytes : ℕ → Bytes
record_bytes n =
    24 ∷ 0 ∷ 0 ∷ 0 ∷ n ∷ 0 ∷ 0 ∷ 0 ∷ 0 ∷ 0 ∷ 0 ∷ 0 ∷ 232 ∷ 3 ∷ 0 ∷ 0 ∷ 0 ∷ 0 ∷ 0 ∷ 0 ∷ 1 ∷ 0 ∷ 112
    ∷ 1 ∷ 0 ∷ 0 ∷ 0 ∷ 100 ∷ n ∷ 0 ∷ 0 ∷ 0 ∷ []

entry_5 : encode_record externals (entry 5) ≡ ok (record_bytes 5)
unfolding encode_record check_record frame to_le from_le
entry_5 = refl

entry_6 : encode_record externals (entry 6) ≡ ok (record_bytes 6)
unfolding encode_record check_record frame to_le from_le
entry_6 = refl

entry-IsEntry : (n : ℕ) → n ≤ 255 → IsEntry externals (entry n)
entry-IsEntry n h = record {
  offset_fits = omega arith;
  appended_fits = omega arith;
  is_utf8 = refl;
}

read_record-encode_record_example :
    read_record externals ((1 ∷ 2 ∷ []) ++ (record_bytes 5 ++ 0 ∷ [])) 2 ≡ ok (entry 5)
read_record-encode_record_example =
    read_record-encode_record externals externals-IsExternals (entry 5) (record_bytes 5)
      (1 ∷ 2 ∷ []) (0 ∷ []) (entry-IsEntry 5 (omega arith)) entry_5

-- A segment with the base 5 and two records, cut within the second.
abbrev header : Bytes
header =
    79 ∷ 84 ∷ 75 ∷ 83 ∷ 2 ∷ 0 ∷ 0 ∷ 0 ∷ 5 ∷ 0 ∷ 0 ∷ 0 ∷ 0 ∷ 0 ∷ 0 ∷ 0 ∷ 232 ∷ 3 ∷ 0 ∷ 0 ∷ 0 ∷ 0 ∷ 0
    ∷ 0 ∷ []

header_5 : header_bytes (record { base_offset = 5; created_at_ns = 1000 }) ≡ header
unfolding header_bytes to_le
header_5 = refl

abbrev frames : List Frame
frames = (entry 5, record_bytes 5) ∷ (entry 6, record_bytes 6) ∷ []

frames-Framed : Framed externals 5 frames
frames-Framed = (
  entry_5,
  entry-IsEntry 5 (omega arith),
  refl,
  omega arith,
  (entry_6, entry-IsEntry 6 (omega arith), refl, omega arith, tt),
)

abbrev torn : Bytes
torn = header ++ take 50 (content frames)

recover_loop_fuel_example :
    (r : Result StorageError Recovered) × (recover_loop externals 75 torn 5 24 [] ≡ some r)
    × (recover_loop externals 1000 torn 5 24 [] ≡ some r)
recover_loop_fuel_example =
    recover_loop_fuel externals torn 5 75 1000 24 [] (omega arith) (omega arith)

recover_active-cut_example :
    recover_active externals torn 5
    ≡ ok (record { file = header ++ record_bytes 5; positions = 24 ∷ []; next_pos = 56 })
recover_active-cut_example =
    recover_active-cut externals externals-IsExternals 5 header frames 50 refl (omega arith)
      frames-Framed (omega arith)

read_header-header_bytes_example :
    read_header externals
      (λ bs. bs)
      (header_bytes (record { base_offset = 5; created_at_ns = 1000 }) ++ 1 ∷ [])
    ≡ ok (record { base_offset = 5; created_at_ns = 1000 })
read_header-header_bytes_example =
    read_header-header_bytes externals (λ bs. bs) (record { base_offset = 5; created_at_ns = 1000 })
      (1 ∷ []) (omega arith) (omega arith)

read_index-index_bytes_example :
    read_index (text "5.idx") (index_bytes (24 ∷ 56 ∷ [])) ≡ ok (24 ∷ 56 ∷ [])
read_index-index_bytes_example =
    read_index-index_bytes (text "5.idx") (24 ∷ 56 ∷ []) (omega arith) (omega arith)

-- A world where no call fails, and one where the fifth does.
abbrev calm_world : World
calm_world = record {
  externals = externals;
  fault = λ n. none;
  now_ns = λ n. 1000;
  missing = record { kind = not_found; message = text "no such file"; written = 0 };
}

abbrev faulty_world : World
faulty_world = record calm_world {
  fault = λ n. if n == 5 then some (record { kind = other; message = []; written = 3 }) else none;
}

abbrev config : SegmentLogConfig
config = record {
  max_segment_bytes = 64;
  max_segment_age_secs = 3600;
  flush_interval_ms = 0;
  retention = size_based 100;
}

-- A log with a closed segment of one record, and one record in the active segment.
abbrev files : ℕ → Option Bytes
files n =
    if n == 5
    then some (header ++ (record_bytes 5 ++ 0 ∷ 0 ∷ 0 ∷ 0 ∷ []))
    else if n == 6
    then some (header ++ record_bytes 6)
    else none

abbrev closed_5 : ClosedSegment
closed_5 = record {
  base_offset = 5;
  last_offset = 5;
  last_appended_at_ns = 1000;
  byte_size = 60;
  positions = 24 ∷ [];
}

abbrev active_6 : ActiveSegment
active_6 = record {
  base_offset = 6;
  positions = 24 ∷ [];
  byte_size = 32;
  created_at_ns = 1000;
  next_file_pos = 56;
  last_appended_at_ns = 1000;
}

abbrev two : SegmentLog
two = record {
  closed = closed_5 ∷ [];
  active = some active_6;
  next_offset = 7;
  poisoned = false;
  cursor = 56;
  segs = files;
  idxs = λ n. none;
  watermark = none;
  calls = 0;
}

abbrev frame_5 : List Frame
frame_5 = (entry 5, record_bytes 5) ∷ []

abbrev frame_6 : List Frame
frame_6 = (entry 6, record_bytes 6) ∷ []

two-IsLog : IsLog externals 5 (frame_5 ∷ []) frame_6 two
two-IsLog = record {
  mid = 6;
  closed_run = (
    refl,
    omega arith,
    refl,
    (
      56,
      (
        header ++ (record_bytes 5 ++ 0 ∷ 0 ∷ 0 ∷ 0 ∷ []),
        refl,
        omega arith,
        (entry_5, entry-IsEntry 5 (omega arith), refl, omega arith, (header, refl, refl), tt),
      ),
    ),
    refl,
  );
  active_run = (
    refl,
    refl,
    (
      header ++ record_bytes 6,
      refl,
      omega arith,
      (entry_6, entry-IsEntry 6 (omega arith), refl, omega arith, (header, refl, refl), tt),
    ),
  );
  fits = omega arith;
}

read_range-IsLog_example :
    ((read_range calm_world 5 (some 6) two).0.segs ≡ files)
    × ((read_range calm_world 5 (some 6) two).1 ≡ ok (entry 5 ∷ []))
unfolding flatten
read_range-IsLog_example =
    read_range-IsLog calm_world (λ n. refl) externals-IsExternals two 5 (some 6) 5 (frame_5 ∷ [])
      frame_6 two-IsLog (inl (omega arith)) (inl (omega arith))

offsets-IsLog_example : (earliest_offset_raw two ≡ some 5) × (latest_offset_raw two ≡ some 6)
offsets-IsLog_example =
    offsets-IsLog externals two 5 (frame_5 ∷ []) frame_6 two-IsLog (inl (omega arith))

abbrev batch : List OtkEvent
batch = health (text "d") ∷ []

append-Extended_example :
    Ends
      (λ o s'.
        Extended externals (size_based 100) 5 (entry 5 ∷ entry 6 ∷ []) (text "p") batch s'
        × (o + 1 ≡ s'.next_offset))
      (λ s'.
        IsLog externals 5 (frame_5 ∷ []) frame_6 s'
        ⊎ Extended externals (size_based 100) 5 (entry 5 ∷ entry 6 ∷ []) (text "p") batch s')
      (append faulty_world config (text "p") batch two)
unfolding flatten
append-Extended_example =
    append-Extended faulty_world config 5 (frame_5 ∷ []) frame_6 (text "p") batch two
      (λ n. omega arith) refl two-IsLog

batch-Encodes : Encodes calm_world (text "p") (health (text "d"))
unfolding encode_record check_record
batch-Encodes offset at = (_, refl)

append_calm_example :
    (o : ℕ) × ((append calm_world config (text "p") batch two).1 ≡ ok o)
    × Extended externals
        (size_based 100)
        5
        (entry 5 ∷ entry 6 ∷ [])
        (text "p")
        batch
        (append calm_world config (text "p") batch two).0
    × (o + 1 ≡ 8)
unfolding flatten
append_calm_example =
    append_calm calm_world (λ n. refl) config 5 (frame_5 ∷ []) frame_6 (text "p") batch two
      (λ n. omega arith) refl (batch-Encodes, tt) two-IsLog refl (omega arith) (omega arith)
      (omega arith)

entry_7 : encode_record externals (entry 7) ≡ ok (record_bytes 7)
unfolding encode_record check_record frame to_le from_le
entry_7 = refl

-- A directory after a crash: a closed segment with its index, and an active one that was cut within
-- its second record.
abbrev frames_6 : List Frame
frames_6 = (entry 6, record_bytes 6) ∷ (entry 7, record_bytes 7) ∷ []

abbrev header_at : ℕ → Bytes
header_at n = header_bytes (record { base_offset = n; created_at_ns = 1000 })

abbrev cut_files : ℕ → Option Bytes
cut_files n =
    if n == 5
    then some (header_at 5 ++ (content frame_5 ++ 0 ∷ 0 ∷ 0 ∷ 0 ∷ []))
    else if n == 6
    then some (header_at 6 ++ take 40 (content frames_6))
    else none

abbrev directory : SegmentLog
directory = record {
  closed = [];
  active = none;
  next_offset = 0;
  poisoned = false;
  cursor = 0;
  segs = cut_files;
  idxs = λ n. if n == 5 then some (index_bytes (24 ∷ [])) else none;
  watermark = none;
  calls = 0;
}

abbrev names : List Text
names =
    text "00000000000000000006.seg"
    ∷ text "00000000000000000005.idx"
    ∷ text "00000000000000000005.seg"
    ∷ text "7.seg"
    ∷ []

names_listed : sort_bases (seg_bases names) ≡ 5 ∷ 6 ∷ []
unfolding sort_bases seg_bases base_of_stem strip_seg base_name
names_listed = refl

open_log-IsLog_example :
    Ends
      (λ u s'. IsLog externals 5 (frame_5 ∷ []) frame_6 s')
      (λ s'. ⊥)
      (open_log calm_world (λ bs. bs) (λ n. []) names directory)
open_log-IsLog_example =
    open_log-IsLog calm_world (λ n. refl) (λ bs. bs) (λ n. []) externals-IsExternals names 5 6 1000
      40 (frame_5 ∷ []) frames_6 directory names_listed
      (
        omega arith,
        (
          header_at 5 ++ (content frame_5 ++ 0 ∷ 0 ∷ 0 ∷ 0 ∷ []),
          0 ∷ 0 ∷ 0 ∷ 0 ∷ [],
          refl,
          (1000, omega arith, refl),
        ),
        refl,
        omega arith,
        omega arith,
        (entry_5, entry-IsEntry 5 (omega arith), refl, omega arith, tt),
        refl,
      )
      refl refl (omega arith)
      (
        entry_6,
        entry-IsEntry 6 (omega arith),
        refl,
        omega arith,
        (entry_7, entry-IsEntry 7 (omega arith), refl, omega arith, tt),
      )
      (omega arith) (omega arith) refl refl
