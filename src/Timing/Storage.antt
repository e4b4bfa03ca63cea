-- ===== src/Timing/Storage.antt =====
-- timing-core/src/ports/outbound/event_log.rs: what the core asks of an event log.
pub mod Select
pub mod Contract
use otk_core.Prelude.{
  ℕ, zero, suc, ◌/◌, ◌%◌, text, ◌≡◌, Option, none, some, List, [], ◌∷◌, ◌++◌, map, Text, Result, ok,
  err, u64_max, ◌+◌, ltb, if◌then◌else◌,
}
use otk_core.Event.{OtkEvent}

-- `Offset::checked_next`
unfoldable pub checked_next : ℕ → Option ℕ
checked_next offset = if ltb offset u64_max then some (offset + 1) else none

pub record LogEntry : Type 0 where
  pub offset : ℕ
  pub appended_at_ns : ℕ
  pub producer_id : Text
  pub event : OtkEvent

pub data RetentionPolicy : Type 0 where
  indefinite : RetentionPolicy
  time_based : ℕ → RetentionPolicy
  size_based : ℕ → RetentionPolicy
  hybrid : ℕ → ℕ → RetentionPolicy

-- The kinds of `io::Error` that the code tells apart.
pub data ErrorKind : Type 0 where
  unexpected_eof : ErrorKind
  not_found : ErrorKind
  other : ErrorKind

-- An `io::Error` is its kind and its text.
pub data StorageError : Type 0 where
  retention_expired : ℕ → Option ℕ → StorageError
  invalid_input : Text → StorageError
  io : ErrorKind → Text → StorageError
  corrupted : Text → StorageError
  configuration : Text → StorageError

-- A u64 in decimal: at most 20 digits, on that fuel.
unfoldable pub decimal : ℕ → ℕ → Text
decimal zero n = []
decimal (suc k) n =
    let front = decimal k (n / 10) in
    if ltb n 10 then (b'0' + n) ∷ [] else front ++ (b'0' + n % 10) ∷ []

-- The `Display` of an error.
unfoldable pub to_string : StorageError → Text
to_string (retention_expired requested (some ea)) =
    text "offset "
    ++ (decimal 20 requested ++ (text " is before earliest retained offset " ++ decimal 20 ea))
to_string (retention_expired requested none) =
    text "offset " ++ (decimal 20 requested ++ text " is not available: no retained events remain")
to_string (invalid_input msg) = text "invalid input: " ++ msg
to_string (io kind e) = text "I/O error: " ++ e
to_string (corrupted msg) = text "log corruption: " ++ msg
to_string (configuration msg) = text "configuration error: " ++ msg

-- The trait `EventLog`, less `subscribe`: each method takes the backend's state and returns the new one.
pub record EventLog : Type 1 where
  pub Log : Type 0
  pub append : Text → List OtkEvent → Log → Log × Result StorageError ℕ
  pub read_range : ℕ → Option ℕ → Log → Log × Result StorageError (List LogEntry)
  pub latest_offset : Log → Log × Result StorageError (Option ℕ)
  pub earliest_offset : Log → Log × Result StorageError (Option ℕ)

-- What a log holds, as pairs of producer and event.
abbrev pub Contents : Type 0
Contents = List (Text × OtkEvent)

abbrev pub stamp : Text → List OtkEvent → Contents
stamp producer events = map (λ e. (producer, e)) events

abbrev pub contents_of : List LogEntry → Contents
contents_of = map (λ e. (e.producer_id, e.event))

-- What the gate and the ingest service rely on of a log, a part of its contract: an append adds the whole
-- batch in order or, on an error, nothing; a read from the earliest offset returns all that is
-- retained; the queries change nothing. Contract has the offsets, the ranges and the retention.
pub record IsEventLog (l : EventLog) (contents : l.Log → Contents) : Type 0 where
  pub append_ok :
      (p : Text) (es : List OtkEvent) (s : l.Log) (o : ℕ)
      → (l.append p es s).1 ≡ ok o
      → contents (l.append p es s).0 ≡ contents s ++ stamp p es
  pub append_err :
      (p : Text) (es : List OtkEvent) (s : l.Log) (e : StorageError)
      → (l.append p es s).1 ≡ err e
      → contents (l.append p es s).0 ≡ contents s
  pub earliest_none : (s : l.Log) → (l.earliest_offset s).1 ≡ ok none → contents s ≡ []
  pub earliest_keeps : (s : l.Log) → contents (l.earliest_offset s).0 ≡ contents s
  pub read_keeps :
      (from : ℕ) (to : Option ℕ) (s : l.Log) → contents (l.read_range from to s).0 ≡ contents s
  pub read_all :
      (s : l.Log) (o : ℕ) (es : List LogEntry)
      → (l.earliest_offset s).1 ≡ ok (some o)
      → (l.read_range o none (l.earliest_offset s).0).1 ≡ ok es
      → contents_of es ≡ contents s
