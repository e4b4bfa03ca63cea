-- ===== src/Lib.antt =====
-- A model of the Open Timekeeping core, its pipeline from a producer's bytes to the event log.
--
-- A producer opens a session with a `Connect` envelope and then sends envelopes with events. Envelopes
-- are framed on the wire (frame-codec), decoded, answered and checked by the session protocol
-- (ingest-protocol), and the events go to the ingest service (timing-core), which drops detections it
-- has, derives crossings from the others, and appends both to an event log behind a port. The log in
-- memory (conformance) and the one in segment files (adapter-event-log-segment) stand behind that port.
--
-- Prelude: shared names, byte strings and text as lists of numbers, integers, bit operations, hash
--   maps as association lists, results.
-- Event: event-model/src, all its types. Protocol: otk-protocol/src, the envelope and its payloads,
--   and the interface of the CBOR codec. Protocol/Traceparent: otk-protocol/src/traceparent.rs.
-- Frame/Stream: frame-codec/src/stream.rs. `round` is the body of the loop of
--   `StreamFrameDecoder::push`, `rounds` the loop, on fuel of one more than the bytes at hand: each
--   round that goes on takes four bytes at least, and Frame/Stream/Progress proves that more fuel
--   changes nothing. Frame/Serial: frame-codec/src/serial.rs, `push_byte` being the body of the loop
--   of `SerialFrameDecoder::push`. The `cobs` crate and minicbor are parameters, with the laws that the
--   theorems take of them as hypotheses.
-- Ingest/Handshake: ingest-protocol/src/handshake.rs, `handshake_inner` and what it calls, for an
--   authoriser that is a function of its arguments. Ingest/Processor: ingest-protocol/src/processor.rs.
-- Timing/Storage: timing-core/src/ports/outbound/event_log.rs, the `EventLog` trait as a record of
--   functions on the backend's state, less `subscribe`. Timing/Storage/Contract: what the trait
--   documents of the methods' results, on a view of the retained entries, which the two logs below are
--   compared with; Timing/Storage/Select: the entries of a range. Timing/Gate: timing-core/src/domain/
--   sequence_gate.rs. Timing/Crossing: timing-core/src/domain/crossing_processor.rs, crossing.rs and
--   processor_config.rs; a random crossing id is an argument. Timing/Service: timing-core/src/services/
--   event_ingest.rs, the state of the service being the log, the gate, the processor and the calls
--   made to the metrics sink; `append_event` is one step here.
-- Conformance: conformance/src/mem_log.rs, the log in memory, less its subscriptions.
-- Segment: adapter-event-log-segment/src. Segment/Record: the header and the records of segment.rs on
--   the bytes of a file; CBOR, the checksum and the test for UTF-8 are parameters. Segment/Recover:
--   `recover_active`, `recover_round` being the body of its loop, on fuel of one more than the bytes of
--   the file, which is enough since a round that goes on takes nine bytes at least; a loop that ran
--   out of fuel would have no result. Segment/Index: the index.
-- Segment/Log: log.rs, `SegmentLog` as a record with the files of its directory by base offset. A method
--   passes that record on (`M`). Each call to the system has a number, and may fail by a parameter; a
--   write that fails has written some of its bytes. Files has the calls, Roll `ensure_active`,
--   `should_roll` and `roll_segment`, Retention `enforce_retention`, Append `append`, Read `read_range`
--   and the queries, and Names and Open `SegmentLog::open`. Valid says when the log and its files agree;
--   Keep, Safe, Start, Batch, Commit, Rolled, RollKept and Retained show it kept step by step, and
--   Stored and Reopen what is read of a directory.
--
-- Unsigned integers are numbers. Where the code adds with saturation or computes modulo a power of two,
-- so do the definitions; where a theorem needs a number to fit its type, that is a hypothesis. A
-- `usize` has 64 bits. Hash maps are association lists; what is drained from one comes in the order
-- of the list. Logging is left out.
--
-- A call to the system is done when it returns: what the runtime or the system buffers is not
-- modelled, nor is the loss of a write that was not synced, but for files cut short in Segment/Recover.
--
-- Not modelled: the subscriptions to a log, the socket adapters, timing-node,
-- otk-sdk, otk-contracts, otk-devcerts, producer-simulated, and calls of the service that interleave.
pub mod Prelude
pub mod Event
pub mod Protocol
pub mod Frame
pub mod Ingest
pub mod Timing
pub mod Conformance
pub mod Segment
