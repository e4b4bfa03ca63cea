-- ===== src/Ingest/Processor.antt =====
-- ingest-protocol/src/processor.rs and error.rs: what a session does with an envelope after the handshake.
pub mod Accepts
use otk_core.Prelude.{
  ℕ, Bool, true, false, not, Option, none, some, Text, text, text_eq, Bytes, Result, ok, err, ◌>>=◌,
  ok_or, map_err, ◌==◌, if◌then◌else◌, ◌++◌,
}
use otk_core.Event.{OtkEvent}
use otk_core.Protocol.{
  ProducerId, MessageType, connect, connect_ack, connect_reject, error, OtkEnvelope, Heartbeat,
}
use otk_core.Protocol as Wire
use otk_core.Protocol.Traceparent.{is_valid_traceparent}
use otk_core.Ingest.{Codecs}

pub data InboundAction : Type 0 where
  event : OtkEvent → Option Text → InboundAction
  heartbeat : InboundAction
  disconnect : InboundAction

pub data ProtocolError : Type 0 where
  version_mismatch : ℕ → ℕ → ProtocolError
  source_mismatch : Text → Text → ProtocolError
  missing_event_payload : ProtocolError
  missing_heartbeat_payload : ProtocolError
  unexpected_disconnect_payload : ProtocolError
  decode_failed : Text → ProtocolError
  unexpected_message_type : MessageType → ProtocolError

pub record PostHandshakeProcessor : Type 0 where
  pub producer_id : ProducerId
  pub negotiated_version : ℕ

unfoldable pub new : ProducerId → ℕ → PostHandshakeProcessor
new producer_id negotiated_version = record {
  producer_id = producer_id;
  negotiated_version = negotiated_version;
}

-- `filter(|s| is_valid_traceparent(s))`
unfoldable pub keep_valid : Option Text → Option Text
keep_valid none = none
keep_valid (some s) = if is_valid_traceparent s then some s else none

module _ (codecs : Codecs) where
  -- The `match` on the message type.
  unfoldable pub dispatch :
      MessageType → Option Bytes → Option Text → Result ProtocolError InboundAction
  dispatch Wire.event payload traceparent = do
    bytes ← ok_or payload missing_event_payload
    e ← map_err (λ x. decode_failed (text "OtkEvent: " ++ x)) (codecs.event.decode bytes)
    ok (event e (keep_valid traceparent))
  dispatch Wire.heartbeat payload traceparent = do
    bytes ← ok_or payload missing_heartbeat_payload
    h ← map_err (λ x. decode_failed (text "Heartbeat: " ++ x)) (codecs.heartbeat.decode bytes)
    ok heartbeat
  dispatch Wire.disconnect none traceparent = ok disconnect
  dispatch Wire.disconnect (some bytes) traceparent = err unexpected_disconnect_payload
  dispatch other payload traceparent = err (unexpected_message_type other)

  unfoldable pub process : PostHandshakeProcessor → OtkEnvelope → Result ProtocolError InboundAction
  process p envelope =
      if not (envelope.protocol_version == p.negotiated_version)
      then err (version_mismatch p.negotiated_version envelope.protocol_version)
      else if not (text_eq envelope.source_id p.producer_id)
      then err (source_mismatch p.producer_id envelope.source_id)
      else dispatch envelope.message_type envelope.payload envelope.traceparent
