-- ===== src/Ingest/Examples.antt =====
-- ingest-protocol/src: tests over small codecs, and the theorems at concrete inputs.
use otk_core.Prelude.{
  ℕ, zero, suc, text_eq, if◌then◌else◌, ◌≡◌, ◌↔◌, refl, true, none, some, [], ◌∷◌, Text, text,
  Bytes, Result, ok, err, is_ok,
}
use otk_core.Event.{
  Detection, OtkEvent, detection, adapter_receive_time, runtime_discovered, beam_break,
}
use otk_core.Protocol.{
  Cbor, Connect, ConnectAck, ConnectReject, ConnectRejectReason, version_not_supported,
  producer_id_already_connected, unauthorized, server_full, Heartbeat, MessageType, connect,
  connect_ack, OtkEnvelope,
}
use otk_core.Protocol as Wire
use otk_core.Ingest.{Codecs}
use otk_core.Ingest.Processor.{
  PostHandshakeProcessor, InboundAction, event, process, keep_valid, dispatch,
}
use otk_core.Ingest.Processor as Processor
use otk_core.Ingest.Processor.Accepts.{Carries, process_iff}
use otk_core.Ingest.Handshake.{HandshakeOutcome, accepted, ConnectAuthoriser, handshake_inner}
use otk_core.Ingest.Handshake.Outcome.{handshake_inner_answers}

abbrev connect_decode : Bytes → Result Text Connect
connect_decode (lo ∷ hi ∷ []) = ok (record {
  protocol_version_min = lo;
  protocol_version_max = hi;
  streams = [];
  auth_token = none;
})
connect_decode _ = err (text "connect")

abbrev ack_to_vec : ConnectAck → Result Text Bytes
ack_to_vec a = ok (a.negotiated_version ∷ [])

abbrev ack_decode : Bytes → Result Text ConnectAck
ack_decode (v ∷ []) = ok (record { negotiated_version = v })
ack_decode _ = err (text "ack")

abbrev reason_code : ConnectRejectReason → ℕ
reason_code version_not_supported = 0
reason_code producer_id_already_connected = 1
reason_code unauthorized = 2
reason_code server_full = 3

abbrev code_reason : ℕ → ConnectRejectReason
code_reason zero = version_not_supported
code_reason (suc zero) = producer_id_already_connected
code_reason (suc (suc zero)) = unauthorized
code_reason _ = server_full

abbrev reject_to_vec : ConnectReject → Result Text Bytes
reject_to_vec r = ok (reason_code r.reason ∷ r.supported_version_min ∷ r.supported_version_max ∷ [])

abbrev reject_decode : Bytes → Result Text ConnectReject
reject_decode (c ∷ lo ∷ hi ∷ []) =
    ok (record { reason = code_reason c; supported_version_min = lo; supported_version_max = hi })
reject_decode _ = err (text "reject")

-- The event that a byte decodes to: a detection of that number.
abbrev numbered : ℕ → Detection
numbered n = record {
  detection_id = text "d-1";
  detector_id = text "loop-1";
  timing_point_id = text "tp-start";
  subject_id = none;
  detected_at_ns = 1000;
  detected_at_uncertainty_ns = none;
  received_at_ns = none;
  timestamping_method = adapter_receive_time;
  timebase_id = text "tb-1";
  source_attestation = runtime_discovered;
  sequence_number = n;
  sensor = beam_break;
}

abbrev event_decode : Bytes → Result Text OtkEvent
event_decode (n ∷ []) = ok (detection (numbered n))
event_decode _ = err (text "event")

abbrev heartbeat_decode : Bytes → Result Text Heartbeat
heartbeat_decode (n ∷ []) = ok (record { sent_at_ns = n })
heartbeat_decode _ = err (text "heartbeat")

abbrev codecs : Codecs
codecs = record {
  connect = record {
    to_vec = λ c. ok (c.protocol_version_min ∷ c.protocol_version_max ∷ []);
    decode = connect_decode;
  };
  connect_ack = record { to_vec = ack_to_vec; decode = ack_decode };
  connect_reject = record { to_vec = reject_to_vec; decode = reject_decode };
  heartbeat = record { to_vec = λ h. ok (h.sent_at_ns ∷ []); decode = heartbeat_decode };
  event = record { to_vec = λ e. err (text "event"); decode = event_decode };
}

-- An authoriser that knows one producer.
abbrev known : ConnectAuthoriser
known producer token = if text_eq producer (text "p") then ok tt else err unauthorized

abbrev opening : Bytes → OtkEnvelope
opening payload = record {
  protocol_version = 0;
  message_type = connect;
  source_id = text "p";
  stream_id = none;
  sequence_number = none;
  correlation_id = some (text "c-1");
  payload = some payload;
  traceparent = none;
}

abbrev acceptance : HandshakeOutcome
acceptance =
    accepted
      (record {
        protocol_version = 0;
        message_type = connect_ack;
        source_id = text "server";
        stream_id = none;
        sequence_number = none;
        correlation_id = some (text "c-1");
        payload = some (0 ∷ []);
        traceparent = none;
      })
      (record { producer_id = text "p"; negotiated_version = 0 })

-- A range without the server's version.
handshake_inner_answers_example :
    is_ok (handshake_inner codecs (opening (99 ∷ 99 ∷ [])) 0 known) ≡ true
handshake_inner_answers_example =
    handshake_inner_answers codecs 0 known (opening (99 ∷ 99 ∷ [])) (99 ∷ 99 ∷ [])
      (record {
        protocol_version_min = 99;
        protocol_version_max = 99;
        streams = [];
        auth_token = none;
      })
      refl refl refl refl (λ reason. refl)

abbrev session : PostHandshakeProcessor
session = record { producer_id = text "p"; negotiated_version = 0 }

abbrev delivery : OtkEnvelope
delivery = record (opening (7 ∷ [])) {
  message_type = Wire.event;
  traceparent = some (text "not-a-traceparent");
}

process_iff_example :
    (process codecs session delivery ≡ ok (event (detection (numbered 7)) none)) ↔ (
      (session.negotiated_version ≡ 0)
      × (text "p" ≡ text "p")
      × Carries codecs Wire.event
          (some (7 ∷ []))
          (some (text "not-a-traceparent"))
          (event (detection (numbered 7)) none))
process_iff_example = process_iff codecs session delivery (event (detection (numbered 7)) none)
