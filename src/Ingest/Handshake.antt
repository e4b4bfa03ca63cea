-- ===== src/Ingest/Handshake.antt =====
-- ingest-protocol/src/handshake.rs and error.rs: the answer to a producer's first envelope.
pub mod Outcome
use otk_core.Prelude.{
  ℕ, Bool, true, false, not, ◌&&◌, Option, none, some, Text, text, Bytes, Result, ok, err, ◌>>=◌,
  ok_or, map_err, leb, if◌then◌else◌, ◌++◌,
}
use otk_core.Protocol.{
  ProducerId, CorrelationId, MessageType, connect, connect_ack, connect_reject, OtkEnvelope,
  Connect, ConnectAck, ConnectReject, ConnectRejectReason, version_not_supported, protocol_version,
}
use otk_core.Ingest.{Codecs}
use otk_core.Ingest.Processor.{PostHandshakeProcessor}
use otk_core.Ingest.Processor as Processor

pub data HandshakeOutcome : Type 0 where
  accepted : OtkEnvelope → PostHandshakeProcessor → HandshakeOutcome
  rejected : OtkEnvelope → ConnectRejectReason → HandshakeOutcome

pub data HandshakeError : Type 0 where
  unexpected_message_type : MessageType → HandshakeError
  missing_connect_payload : HandshakeError
  decode_failed : Text → HandshakeError
  encode_failed : Text → HandshakeError

-- The trait `ConnectAuthoriser`, for an authoriser that answers by its arguments.
abbrev pub ConnectAuthoriser : Type 0
ConnectAuthoriser = ProducerId → Option Text → Result ConnectRejectReason (Unit {0})

unfoldable pub allow_all : ConnectAuthoriser
allow_all producer_id token = ok tt

unfoldable pub server_envelope : MessageType → Option Bytes → ℕ → Option CorrelationId → OtkEnvelope
server_envelope message_type payload version correlation_id = record {
  protocol_version = version;
  message_type = message_type;
  source_id = text "server";
  stream_id = none;
  sequence_number = none;
  correlation_id = correlation_id;
  payload = payload;
  traceparent = none;
}

abbrev pub is_connect : MessageType → Bool
is_connect connect = true
is_connect _ = false

-- `(min..=max).contains(&version)`
unfoldable pub supports : Connect → ℕ → Bool
supports c version = leb c.protocol_version_min version && leb version c.protocol_version_max

module _ (codecs : Codecs) where
  unfoldable pub build_ack_envelope :
      ConnectAck → ℕ → Option CorrelationId → Result HandshakeError OtkEnvelope
  build_ack_envelope ack version correlation_id = do
    payload ←
        map_err (λ x. encode_failed (text "ConnectAck: " ++ x)) (codecs.connect_ack.to_vec ack)
    ok (server_envelope connect_ack (some payload) version correlation_id)

  unfoldable pub build_reject_envelope :
      ConnectReject → ℕ → Option CorrelationId → Result HandshakeError OtkEnvelope
  build_reject_envelope reject version correlation_id = do
    payload ←
        map_err (λ x. encode_failed (text "ConnectReject: " ++ x))
          (codecs.connect_reject.to_vec reject)
    ok (server_envelope connect_reject (some payload) version correlation_id)

  -- A refusal, which the version check and the authoriser share.
  unfoldable pub refuse :
      ConnectRejectReason → ℕ → Option CorrelationId → Result HandshakeError HandshakeOutcome
  refuse reason server_version echo = do
    reply ←
        build_reject_envelope
          (record {
            reason = reason;
            supported_version_min = server_version;
            supported_version_max = server_version;
          })
          server_version echo
    ok (rejected reply reason)

  unfoldable pub admit_producer :
      ProducerId → ℕ → Option CorrelationId → Result HandshakeError HandshakeOutcome
  admit_producer producer_id server_version echo = do
    reply ← build_ack_envelope (record { negotiated_version = server_version }) server_version echo
    ok (accepted reply (Processor.new producer_id server_version))

  -- From the decoded `Connect` on.
  unfoldable pub answer :
      ProducerId
      → Option CorrelationId
      → Connect
      → ℕ
      → ConnectAuthoriser
      → Result HandshakeError HandshakeOutcome
  answer producer_id echo c server_version authorise =
      if not (supports c server_version)
      then refuse version_not_supported server_version echo
      else elim (authorise producer_id c.auth_token) [
        | err reason ↦ refuse reason server_version echo
        | ok done ↦ admit_producer producer_id server_version echo
      ]

  unfoldable pub handshake_inner :
      OtkEnvelope → ℕ → ConnectAuthoriser → Result HandshakeError HandshakeOutcome
  handshake_inner envelope server_version authorise =
      if not (is_connect envelope.message_type)
      then err (unexpected_message_type envelope.message_type)
      else do
        connect_bytes ← ok_or envelope.payload missing_connect_payload
        c ←
            map_err (λ x. decode_failed (text "Connect: " ++ x))
              (codecs.connect.decode connect_bytes)
        answer envelope.source_id envelope.correlation_id c server_version authorise

  unfoldable pub perform_server_handshake : OtkEnvelope → Result HandshakeError HandshakeOutcome
  perform_server_handshake envelope = handshake_inner envelope protocol_version allow_all

  unfoldable pub perform_server_handshake_with_auth :
      OtkEnvelope → ConnectAuthoriser → Result HandshakeError HandshakeOutcome
  perform_server_handshake_with_auth envelope authorise =
      handshake_inner envelope protocol_version authorise
