-- ===== src/Protocol.antt =====
-- otk-protocol/src: the wire messages (envelope.rs, handshake.rs, heartbeat.rs, ids.rs), and the
-- interface of the CBOR library that encodes them.
pub mod Traceparent
use otk_core.Prelude.{ℕ, ◌≡◌, Option, some, List, Text, Bytes, Result, ok, All, IsByte}
use otk_core.Event.{StreamId, StreamDescriptor}

abbrev pub ProducerId : Type 0
ProducerId = Text

abbrev pub CorrelationId : Type 0
CorrelationId = Text

pub data MessageType : Type 0 where
  event : MessageType
  connect : MessageType
  connect_ack : MessageType
  connect_reject : MessageType
  heartbeat : MessageType
  error : MessageType
  disconnect : MessageType

pub record OtkEnvelope : Type 0 where
  pub protocol_version : ℕ
  pub message_type : MessageType
  pub source_id : ProducerId
  pub stream_id : Option StreamId
  pub sequence_number : Option ℕ
  pub correlation_id : Option CorrelationId
  pub payload : Option Bytes
  pub traceparent : Option Text

pub record Connect : Type 0 where
  pub protocol_version_min : ℕ
  pub protocol_version_max : ℕ
  pub streams : List StreamDescriptor
  pub auth_token : Option Text

pub record ConnectAck : Type 0 where
  pub negotiated_version : ℕ

pub data ConnectRejectReason : Type 0 where
  version_not_supported : ConnectRejectReason
  producer_id_already_connected : ConnectRejectReason
  unauthorized : ConnectRejectReason
  server_full : ConnectRejectReason

pub record ConnectReject : Type 0 where
  pub reason : ConnectRejectReason
  pub supported_version_min : ℕ
  pub supported_version_max : ℕ

pub record Heartbeat : Type 0 where
  pub sent_at_ns : ℕ

abbrev pub protocol_version : ℕ
protocol_version = 0

-- `minicbor::to_vec` and `minicbor::decode` at one type. An error is its displayed text.
pub record Cbor (A : Type 0) : Type 0 where
  pub to_vec : A → Result Text Bytes
  pub decode : Bytes → Result Text A

-- What minicbor's derived codecs promise: what was encoded decodes to the value encoded.
abbrev pub RoundTrips : {A : Type 0} → Cbor A → Type 0
RoundTrips {A} c = (a : A) (bs : Bytes) → c.to_vec a ≡ ok bs → c.decode bs ≡ ok a

-- What it writes are bytes.
abbrev pub WritesBytes : {A : Type 0} → Cbor A → Type 0
WritesBytes {A} c = (a : A) (bs : Bytes) → c.to_vec a ≡ ok bs → All IsByte bs
