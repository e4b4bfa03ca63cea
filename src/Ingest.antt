-- ===== src/Ingest.antt =====
-- ingest-protocol/src: the server's side of a producer's session, whatever carries its envelopes.
pub mod Processor
pub mod Handshake
mod Examples
use otk_core.Event.{OtkEvent}
use otk_core.Protocol.{Cbor, Connect, ConnectAck, ConnectReject, Heartbeat}

-- The derived codecs of the types that a session sends or receives.
pub record Codecs : Type 0 where
  pub connect : Cbor Connect
  pub connect_ack : Cbor ConnectAck
  pub connect_reject : Cbor ConnectReject
  pub heartbeat : Cbor Heartbeat
  pub event : Cbor OtkEvent
