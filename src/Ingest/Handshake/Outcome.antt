-- ===== src/Ingest/Handshake/Outcome.antt =====
-- ingest-protocol/src/handshake.rs: when a producer is accepted, and what it is answered.
use otk_core.Prelude.{
  ℕ, ◌≡◌, ◌≤◌, ◌<◌, ◌⊎◌, true, Option, some, Bytes, ok, err, arith, Result-cases, is_ok, inl, inr,
}
use otk_core.Protocol.{
  connect, connect_ack, connect_reject, OtkEnvelope, Connect, ConnectAck, ConnectReject,
  ConnectRejectReason, version_not_supported, CorrelationId, ProducerId,
}
use otk_core.Ingest.{Codecs}
use otk_core.Ingest.Processor.{PostHandshakeProcessor}
use otk_core.Ingest.Processor as Processor
use otk_core.Ingest.Handshake.{
  HandshakeOutcome, accepted, rejected, ConnectAuthoriser, server_envelope, build_ack_envelope,
  build_reject_envelope, refuse, admit_producer, answer, handshake_inner,
}

module _ (codecs : Codecs) (v : ℕ) (authorise : ConnectAuthoriser) where
  -- What an outcome says of the producer's `Connect`: an accepted one covers the server's version and
  -- is authorised; a rejected one does not cover it, or it does and the authoriser gave the reason.
  abbrev pub Covers : Connect → Type 0
  Covers c = (c.protocol_version_min ≤ v) × (v ≤ c.protocol_version_max)

  abbrev pub Misses : Connect → Type 0
  Misses c = (v < c.protocol_version_min) ⊎ (c.protocol_version_max < v)

  abbrev pub Decided : ProducerId → Connect → HandshakeOutcome → Type 0
  Decided id c (accepted reply p) =
      Covers c
      × (authorise id c.auth_token ≡ ok tt)
      × (p.producer_id ≡ id)
      × (p.negotiated_version ≡ v)
  Decided id c (rejected reply reason) =
      (Misses c × (reason ≡ version_not_supported))
      ⊎ (Covers c × (authorise id c.auth_token ≡ err reason))

  -- What the reply carries: the server's version, the producer's correlation id, and a payload that
  -- decodes to the acknowledgement or to the rejection with the outcome's reason.
  abbrev pub Replied : Option CorrelationId → HandshakeOutcome → Type 0
  Replied echo (accepted reply p) =
      (bytes : Bytes) × (reply ≡ server_envelope connect_ack (some bytes) v echo)
      × (codecs.connect_ack.decode bytes ≡ ok (record { negotiated_version = v }))
  Replied echo (rejected reply reason) =
      (bytes : Bytes) × (reply ≡ server_envelope connect_reject (some bytes) v echo)
      × (codecs.connect_reject.decode bytes
          ≡ ok (record { reason = reason; supported_version_min = v; supported_version_max = v }))

  abbrev rejection : ConnectRejectReason → ConnectReject
  rejection reason = record {
    reason = reason;
    supported_version_min = v;
    supported_version_max = v;
  }

  abbrev acknowledgement : ConnectAck
  acknowledgement = record { negotiated_version = v }

  -- Every `Connect` that decodes is answered, one way or the other, where the replies can be encoded.
  pub handshake_inner_answers :
      (envelope : OtkEnvelope) (bytes : Bytes) (c : Connect)
      → envelope.message_type ≡ connect
      → envelope.payload ≡ some bytes
      → codecs.connect.decode bytes ≡ ok c
      → is_ok (codecs.connect_ack.to_vec acknowledgement) ≡ true
      → ((reason : ConnectRejectReason)
          → is_ok (codecs.connect_reject.to_vec (rejection reason)) ≡ true)
      → is_ok (handshake_inner codecs envelope v authorise) ≡ true
  unfolding handshake_inner answer refuse admit_producer build_ack_envelope build_reject_envelope
  handshake_inner_answers envelope bytes c m p d a r =
      rw (m, p, d, handshake_inner)
        (elim (Result-cases (authorise envelope.source_id c.auth_token)) [
          | inl (done, q) ↦ ground (arith, r version_not_supported, q)
          | inr (reason, q) ↦ ground (arith, r version_not_supported, r reason, q)
        ])
