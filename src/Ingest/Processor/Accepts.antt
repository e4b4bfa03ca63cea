-- ===== src/Ingest/Processor/Accepts.antt =====
-- ingest-protocol/src/processor.rs: the envelopes that a session takes.
use otk_core.Prelude.{
  ◌≡◌, ◌↔◌, refl, Option, none, some, Text, Bytes, ok, arith, text_eq, text_eq_iff, ◌==◌,
  Result-cases, ok_inj, subst, Bool-cases, inl, inr, sym,
}
use otk_core.Protocol.{MessageType, OtkEnvelope, Heartbeat}
use otk_core.Protocol as Wire
use otk_core.Protocol.Traceparent.{is_valid_traceparent}
use otk_core.Protocol.Traceparent.Parse.{IsTraceparent, is_valid_traceparent-IsTraceparent}
use otk_core.Ingest.{Codecs}
use otk_core.Ingest.Processor.{
  InboundAction, event, heartbeat, disconnect, PostHandshakeProcessor, keep_valid, dispatch,
  process,
}

-- The second is the traceparent of the first, if that has one and it meets the W3C rules.
abbrev pub Passes : Option Text → Option Text → Type 0
Passes sent (some s) = (sent ≡ some s) × IsTraceparent s
Passes sent none = (s : Text) → sent ≡ some s → IsTraceparent s → ⊥

keep_valid-Passes : (sent : Option Text) → Passes sent (keep_valid sent)
unfolding keep_valid
keep_valid-Passes none = λ s h t. absurd (cc)
keep_valid-Passes (some s) = elim (Bool-cases (is_valid_traceparent s)) [
  | inl valid ↦ rw valid (refl, (is_valid_traceparent-IsTraceparent s).0 valid)
  | inr wrong ↦ rw wrong λ x h t.
      (let same : s ≡ x = cc in
        let valid = (is_valid_traceparent-IsTraceparent s).1 (subst IsTraceparent (sym same) t) in
        absurd (cc))
]

Passes-keep_valid : (sent t : Option Text) → Passes sent t → t ≡ keep_valid sent
unfolding keep_valid
Passes-keep_valid sent (some s) (same, t) =
    rw (same, keep_valid, (is_valid_traceparent-IsTraceparent s).1 t) refl
Passes-keep_valid none none h = refl
Passes-keep_valid (some s) none h = elim (Bool-cases (is_valid_traceparent s)) [
  | inl valid ↦ absurd (h s refl ((is_valid_traceparent-IsTraceparent s).0 valid))
  | inr wrong ↦ rw wrong refl
]

module _ (codecs : Codecs) where
  -- The payload and the message type that an action asks for.
  abbrev pub Carries : MessageType → Option Bytes → Option Text → InboundAction → Type 0
  Carries m payload traceparent (event e t) =
      (m ≡ Wire.event)
      × (bytes : Bytes) × (payload ≡ some bytes)
      × (codecs.event.decode bytes ≡ ok e)
      × Passes traceparent t
  Carries m payload traceparent heartbeat =
      (m ≡ Wire.heartbeat)
      × (bytes : Bytes) × (h : Heartbeat) × (payload ≡ some bytes)
      × (codecs.heartbeat.decode bytes ≡ ok h)
  Carries m payload traceparent disconnect = (m ≡ Wire.disconnect) × (payload ≡ none)

  dispatch-Carries :
      (m : MessageType) (payload : Option Bytes) (t : Option Text) (a : InboundAction)
      → dispatch codecs m payload t ≡ ok a
      → Carries m payload t a
  unfolding dispatch
  dispatch-Carries Wire.event none t a h = absurd (cc)
  dispatch-Carries Wire.event (some bytes) t a h = elim (Result-cases (codecs.event.decode bytes)) [
    | inl (e, q) ↦
        subst (Carries Wire.event (some bytes) t) (ok_inj refl (rw q at h))
          (refl, bytes, refl, q, keep_valid-Passes t)
    | inr (x, q) ↦ absurd (cc (rw q at h))
  ]
  dispatch-Carries Wire.heartbeat none t a h = absurd (cc)
  dispatch-Carries Wire.heartbeat (some bytes) t a h =
      elim (Result-cases (codecs.heartbeat.decode bytes)) [
        | inl (b, q) ↦
            subst (Carries Wire.heartbeat (some bytes) t) (ok_inj refl (rw q at h))
              (refl, bytes, b, refl, q)
        | inr (x, q) ↦ absurd (cc (rw q at h))
      ]
  dispatch-Carries Wire.disconnect none t a h =
      subst (Carries Wire.disconnect none t) (ok_inj refl h) (refl, refl)
  dispatch-Carries Wire.disconnect (some bytes) t a h = absurd (cc)
  dispatch-Carries m payload t a h = absurd (cc)

  Carries-dispatch :
      (m : MessageType) (payload : Option Bytes) (t : Option Text) (a : InboundAction)
      → Carries m payload t a
      → dispatch codecs m payload t ≡ ok a
  unfolding dispatch
  Carries-dispatch m payload t (event e t') (hm, bytes, hp, hd, ht) =
      rw (hm, hp, hd, Passes-keep_valid t t' ht, dispatch) refl
  Carries-dispatch m payload t heartbeat (hm, bytes, h, hp, hd) = rw (hm, hp, hd, dispatch) refl
  Carries-dispatch m payload t disconnect (hm, hp) = rw (hm, hp, dispatch) refl

  -- A session takes an envelope, with this action, exactly if the envelope has the negotiated version
  -- and the registered producer's id, the action's message type, and the payload that the action
  -- asks for: one that decodes to the event delivered, one that decodes to a heartbeat, or none. The
  -- envelope's traceparent goes with an event exactly if it meets the W3C rules.
  pub process_iff :
      (p : PostHandshakeProcessor) (envelope : OtkEnvelope) (a : InboundAction)
      → (process codecs p envelope ≡ ok a) ↔ (
          (envelope.protocol_version ≡ p.negotiated_version)
          × (envelope.source_id ≡ p.producer_id)
          × Carries envelope.message_type envelope.payload envelope.traceparent a)
  unfolding process
  process_iff p envelope a =
      let body = dispatch-Carries envelope.message_type envelope.payload envelope.traceparent a in
      let same = text_eq_iff envelope.source_id p.producer_id in
      elim (Bool-cases (envelope.protocol_version == p.negotiated_version)) [
        | inl version ↦ elim (Bool-cases (text_eq envelope.source_id p.producer_id)) [
          | inl source ↦
              rw (version, source, process)
                (
                  λ h. (ground arith, same.0 source, body h),
                  λ h.
                      Carries-dispatch envelope.message_type envelope.payload envelope.traceparent a
                        h.2,
                )
          | inr other ↦
              rw (version, other, process)
                (λ h. absurd (cc), λ h. absurd (ground (arith, same.1 h.1)))
        ]
        | inr other ↦ rw (other, process) (λ h. absurd (cc), λ h. absurd (ground (arith, h.0)))
      ]
