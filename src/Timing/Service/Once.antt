-- ===== src/Timing/Service/Once.antt =====
-- timing-core/src/services/event_ingest.rs: the detections in the log after any sequence of calls.
use otk_core.Prelude.{
  ℕ, ◌∙◌, none, some, inl, inr, Result-cases, ◌≡◌, refl, sym, ap, true, false, List, [], ◌∷◌, ◌++◌,
  map, Text, arith, Result, ok, err, All, All-snoc, subst, append-nil,
}
use otk_core.Event.{CrossingId, Detection, OtkEvent, detection, crossing}
use otk_core.Timing.Storage.{StorageError, EventLog, IsEventLog, Contents, stamp}
use otk_core.Timing.Gate.{SequenceGate, key_of, seed_from_log}
use otk_core.Timing.Gate as Gate
use otk_core.Timing.Gate.HighWater.{seed_from_log-Represents, reached, Represents}
use otk_core.Timing.Gate.Deliveries.{Delivery, in_order, Increasing}
use otk_core.Timing.Crossing.{ProcessorConfig, CrossingProcessor, peek_detection}
use otk_core.Timing.Service.{
  new, EventIngestService, AppendOutcome, appended, dropped_duplicate, derive, map_crossing,
  append_event,
}
use otk_core.Timing.Service.Ingest.{stale, Effect, append_event-Effect, append_event-Represents}

-- A call of `append_event`, with the ids that it draws.
pub record Call : Type 0 where
  pub id : CrossingId
  pub discarded : CrossingId
  pub producer_id : Text
  pub event : OtkEvent

-- One call after another, whatever each returns.
unfoldable pub append_all : {l : EventLog} → EventIngestService l → List Call → EventIngestService l
append_all s [] = s
append_all s (c ∷ cs) = append_all (append_event c.id c.discarded s c.producer_id c.event).0 cs

-- The detections that a log holds, with their producers.
unfoldable pub logged : Contents → List Delivery
logged [] = []
logged ((p, detection d) ∷ c) = (p, d) ∷ logged c
logged ((p, e) ∷ c) = logged c

logged-append : (c c' : Contents) → logged (c ++ c') ≡ logged c ++ logged c'
unfolding logged
logged-append [] c' = refl
logged-append ((p, detection d) ∷ c) c' = ap (λ x. (p, d) ∷ x) (logged-append c c')
logged-append ((p, e) ∷ c) c' = logged-append c c'

logged-derive :
    (id : CrossingId) (proc : CrossingProcessor) (q : Text) (e : OtkEvent)
    → logged (stamp q (derive id proc e)) ≡ []
unfolding logged derive
logged-derive id proc q (detection d) = none_of (peek_detection id proc d)
  where
    none_of : (cs : List _) → logged (stamp q (map (λ c. crossing (map_crossing c)) cs)) ≡ []
    none_of [] = refl
    none_of (c ∷ cs) = none_of cs
logged-derive id proc q e = refl

Increasing-snoc :
    (ds : List Delivery) (x : Delivery)
    → Increasing ds
    → All (λ y. in_order y x ≡ true) ds
    → Increasing (ds ++ x ∷ [])
Increasing-snoc [] x h k = (tt, tt)
Increasing-snoc ((p, d) ∷ ds) x h k =
    (All-snoc (λ y. in_order (p, d) y ≡ true) ds x h.0 k.0, Increasing-snoc ds x h.1 k.1)

fresh-in_order :
    (p : Text) (d : Detection) (c : Contents)
    → reached (key_of p d) d.sequence_number c ≡ false
    → All (λ y. in_order y (p, d) ≡ true) (logged c)
unfolding logged
fresh-in_order p d [] h = tt
fresh-in_order p d ((q, detection e) ∷ c) h = (ground arith, fresh-in_order p d c (ground arith))
fresh-in_order p d ((q, e) ∷ c) h = fresh-in_order p d c h

-- A batch whose detection is not stale keeps the order.
batch-Increasing :
    (p : Text) (e : OtkEvent) (id : CrossingId) (proc : CrossingProcessor) (c : Contents)
    → stale p e c ≡ false
    → Increasing (logged c)
    → Increasing (logged (c ++ stamp p (e ∷ derive id proc e)))
unfolding logged
batch-Increasing p (detection d) id proc c h inc =
    rw
      (
        logged-append c (stamp p (detection d ∷ derive id proc (detection d))),
        logged-derive id proc p (detection d),
      )
      (Increasing-snoc (logged c) (p, d) inc (fresh-in_order p d c h))
batch-Increasing p e id proc c h inc =
    rw
      (
        logged-append c (stamp p (e ∷ derive id proc e)),
        logged-derive id proc p e,
        append-nil (logged c),
      )
      inc

Effect-Increasing :
    (p : Text) (e : OtkEvent) (id : CrossingId) (proc : CrossingProcessor) (c c' : Contents)
    (r : Result StorageError AppendOutcome)
    → Effect c (stamp p (e ∷ derive id proc e)) (stale p e c) c' r
    → Increasing (logged c)
    → Increasing (logged c')
Effect-Increasing p e id proc c c' (err x) h inc = subst (λ y. Increasing (logged y)) (sym h.0) inc
Effect-Increasing p e id proc c c' (ok dropped_duplicate) h inc =
    subst (λ y. Increasing (logged y)) (sym h.0) inc
Effect-Increasing p e id proc c c' (ok (appended o)) h inc =
    subst (λ y. Increasing (logged y)) (sym h.0) (batch-Increasing p e id proc c h.1 inc)

-- After any calls, in any order, with retries and with storage errors, the detections in the log have,
-- for each producer and detector, strictly increasing sequence numbers, so none is there twice; and the
-- gate represents the log. This is for calls one after another, from a gate that represents
-- a log whose detections are so ordered, and that meets its contract.
pub append_all-Increasing :
    (l : EventLog) (contents : l.Log → Contents) (v : IsEventLog l contents)
    (s : EventIngestService l) (cs : List Call)
    → Represents s.gate (contents s.log)
    → Increasing (logged (contents s.log))
    → let s' = append_all s cs in
      Represents s'.gate (contents s'.log) × Increasing (logged (contents s'.log))
unfolding append_all
append_all-Increasing l contents v s [] r inc = (r, inc)
append_all-Increasing l contents v s (c ∷ cs) r inc =
    append_all-Increasing l contents v (append_event c.id c.discarded s c.producer_id c.event).0 cs
      (append_event-Represents l contents v c.id c.discarded s c.producer_id c.event r)
      (Effect-Increasing c.producer_id c.event c.id s.processor _ _ _
        (append_event-Effect l contents v c.id c.discarded s c.producer_id c.event r) inc)

-- Seeding a gate leaves what the log holds as it was.
seed_from_log_keeps :
    (l : EventLog) (contents : l.Log → Contents) (v : IsEventLog l contents) (s : l.Log)
    (g : SequenceGate)
    → contents (seed_from_log l g s).0 ≡ contents s
unfolding seed_from_log
seed_from_log_keeps l contents v s g = elim (Result-cases (l.earliest_offset s).1) [
  | inr (x, e) ↦ rw (e, seed_from_log) (v.earliest_keeps s)
  | inl (none, e) ↦ rw (e, seed_from_log) (v.earliest_keeps s)
  | inl (some o, e) ↦
      let s1 = (l.earliest_offset s).0 in
      let kept = v.read_keeps o none s1 ∙ v.earliest_keeps s in
      elim (Result-cases (l.read_range o none s1).1) [
        | inr (x, q) ↦ rw (e, q, seed_from_log) kept
        | inl (es, q) ↦ rw (e, q, seed_from_log) kept
      ]
]

-- When a service is built on a log, with a gate seeded from it, and takes any calls, one after
-- another, the detections in the log stay as ordered as they were: for each producer and detector their
-- sequence numbers increase strictly, across the restart too. The log is taken to meet its contract,
-- and the seeding to succeed.
pub new-append_all-Increasing :
    (l : EventLog) (contents : l.Log → Contents) (v : IsEventLog l contents) (s : l.Log)
    (config : ProcessorConfig) (cs : List Call) (n : ℕ)
    → (seed_from_log l Gate.new s).2 ≡ ok n
    → Increasing (logged (contents s))
    → let (log, gate, result) = seed_from_log l Gate.new s in
      Increasing (logged (contents (append_all (new l log config gate) cs).log))
unfolding new
new-append_all-Increasing l contents v s config cs n seeded inc =
    let (log, gate, result) = seed_from_log l Gate.new s in
    let same = seed_from_log_keeps l contents v s Gate.new in
    let r = seed_from_log-Represents l contents v s n seeded in
    (append_all-Increasing l contents v (new l log config gate) cs
      (subst (Represents gate) (sym same) r) (subst (λ c. Increasing (logged c)) (sym same) inc)).1
