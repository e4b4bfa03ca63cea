-- ===== src/Timing/Service/Ingest.antt =====
-- timing-core/src/services/event_ingest.rs: what an append does to the log and to the service.
use otk_core.Prelude.{
  ℕ, ◌≡◌, refl, sym, ap, ◌∙◌, Bool, true, false, not, Option, List, [], ◌∷◌, ◌++◌, ◌⊎◌, map, Text,
  arith, Result, ok, err, Result-cases, inl, inr, subst,
}
use otk_core.Prelude.Map.{Key}
use otk_core.Event.{CrossingId, DetectorId, OtkEvent, detection, crossing}
use otk_core.Timing.Storage.{StorageError, EventLog, IsEventLog, Contents, stamp}
use otk_core.Timing.Gate.{
  GateDecision, accept, advance, gap, duplicate, persist, SequenceGate, key_of, peek,
}
use otk_core.Timing.Gate.HighWater.{
  reached, reached-append, Represents, commit-covered, peek-covered,
}
use otk_core.Timing.Crossing.{CrossingProcessor, peek_detection}
use otk_core.Timing.Service.{
  EventIngestService, AppendOutcome, appended, dropped_duplicate, Admission, drop, proceed,
  admission, admit, derive, map_crossing, commit_event, persist_event, append_event,
  record_duplicate_dropped, MetricCall,
}

-- Is the event a detection whose number the log has, for its producer and detector, or a greater one?
abbrev pub stale : Text → OtkEvent → Contents → Bool
stale p (detection d) c = reached (key_of p d) d.sequence_number c
stale p _ c = false

abbrev admitted : Admission → Bool
admitted (drop d) = false
admitted (proceed pending) = true

admission_lem : (d : DetectorId) (g : GateDecision) → admitted (admission d g) ≡ persist g
unfolding admission persist
admission_lem d accept = refl
admission_lem d (advance hw) = refl
admission_lem d (gap expected got) = refl
admission_lem d (duplicate hw got) = refl

admit-stale :
    (g : SequenceGate) (p : Text) (e : OtkEvent) (c : Contents)
    → Represents g c
    → admitted (admit g p e) ≡ not (stale p e c)
unfolding admit
admit-stale g p (detection d) c r =
    admission_lem d.detector_id (peek g p d)
    ∙ peek-covered g p d
    ∙ ap not (r (key_of p d) d.sequence_number)
admit-stale g p e c r = refl

Admission-cases :
    (a : Admission)
    → ((d : DetectorId) × (a ≡ drop d)) ⊎ ((pending : Option (ℕ × ℕ)) × (a ≡ proceed pending))
Admission-cases (drop d) = inl (d, refl)
Admission-cases (proceed pending) = inr (pending, refl)

-- No derived event is a detection.
derive-reached :
    (id : CrossingId) (proc : CrossingProcessor) (p q : Text) (e : OtkEvent) (k : Key) (n : ℕ)
    → reached k n (stamp q (derive id proc e)) ≡ false
unfolding derive
derive-reached id proc p q (detection d) k n = none_of (peek_detection id proc d)
  where
    none_of :
        (cs : List _) → reached k n (stamp q (map (λ c. crossing (map_crossing c)) cs)) ≡ false
    none_of [] = refl
    none_of (c ∷ cs) = none_of cs
derive-reached id proc p q e k n = refl

-- What an append makes of the log, by its result: on an error nothing is added; a detection is dropped
-- exactly if it is stale; else the batch is added.
abbrev pub Effect :
    Contents → Contents → Bool → Contents → Result StorageError AppendOutcome → Type 0
Effect before batch old after (err e) = (after ≡ before) × (old ≡ false)
Effect before batch old after (ok dropped_duplicate) = (after ≡ before) × (old ≡ true)
Effect before batch old after (ok (appended offset)) = (after ≡ before ++ batch) × (old ≡ false)

-- The part of the service that is not the log.
abbrev pub rest_of :
    {l : EventLog} → EventIngestService l → SequenceGate × CrossingProcessor × List MetricCall
rest_of s = (s.gate, s.processor, s.metrics)

-- After an error the rest of the service is what it was.
abbrev pub KeptOnError :
    {l : EventLog}
    → EventIngestService l
    → EventIngestService l × Result StorageError AppendOutcome
    → Type 0
KeptOnError s (s', err e) = rest_of s' ≡ rest_of s
KeptOnError s (s', ok outcome) = Unit {0}

module _ {l : EventLog} where
  append_event-drop :
      (id id' : CrossingId) (s : EventIngestService l) (p : Text) (e : OtkEvent) (d : DetectorId)
      → admit s.gate p e ≡ drop d
      → append_event id id' s p e ≡ (
        record s { metrics = s.metrics ++ record_duplicate_dropped p d ∷ [] },
        ok dropped_duplicate,
      )
  unfolding append_event
  append_event-drop id id' s p e d h = rw (h, append_event) refl

  append_event_proceed :
      (id id' : CrossingId) (s : EventIngestService l) (p : Text) (e : OtkEvent)
      (pending : Option (ℕ × ℕ))
      → admit s.gate p e ≡ proceed pending
      → append_event id id' s p e ≡ persist_event id id' p e pending s
  unfolding append_event
  append_event_proceed id id' s p e pending h = rw (h, append_event) refl

  persist_event_err :
      (id id' : CrossingId) (p : Text) (e : OtkEvent) (pending : Option (ℕ × ℕ))
      (s : EventIngestService l) (x : StorageError)
      → let (log, result) = l.append p (e ∷ derive id s.processor e) s.log in
        result ≡ err x → persist_event id id' p e pending s ≡ (record s { log = log }, err x)
  unfolding persist_event
  persist_event_err id id' p e pending s x h = rw (h, persist_event) refl

  persist_event-KeptOnError :
      (id id' : CrossingId) (p : Text) (e : OtkEvent) (pending : Option (ℕ × ℕ))
      (s : EventIngestService l)
      → KeptOnError s (persist_event id id' p e pending s)
  unfolding persist_event
  persist_event-KeptOnError id id' p e pending s =
      elim (Result-cases (l.append p (e ∷ derive id s.processor e) s.log).1) [
        | inl (o, q) ↦ rw (q, persist_event, KeptOnError) tt
        | inr (x, q) ↦ subst (KeptOnError s) (sym (persist_event_err id id' p e pending s x q)) refl
      ]

  -- When the log fails, the gate, the grouping and the metrics are as before the call, so that a retry
  -- is decided and grouped as the first try was.
  pub append_event-KeptOnError :
      (id id' : CrossingId) (s : EventIngestService l) (p : Text) (e : OtkEvent)
      → KeptOnError s (append_event id id' s p e)
  append_event-KeptOnError id id' s p e = elim (Admission-cases (admit s.gate p e)) [
    | inl (d, h) ↦ subst (KeptOnError s) (sym (append_event-drop id id' s p e d h)) tt
    | inr (pending, h) ↦
        subst (KeptOnError s) (sym (append_event_proceed id id' s p e pending h))
          (persist_event-KeptOnError id id' p e pending s)
  ]

module _ (l : EventLog) (contents : l.Log → Contents) (v : IsEventLog l contents) where
  commit_event-log :
      (id : CrossingId) (p : Text) (e : OtkEvent) (pending : Option (ℕ × ℕ))
      (s : EventIngestService l)
      → (commit_event id p e pending s).log ≡ s.log
  unfolding commit_event
  commit_event-log id p (detection d) pending s = refl
  commit_event-log id p e pending s = refl

  persist_event-Effect :
      (id id' : CrossingId) (p : Text) (e : OtkEvent) (pending : Option (ℕ × ℕ))
      (s : EventIngestService l) (old : Bool)
      → old ≡ false
      → let r = persist_event id id' p e pending s in
        Effect (contents s.log) (stamp p (e ∷ derive id s.processor e)) old (contents r.0.log) r.1
  unfolding persist_event
  persist_event-Effect id id' p e pending s old fresh =
      let batch = e ∷ derive id s.processor e in
      elim (Result-cases (l.append p batch s.log).1) [
        | inl (o, h) ↦
            rw
              (
                h,
                persist_event,
                commit_event-log id' p e pending (record s { log = (l.append p batch s.log).0 }),
              )
              (v.append_ok p batch s.log o h, fresh)
        | inr (x, h) ↦ rw (h, persist_event) (v.append_err p batch s.log x h, fresh)
      ]

  pub append_event-Effect :
      (id id' : CrossingId) (s : EventIngestService l) (p : Text) (e : OtkEvent)
      → Represents s.gate (contents s.log)
      → let r = append_event id id' s p e in
        Effect
          (contents s.log)
          (stamp p (e ∷ derive id s.processor e))
          (stale p e (contents s.log))
          (contents r.0.log)
          r.1
  unfolding append_event
  append_event-Effect id id' s p e r =
      let same = admit-stale s.gate p e (contents s.log) r in
      elim (Admission-cases (admit s.gate p e)) [
        | inl (d, h) ↦
            subst
              (λ x.
                Effect (contents s.log) (stamp p (e ∷ derive id s.processor e))
                  (stale p e (contents s.log)) (contents x.0.log) x.1)
              (sym (append_event-drop id id' s p e d h)) (refl, ground (arith, same, ap admitted h))
        | inr (pending, h) ↦
            rw (h, append_event)
              (persist_event-Effect id id' p e pending s _ (ground (arith, same, ap admitted h)))
      ]

  commit_event-Represents :
      (id id' : CrossingId) (p : Text) (e : OtkEvent) (pending : Option (ℕ × ℕ))
      (s : EventIngestService l) (proc : CrossingProcessor) (c : Contents)
      → Represents s.gate c
      → Represents (commit_event id' p e pending s).gate (c ++ stamp p (e ∷ derive id proc e))
  unfolding commit_event
  commit_event-Represents id id' p (detection d) pending s proc c r k n = ground (
    arith,
    commit-covered s.gate p d k n,
    r k n,
    reached-append k n c (stamp p (detection d ∷ derive id proc (detection d))),
    derive-reached id proc p p (detection d) k n,
  )
  commit_event-Represents id id' p e pending s proc c r k n = ground (
    arith,
    r k n,
    reached-append k n c (stamp p (e ∷ derive id proc e)),
    derive-reached id proc p p e k n,
  )

  -- Whatever the log answers, the gate still represents the log after the call.
  pub append_event-Represents :
      (id id' : CrossingId) (s : EventIngestService l) (p : Text) (e : OtkEvent)
      → Represents s.gate (contents s.log)
      → let s' = (append_event id id' s p e).0 in Represents s'.gate (contents s'.log)
  unfolding append_event persist_event
  append_event-Represents id id' s p e r =
      let batch = e ∷ derive id s.processor e in
      elim (Admission-cases (admit s.gate p e)) [
        | inl (d, h) ↦ rw (h, append_event) r
        | inr (pending, h) ↦ elim (Result-cases (l.append p batch s.log).1) [
          | inl (o, q) ↦
              let s1 : EventIngestService l = record s { log = (l.append p batch s.log).0 } in
              rw (h, q, append_event, persist_event, commit_event-log id' p e pending s1)
                (subst (Represents (commit_event id' p e pending s1).gate)
                  (sym (v.append_ok p batch s.log o q))
                  (commit_event-Represents id id' p e pending s1 s.processor (contents s.log) r))
          | inr (x, q) ↦
              rw (h, q, append_event, persist_event)
                (subst (Represents s.gate) (sym (v.append_err p batch s.log x q)) r)
        ]
      ]
