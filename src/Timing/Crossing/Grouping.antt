-- ===== src/Timing/Crossing/Grouping.antt =====
-- timing-core/src/domain/crossing_processor.rs: the pending groups.
use otk_core.Prelude.{
  ◌+◌, ◌-◌, ◌≤◌, ltb, ◌≡◌, refl, sym, Option, none, some, [], ◌∷◌, ◌++◌, arith, All, All-snoc,
  Bool-cases, Option-cases, inl, inr, subst,
}
use otk_core.Prelude.Map.{Key, key_eq, key_eq_iff, Map, lookup, insert, remove}
use otk_core.Event.{CrossingId, Detection}
use otk_core.Timing.Crossing.{
  ProcessorConfig, PendingGroup, detections, alone, commit_group, CrossingProcessor, outside_window,
  beyond_window, peek_group, peek_detection, add_to_group, commit_detection, first_detected_at_ns,
}

-- The peek returns the crossings that the commit with the same id returns.
pub peek_detection_commit :
    (id : CrossingId) (p : CrossingProcessor) (d : Detection)
    → peek_detection id p d ≡ (commit_detection id p d).1
unfolding peek_detection commit_detection peek_group add_to_group outside_window beyond_window
peek_detection_commit id p d = elim (Option-cases d.subject_id) [
  | inl alone ↦ rw (alone, peek_detection, commit_detection) refl
  | inr (s, q) ↦ elim (Option-cases (lookup (d.timing_point_id, s) p.pending)) [
    | inl absent ↦ rw (q, absent, peek_detection, commit_detection) refl
    | inr (g, found) ↦
        let late = ltb p.config.grouping_window_ns (d.detected_at_ns - first_detected_at_ns g) in
        elim (Bool-cases late) [
          | inl old ↦ rw (q, found, old, peek_detection, commit_detection) refl
          | inr near ↦ rw (q, found, near, peek_detection, commit_detection) refl
        ]
  ]
]

-- A group's detections are of its key, and none is more than the window after the first.
abbrev pub IsGroup : ProcessorConfig → Key → PendingGroup → Type 0
IsGroup config key g =
    All
      (λ d.
        (d.timing_point_id ≡ key.0)
        × (d.subject_id ≡ some key.1)
        × (d.detected_at_ns ≤ first_detected_at_ns g + config.grouping_window_ns))
      (detections g)

abbrev pub IsGrouped : CrossingProcessor → Type 0
IsGrouped p = All (λ x. IsGroup p.config x.0 x.1) p.pending

module _ {V : Type 0} (P : Key × V → Type 0) where
  All-insert : (k : Key) (v : V) (m : Map V) → P (k, v) → All P m → All P (insert k v m)
  unfolding insert
  All-insert k v [] h all = (h, tt)
  All-insert k v ((j, w) ∷ m) h all = elim (Bool-cases (key_eq j k)) [
    | inl same ↦ rw (same, insert) (h, all.1)
    | inr other ↦ rw (other, insert) (all.0, All-insert k v m h all.1)
  ]

  All-remove : (k : Key) (m : Map V) → All P m → All P (remove k m)
  unfolding remove
  All-remove k [] all = tt
  All-remove k ((j, w) ∷ m) all = elim (Bool-cases (key_eq j k)) [
    | inl same ↦ rw (same, remove) (All-remove k m all.1)
    | inr other ↦ rw (other, remove) (all.0, All-remove k m all.1)
  ]

  All-lookup : (k : Key) (v : V) (m : Map V) → lookup k m ≡ some v → All P m → P (k, v)
  unfolding lookup
  All-lookup k v [] h all = absurd (cc)
  All-lookup k v ((j, w) ∷ m) h all = elim (Bool-cases (key_eq j k)) [
    | inl same ↦
        let e : j ≡ k = (key_eq_iff j k).0 same in
        let found : some w ≡ some v = rw (same, lookup) at h in
        let f : w ≡ v = cc in subst (λ x. P (k, x)) f (subst (λ x. P (x, w)) e all.0)
    | inr other ↦ All-lookup k v m (rw (other, lookup) at h) all.1
  ]

add_to_group-IsGrouped :
    (id : CrossingId) (p : CrossingProcessor) (key : Key) (d : Detection)
    (found : Option PendingGroup)
    → d.timing_point_id ≡ key.0
    → d.subject_id ≡ some key.1
    → lookup key p.pending ≡ found
    → IsGrouped p
    → IsGrouped (add_to_group id p key d found).0
unfolding add_to_group beyond_window
add_to_group-IsGrouped id p key d none t s e h =
    All-insert (λ x. IsGroup p.config x.0 x.1) key (alone d) p.pending ((t, s, omega arith), tt) h
add_to_group-IsGrouped id p key d (some g) t s e h =
    let P : Key × PendingGroup → Type 0 = λ x. IsGroup p.config x.0 x.1 in
    elim (Bool-cases (beyond_window p d (some g))) [
      | inl old ↦
          let made : add_to_group id p key d (some g) ≡ (
            record p { pending = insert key (alone d) (remove key p.pending) },
            commit_group id g ∷ [],
          ) =
            rw (old, add_to_group) refl in
          subst (λ x. IsGrouped x.0) (sym made)
            (All-insert P key (alone d) (remove key p.pending) ((t, s, omega arith), tt)
              (All-remove P key p.pending h))
      | inr near ↦
          let grown : PendingGroup = record g { others = g.others ++ d ∷ [] } in
          let made : add_to_group id p key d (some g)
              ≡ (record p { pending = insert key grown p.pending }, []) =
            rw (near, add_to_group) refl in
          let was = All-lookup P key g p.pending e h in
          let inside : d.detected_at_ns ≤ first_detected_at_ns g + p.config.grouping_window_ns =
            ground arith in
          subst (λ x. IsGrouped x.0) (sym made)
            (All-insert P key grown p.pending (was.0, All-snoc _ g.others d was.1 (t, s, inside)) h)
    ]

-- If in every pending group all detections have the timing point and the subject of its key, and none
-- is later than the first to arrive by more than the window, then the same holds after the
-- processor has taken in any detection.
pub commit_detection-IsGrouped :
    (id : CrossingId) (p : CrossingProcessor) (d : Detection)
    → IsGrouped p
    → IsGrouped (commit_detection id p d).0
unfolding commit_detection
commit_detection-IsGrouped id p d h = elim (Option-cases d.subject_id) [
  | inl absent ↦
      let made : commit_detection id p d ≡ (p, commit_group id (alone d) ∷ []) =
        simp (absent, commit_detection) refl in
      subst (λ x. IsGrouped x.0) (sym made) h
  | inr (s, q) ↦
      let key : Key = (d.timing_point_id, s) in
      let made : commit_detection id p d ≡ add_to_group id p key d (lookup key p.pending) =
        simp (q, commit_detection) refl in
      subst (λ x. IsGrouped x.0) (sym made)
        (add_to_group-IsGrouped id p key d (lookup key p.pending) refl q refl h)
]
