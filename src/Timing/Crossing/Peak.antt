-- ===== src/Timing/Crossing/Peak.antt =====
-- timing-core/src/domain/crossing_processor.rs: the crossing that a group of detections becomes.
use otk_core.Prelude.{
  ℕ, suc, ◌+◌, ◌-◌, ◌≤◌, ◌≡◌, max, min, Option, none, some, List, [], ◌∷◌, arith, ltb,
  if◌then◌else◌, All, All-map, All-both, Bool-cases, inl, inr, get_elem?, ◌⊎◌, refl, sym, subst,
}
use otk_core.Prelude.Int.{ℤ, i16_min, ◌≤ℤ◌, leb_ℤ}
use otk_core.Event.{Detection, CrossingId, loop_transponder}
use otk_core.Timing.Crossing.Rssi.{
  Weaker, Stronger, Silent, rssi_key-reads, rssi_key-Weaker, has_rssi-Stronger, has_rssi-Silent,
}
use otk_core.Timing.Crossing.{
  PendingGroup, detections, has_rssi, rssi_key, max_by_rssi, min_by_time, pick_peak, first_at,
  last_at, widen, commit_group, first_detected_at_ns,
}

first_at-le : (t : ℕ) (ds : List Detection) → first_at t ds ≤ t
unfolding first_at
first_at-le t [] = omega arith
first_at-le t (d ∷ ds) = omega (arith, first_at-le (min t d.detected_at_ns) ds)

first_at-le_every : (t : ℕ) (ds : List Detection) → All (λ d. first_at t ds ≤ d.detected_at_ns) ds
unfolding first_at
first_at-le_every t [] = tt
first_at-le_every t (d ∷ ds) =
    let m = min t d.detected_at_ns in (omega (arith, first_at-le m ds), first_at-le_every m ds)

last_at-ge : (t : ℕ) (ds : List Detection) → t ≤ last_at t ds
unfolding last_at
last_at-ge t [] = omega arith
last_at-ge t (d ∷ ds) = omega (arith, last_at-ge (max t d.detected_at_ns) ds)

last_at-ge_every : (t : ℕ) (ds : List Detection) → All (λ d. d.detected_at_ns ≤ last_at t ds) ds
unfolding last_at
last_at-ge_every t [] = tt
last_at-ge_every t (d ∷ ds) =
    let m = max t d.detected_at_ns in (omega (arith, last_at-ge m ds), last_at-ge_every m ds)

-- The choice by signal is no weaker than any detection that it was made from.
max_by_rssi_start :
    (b : Detection) (ds : List Detection) → rssi_key b ≤ℤ rssi_key (max_by_rssi b ds)
unfolding max_by_rssi
max_by_rssi_start b [] = omega arith
max_by_rssi_start b (d ∷ ds) = elim (Bool-cases (leb_ℤ (rssi_key b) (rssi_key d))) [
  | inl up ↦ rw up (
      let above = max_by_rssi_start d ds in
      let step : rssi_key b ≤ℤ rssi_key d = ground arith in omega arith)
  | inr keep ↦ rw keep (max_by_rssi_start b ds)
]

max_by_rssi_every :
    (b : Detection) (ds : List Detection) → All (λ d. rssi_key d ≤ℤ rssi_key (max_by_rssi b ds)) ds
unfolding max_by_rssi
max_by_rssi_every b [] = tt
max_by_rssi_every b (d ∷ ds) =
    let next = if leb_ℤ (rssi_key b) (rssi_key d) then d else b in
    let kept : rssi_key d ≤ℤ rssi_key next = ground arith in
    let above = max_by_rssi_start next ds in (omega arith, max_by_rssi_every next ds)

-- The choice by time is no later than any of them.
min_by_time_start :
    (b : Detection) (ds : List Detection) → (min_by_time b ds).detected_at_ns ≤ b.detected_at_ns
unfolding min_by_time
min_by_time_start b [] = omega arith
min_by_time_start b (d ∷ ds) = ground (arith, min_by_time_start d ds, min_by_time_start b ds)

min_by_time_every :
    (b : Detection) (ds : List Detection)
    → All (λ d. (min_by_time b ds).detected_at_ns ≤ d.detected_at_ns) ds
unfolding min_by_time
min_by_time_every b [] = tt
min_by_time_every b (d ∷ ds) =
    let next = if ltb d.detected_at_ns b.detected_at_ns then d else b in
    let kept : next.detected_at_ns ≤ d.detected_at_ns = ground arith in
    let above = min_by_time_start next ds in (omega arith, min_by_time_every next ds)

-- What all detections of a group have, the chosen one has.
max_by_rssi-All :
    (P : Detection → Type 0) (b : Detection) (ds : List Detection)
    → P b
    → All P ds
    → P (max_by_rssi b ds)
unfolding max_by_rssi
max_by_rssi-All P b [] h all = h
max_by_rssi-All P b (d ∷ ds) h (hd, all) = elim (Bool-cases (leb_ℤ (rssi_key b) (rssi_key d))) [
  | inl up ↦ rw up (max_by_rssi-All P d ds hd all)
  | inr keep ↦ rw keep (max_by_rssi-All P b ds h all)
]

min_by_time-All :
    (P : Detection → Type 0) (b : Detection) (ds : List Detection)
    → P b
    → All P ds
    → P (min_by_time b ds)
unfolding min_by_time
min_by_time-All P b [] h all = h
min_by_time-All P b (d ∷ ds) h (hd, all) =
    elim (Bool-cases (ltb d.detected_at_ns b.detected_at_ns)) [
      | inl down ↦ rw down (min_by_time-All P d ds hd all)
      | inr keep ↦ rw keep (min_by_time-All P b ds h all)
    ]

pick_peak-All : (P : Detection → Type 0) (g : PendingGroup) → All P (detections g) → P (pick_peak g)
unfolding pick_peak
pick_peak-All P g (h, all) = elim (Bool-cases (has_rssi (detections g))) [
  | inl rssi ↦ rw rssi (max_by_rssi-All P g.first g.others h all)
  | inr plain ↦ rw plain (min_by_time-All P g.first g.others h all)
]

-- A detection that has the greatest RSSI of a group, or is the earliest one of a group without any.
abbrev pub Ranks : Detection → List Detection → Type 0
Ranks peak ds =
    ((r : ℤ) × (pulses : Option ℕ) × (peak.sensor ≡ loop_transponder (some r) pulses)
      × All (λ d. Weaker r d.sensor) ds)
    ⊎ (All (λ d. Silent d.sensor) ds × All (λ d. peak.detected_at_ns ≤ d.detected_at_ns) ds)

-- A member of a group that ranks first.
abbrev pub IsPeak : Detection → List Detection → Type 0
IsPeak peak ds = ((i : ℕ) × (get_elem? ds i ≡ some peak)) × Ranks peak ds

members : (ds : List Detection) → All (λ d. (i : ℕ) × (get_elem? ds i ≡ some d)) ds
members [] = tt
members (d ∷ ds) = ((0, refl), All-map (λ e (i, h). (suc i, h)) ds (members ds))

-- The peak of a group is a member of it. If some member reports an RSSI, the peak reports one, and no
-- member a greater; and if none does, no member is earlier than the peak. Every RSSI is taken to be
-- greater than the least i16.
pub pick_peak-IsPeak :
    (g : PendingGroup)
    → All (λ d. Stronger i16_min d.sensor) (detections g)
    → IsPeak (pick_peak g) (detections g)
unfolding pick_peak
pick_peak-IsPeak g above = (
  pick_peak-All (λ d. (i : ℕ) × (get_elem? (detections g) i ≡ some d)) g (members (detections g)),
  elim (Bool-cases (has_rssi (detections g))) [
    | inl rssi ↦
        let peak = max_by_rssi g.first g.others in
        let every : All (λ d. rssi_key d ≤ℤ rssi_key peak) (detections g) =
          (max_by_rssi_start g.first g.others, max_by_rssi_every g.first g.others) in
        let strong = has_rssi-Stronger (detections g) (rssi_key peak) rssi above every in
        let (r, pulses, reads, key) = rssi_key-reads peak strong in
        let made : pick_peak g ≡ peak = rw (rssi, pick_peak) refl in
        let weaker =
          All-map (λ d le. rssi_key-Weaker d r (subst (λ k. rssi_key d ≤ℤ k) key le)) (detections g)
            every in
        subst (λ p. Ranks p (detections g)) (sym made) (inl (r, pulses, reads, weaker))
    | inr plain ↦
        let first = min_by_time g.first g.others in
        let made : pick_peak g ≡ first = rw (plain, pick_peak) refl in
        let earliest : All (λ d. first.detected_at_ns ≤ d.detected_at_ns) (detections g) =
          (min_by_time_start g.first g.others, min_by_time_every g.first g.others) in
        subst (λ p. Ranks p (detections g)) (sym made)
          (inr (has_rssi-Silent (detections g) plain, earliest))
  ],
)

-- Does the uncertainty reach from the crossing's time to this time?
abbrev pub Reaches : ℕ → Option ℕ → ℕ → Type 0
Reaches at none t = t ≡ at
Reaches at (some u) t = (t ≤ at + u) × (at ≤ t + u)

widen-Reaches :
    (at lo hi t : ℕ) (u : Option ℕ)
    → lo ≤ at
    → at ≤ hi
    → lo ≤ t
    → t ≤ hi
    → Reaches at (widen u (hi - lo)) t
unfolding widen
widen-Reaches at lo hi t none a b c d = elim (Bool-cases (ltb 0 (hi - lo))) [
  | inl wide ↦ rw wide (omega arith, omega arith)
  | inr point ↦ rw point (ground arith)
]
widen-Reaches at lo hi t (some u) a b c d = elim (Bool-cases (ltb 0 (hi - lo))) [
  | inl wide ↦ rw wide (omega arith, omega arith)
  | inr point ↦ rw point (ground arith, ground arith)
]

-- The crossing of a group reaches every detection of it: a detection is no further from the crossing's
-- time than the crossing's uncertainty, and at that very time where the crossing has none.
pub commit_group-Reaches :
    (id : CrossingId) (g : PendingGroup)
    → let c = commit_group id g in
      All (λ d. Reaches c.crossed_at_ns c.crossed_at_uncertainty_ns d.detected_at_ns) (detections g)
unfolding commit_group
commit_group-Reaches id g =
    All-map (λ d h. widen-Reaches _ lo hi d.detected_at_ns _ peak.0 peak.1 h.0 h.1) (detections g)
      inside
  where
    start : ℕ
    start = first_detected_at_ns g

    lo : ℕ
    lo = first_at start g.others

    hi : ℕ
    hi = last_at start g.others

    inside : All (λ d. (lo ≤ d.detected_at_ns) × (d.detected_at_ns ≤ hi)) (detections g)
    inside = (
      (first_at-le start g.others, last_at-ge start g.others),
      All-both (λ d. lo ≤ d.detected_at_ns) (λ d. d.detected_at_ns ≤ hi) g.others
          (first_at-le_every start g.others) (last_at-ge_every start g.others),
    )

    peak : (lo ≤ (pick_peak g).detected_at_ns) × ((pick_peak g).detected_at_ns ≤ hi)
    peak = pick_peak-All (λ d. (lo ≤ d.detected_at_ns) × (d.detected_at_ns ≤ hi)) g inside
