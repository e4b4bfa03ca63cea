-- ===== src/Timing/Crossing/Rssi.antt =====
-- timing-core/src/domain/crossing_processor.rs: the RSSI of a group's detections.
use otk_core.Prelude.{
  ℕ, ◌≡◌, ◌⊎◌, refl, true, false, Option, none, some, List, [], ◌∷◌, arith, All, inl, inr, subst,
}
use otk_core.Prelude.Int.{ℤ, ◌≤ℤ◌, ◌<ℤ◌, i16_min}
use otk_core.Event.{Detection, SensorData, loop_transponder, beam_break, manual}
use otk_core.Timing.Crossing.{rssi_of, has_rssi, rssi_key}

-- Is the sensor's RSSI, if it reports one, no greater than this one?
abbrev pub Weaker : ℤ → SensorData → Type 0
Weaker r (loop_transponder (some x) pulses) = x ≤ℤ r
Weaker r _ = Unit {0}

-- Is the sensor's RSSI, if it reports one, greater than this one?
abbrev pub Stronger : ℤ → SensorData → Type 0
Stronger r (loop_transponder (some x) pulses) = r <ℤ x
Stronger r _ = Unit {0}

abbrev pub Silent : SensorData → Type 0
Silent (loop_transponder (some x) pulses) = ⊥
Silent _ = Unit {0}

-- A sensor reports an RSSI or does not.
rssi_of-cases :
    (s : SensorData)
    → ((r : ℤ) × (pulses : Option ℕ) × (s ≡ loop_transponder (some r) pulses))
      ⊎ ((rssi_of s ≡ none) × Silent s)
unfolding rssi_of
rssi_of-cases (loop_transponder (some r) pulses) = inl (r, pulses, refl)
rssi_of-cases (loop_transponder none pulses) = inr (refl, tt)
rssi_of-cases beam_break = inr (refl, tt)
rssi_of-cases (manual operator) = inr (refl, tt)

-- A key above the least is an RSSI that was reported.
pub rssi_key-reads :
    (d : Detection)
    → i16_min <ℤ rssi_key d
    → (r : ℤ) × (pulses : Option ℕ) × (d.sensor ≡ loop_transponder (some r) pulses)
      × (rssi_key d ≡ r)
unfolding rssi_key rssi_of
rssi_key-reads d h = elim (rssi_of-cases d.sensor) [
  | inl (r, pulses, q) ↦ (r, pulses, q, rw q refl)
  | inr (q, silent) ↦ absurd (omega (arith, rw (q, rssi_key) at h))
]

pub rssi_key-Weaker : (d : Detection) (r : ℤ) → rssi_key d ≤ℤ r → Weaker r d.sensor
unfolding rssi_key rssi_of
rssi_key-Weaker d r h = go d.sensor refl
  where
    go : (s : SensorData) → d.sensor ≡ s → Weaker r s
    go (loop_transponder (some x) pulses) q = rw (q, rssi_key) at h
    go (loop_transponder none pulses) q = tt
    go beam_break q = tt
    go (manual operator) q = tt

pub has_rssi-Silent : (ds : List Detection) → has_rssi ds ≡ false → All (λ d. Silent d.sensor) ds
unfolding has_rssi rssi_of
has_rssi-Silent [] h = tt
has_rssi-Silent (d ∷ ds) h = elim (rssi_of-cases d.sensor) [
  | inl (r, pulses, q) ↦ absurd (cc (rw (q, has_rssi) at h))
  | inr (q, silent) ↦ (silent, has_rssi-Silent ds (rw (q, has_rssi) at h))
]

pub has_rssi-Stronger :
    (ds : List Detection) (k : ℤ)
    → has_rssi ds ≡ true
    → All (λ d. Stronger i16_min d.sensor) ds
    → All (λ d. rssi_key d ≤ℤ k) ds
    → i16_min <ℤ k
unfolding has_rssi rssi_of rssi_key
has_rssi-Stronger [] k h above every = absurd (cc)
has_rssi-Stronger (d ∷ ds) k h (up, above) (le, every) = elim (rssi_of-cases d.sensor) [
  | inl (r, pulses, q) ↦
      let high : i16_min <ℤ r = subst (Stronger i16_min) q up in
      let below : r ≤ℤ k = rw (q, rssi_key) at le in omega arith
  | inr (q, silent) ↦ has_rssi-Stronger ds k (rw (q, has_rssi) at h) above every
]
