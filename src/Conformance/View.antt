-- ===== src/Conformance/View.antt =====
-- conformance/src/mem_log.rs: the methods of the log in memory have the documented results.
use otk_core.Prelude.{
  ℕ, ◌+◌, ◌-◌, ◌≤◌, ◌<◌, ◌≡◌, ◌⊎◌, inl, inr, refl, ap, ◌∙◌, false, Option, none, some, List, [],
  ◌∷◌, Text, ok, ltb, length, take, drop, drop-append_le, drop-drop, drop_all, take_all,
  length-append, length-drop, arith, Bool-cases, Option-cases, ◌==◌,
}
use otk_core.Event.{OtkEvent}
use otk_core.Timing.Storage.{LogEntry}
use otk_core.Timing.Storage.Select.{select, select-drop, select-take}
use otk_core.Timing.Storage.Contract.{
  View, within, expected_read, expected_earliest, expected_latest, Appended,
}
use otk_core.Conformance.Contract.{IsMem, low, contents_of-new_entries}
use otk_core.Conformance.Offsets.{length-new_entries, new_entries-Numbered, read_range_kept}
use otk_core.Conformance.{
  MemLog, earliest_available_offset, new_entries, append, evicted, to_index, read_range,
  latest_offset, earliest_offset,
}

abbrev pub view : MemLog → View
view m = record { first = low m; next = length m.entries; retained = drop (low m) m.entries }

append-Appended :
    (now : ℕ → ℕ) (p : Text) (es : List OtkEvent) (m : MemLog)
    → IsMem m
    → Appended (view m) p es (view (append now p es m).0) (append now p es m).1
unfolding append
append-Appended now p [] m h = (refl, inl refl, _, refl)
append-Appended now [] (e ∷ es) m h = (refl, inr refl, _, refl)
append-Appended now (c ∷ p) (e ∷ es) m h =
    let start = length m.entries in
    let fresh = new_entries now start (c ∷ p) (e ∷ es) in
    let size = length-append m.entries fresh in
    let count = length-new_entries now start (c ∷ p) (e ∷ es) in
    (
      omega arith,
      omega arith,
      refl,
      omega arith,
      omega arith,
      fresh,
      drop-append_le (low m) m.entries fresh h,
      new_entries-Numbered now start (c ∷ p) (e ∷ es),
      contents_of-new_entries now start (c ∷ p) (e ∷ es),
    )

latest_offset-expected : (m : MemLog) → IsMem m → latest_offset m ≡ ok (expected_latest (view m))
unfolding latest_offset earliest_available_offset
latest_offset-expected m h = go m.entries m.earliest_retained h
  where
    go :
        (es : List LogEntry) (r : Option ℕ)
        → IsMem (record { entries = es; earliest_retained = r })
        → latest_offset (record { entries = es; earliest_retained = r })
          ≡ ok (expected_latest (view (record { entries = es; earliest_retained = r })))
    go [] none h = refl
    go [] (some r) h = ground arith
    go (e ∷ es) none h = ground arith
    go (e ∷ es) (some r) h = elim (Bool-cases (ltb r (length (e ∷ es)))) [
      | inl y ↦ rw y (ground arith)
      | inr y ↦ rw y (ground arith)
    ]

earliest_offset-expected :
    (m : MemLog) → IsMem m → earliest_offset m ≡ ok (expected_earliest (view m))
unfolding earliest_offset earliest_available_offset
earliest_offset-expected m h = go m.entries m.earliest_retained h
  where
    go :
        (es : List LogEntry) (r : Option ℕ)
        → IsMem (record { entries = es; earliest_retained = r })
        → earliest_offset (record { entries = es; earliest_retained = r })
          ≡ ok (expected_earliest (view (record { entries = es; earliest_retained = r })))
    go [] none h = refl
    go [] (some r) h = ground arith
    go (e ∷ es) none h = ground arith
    go (e ∷ es) (some r) h = ground arith

-- The place of a read that is not refused, and the refusal.
evicted-cases :
    (m : MemLog) (from : ℕ)
    → ((evicted m from ≡ none) × (low m ≤ from))
      ⊎ ((evicted m from ≡ some (low m)) × (from < low m))
unfolding evicted
evicted-cases m from = elim (Option-cases m.earliest_retained) [
  | inl q ↦ rw q (inl (refl, omega arith))
  | inr (e, q) ↦ rw q (elim (Bool-cases (ltb from e)) [
    | inl y ↦ rw y (inr (refl, ground arith))
    | inr y ↦ rw y (inl (refl, ground arith))
  ])
]

-- The entries of a range, by their offsets and by their places.
select-within :
    (from n : ℕ) (to : Option ℕ) (xs : List LogEntry)
    → n ≤ from
    → select (within from to) n xs ≡ take (to_index to (n + length xs) - from) (drop (from - n) xs)
unfolding to_index
select-within from n to xs h =
    select-drop (from - n) n from (within from to) xs (omega arith) (before to)
    ∙ select-take (to_index to (n + length xs) - from) from (within from to) (drop (from - n) xs)
        (inside to)
  where
    size : length (drop (from - n) xs) ≡ length xs - (from - n)
    size = length-drop (from - n) xs

    before : (t : Option ℕ) (i : ℕ) → n ≤ i → i < from → within from t i ≡ false
    before none i a b = ground arith
    before (some t) i a b = ground arith

    inside :
        (t : Option ℕ) (i : ℕ)
        → from ≤ i
        → i < from + length (drop (from - n) xs)
        → within from t i ≡ ltb i (from + (to_index t (n + length xs) - from))
    inside none i a b = ground (arith, size)
    inside (some t) i a b = ground (arith, size)

read_range-expected :
    (from : ℕ) (to : Option ℕ) (m : MemLog)
    → IsMem m
    → (low m < length m.entries) ⊎ (from < length m.entries) ⊎ (length m.entries ≡ 0)
    → read_range from to m ≡ expected_read (view m) from to
unfolding read_range earliest_available_offset
read_range-expected from to m h held = elim (evicted-cases m from) [
  | inl (kept, le) ↦
      let size : low m + length (drop (low m) m.entries) ≡ length m.entries =
        omega (arith, length-drop (low m) m.entries) in
      let place : low m + (from - low m) ≡ from = omega arith in
      let found =
        select-within from (low m) to (drop (low m) m.entries) le
        ∙ ap (λ k. take (to_index to k - from) (drop (from - low m) (drop (low m) m.entries))) size
        ∙ ap (take (to_index to (length m.entries) - from))
            (drop-drop (from - low m) (low m) m.entries ∙ ap (λ k. drop k m.entries) place) in
      read_range_kept from to m kept ∙ elim (Bool-cases (length m.entries == 0)) [
        | inl empty ↦
            let none_left = drop_all from m.entries (ground arith) in
            let k = to_index to (length m.entries) - from in
            rw (empty, none_left) (ap ok (take_all k [] (omega arith)))
        | inr filled ↦ rw (← found) (ground (arith, filled, held))
      ]
  | inr (gone, lt) ↦ rw (gone, read_range) (ground arith)
]

-- A log in memory whose boundary is not past its end does what its methods are documented to do. An
-- append adds its batch with the next offsets and returns the last, or refuses an empty batch or
-- producer and adds nothing; a read gives the entries of its range, or the retention error; and the
-- queries give the first and the last offset that is retained. The read is one from before the end of
-- the log, or of a log that retains an entry or never held any.
pub mem_log-expected :
    (now : ℕ → ℕ) (p : Text) (es : List OtkEvent) (from : ℕ) (to : Option ℕ) (m : MemLog)
    → IsMem m
    → (low m < length m.entries) ⊎ (from < length m.entries) ⊎ (length m.entries ≡ 0)
    → Appended (view m) p es (view (append now p es m).0) (append now p es m).1
      × (read_range from to m ≡ expected_read (view m) from to)
      × (latest_offset m ≡ ok (expected_latest (view m)))
      × (earliest_offset m ≡ ok (expected_earliest (view m)))
mem_log-expected now p es from to m h held = (
  append-Appended now p es m h,
  read_range-expected from to m h held,
  latest_offset-expected m h,
  earliest_offset-expected m h,
)
