-- ===== src/Timing/Gate/Deliveries.antt =====
-- timing-core/src/domain/sequence_gate.rs: what a sequence of deliveries does to the gate.
use otk_core.Prelude.{
  ℕ, ◌+◌, ◌≤◌, ◌<◌, ◌≡◌, refl, ap, ◌∙◌, Bool, true, false, not, ◌||◌, Option, none, some, List, [],
  ◌∷◌, Text, arith, ok, leb, All, All-map, u64_max, ◌==◌, leb→le, ltb, Bool-cases, inl, inr,
  if◌then◌else◌,
}
use otk_core.Prelude.Map.{key_eq, key_eq_iff, lookup}
use otk_core.Event.{Detection}
use otk_core.Timing.Storage.{Contents, EventLog, IsEventLog}
use otk_core.Timing.Gate.{
  GateDecision, accept, advance, gap, duplicate, persist, SequenceGate, new, key_of, decide, peek,
  check, seed_from_log,
}
use otk_core.Timing.Gate.HighWater.{
  covered, reached, commit-covered, peek-covered, seed_from_log-Represents,
}

abbrev pub Delivery : Type 0
Delivery = Text × Detection

-- `check` on each delivery, with the deliveries that are to be persisted.
unfoldable pub check_all : SequenceGate → List Delivery → SequenceGate × List Delivery
check_all gate [] = (gate, [])
check_all gate ((p, d) ∷ ds) =
    let (g1, decision) = check gate p d in
    let (g2, kept) = check_all g1 ds in (g2, if persist decision then (p, d) ∷ kept else kept)

abbrev knows : SequenceGate → Delivery → Bool
knows gate (p, d) = covered (lookup (key_of p d) gate.high_water) d.sequence_number

-- Is the second delivery of another key, or of a greater sequence number?
abbrev pub in_order : Delivery → Delivery → Bool
in_order (p, d) (q, e) =
    not (key_eq (key_of p d) (key_of q e)) || ltb d.sequence_number e.sequence_number

-- Deliveries of one key come in the order of their sequence numbers, none twice.
abbrev pub Increasing : List Delivery → Type 0
Increasing [] = Unit {0}
Increasing ((p, d) ∷ ds) = All (λ x. in_order (p, d) x ≡ true) ds × Increasing ds

check-knows_more :
    (gate : SequenceGate) (p : Text) (d : Detection) (x : Delivery)
    → knows gate x ≡ true
    → knows (check gate p d).0 x ≡ true
unfolding check
check-knows_more gate p d (q, e) h =
    ground (arith, commit-covered gate p d (key_of q e) e.sequence_number)

check-knows :
    (gate : SequenceGate) (p : Text) (d : Detection) → knows (check gate p d).0 (p, d) ≡ true
unfolding check
check-knows gate p d = ground (
  arith,
  commit-covered gate p d (key_of p d) d.sequence_number,
  peek-covered gate p d,
  key_eq_iff (key_of p d) (key_of p d),
)

check_all-knows_more :
    (gate : SequenceGate) (ds : List Delivery) (x : Delivery)
    → knows gate x ≡ true
    → knows (check_all gate ds).0 x ≡ true
unfolding check_all
check_all-knows_more gate [] x h = h
check_all-knows_more gate ((p, d) ∷ ds) x h =
    check_all-knows_more (check gate p d).0 ds x (check-knows_more gate p d x h)

check_all-knows :
    (gate : SequenceGate) (ds : List Delivery) → All (λ x. knows (check_all gate ds).0 x ≡ true) ds
unfolding check_all
check_all-knows gate [] = tt
check_all-knows gate ((p, d) ∷ ds) = (
  check_all-knows_more (check gate p d).0 ds (p, d) (check-knows gate p d),
  check_all-knows (check gate p d).0 ds,
)

-- What is kept was unknown to the gate before.
check_all-fresh :
    (gate : SequenceGate) (ds : List Delivery)
    → All (λ x. knows gate x ≡ false) (check_all gate ds).1
unfolding check_all
check_all-fresh gate [] = tt
check_all-fresh gate ((p, d) ∷ ds) =
    let rest =
      All-map (λ x h. unknown_before gate p d x h) (check_all (check gate p d).0 ds).1
        (check_all-fresh (check gate p d).0 ds) in
    elim (Bool-cases (persist (check gate p d).1)) [
      | inl kept ↦ rw kept (was_unknown kept, rest)
      | inr dropped ↦ rw dropped rest
    ]
  where
    unknown_before :
        (gate : SequenceGate) (p : Text) (d : Detection) (x : Delivery)
        → knows (check gate p d).0 x ≡ false
        → knows gate x ≡ false
    unknown_before gate p d x h = ground (arith, check-knows_more gate p d x)

    was_unknown : persist (check gate p d).1 ≡ true → knows gate (p, d) ≡ false
    was_unknown h = unfold check in ground (arith, peek-covered gate p d)

-- What a kept detection leaves unknown under its own key is greater.
above :
    (gate : SequenceGate) (p : Text) (d : Detection) (x : Delivery)
    → persist (check gate p d).1 ≡ true
    → knows (check gate p d).0 x ≡ false
    → in_order (p, d) x ≡ true
unfolding check
above gate p d (q, e) kept h =
    ground (arith, commit-covered gate p d (key_of q e) e.sequence_number)

-- Of any deliveries, those that the gate lets through have, for each producer and detector, strictly
-- increasing sequence numbers, so none is persisted twice.
pub check_all-Increasing :
    (gate : SequenceGate) (ds : List Delivery) → Increasing (check_all gate ds).1
unfolding check_all
check_all-Increasing gate [] = tt
check_all-Increasing gate ((p, d) ∷ ds) =
    let rest = check_all-Increasing (check gate p d).0 ds in
    elim (Bool-cases (persist (check gate p d).1)) [
      | inl kept ↦
          rw kept
            (All-map (λ x. above gate p d x kept) _ (check_all-fresh (check gate p d).0 ds), rest)
      | inr dropped ↦ rw dropped rest
    ]

-- Once deliveries were made, each of them, made again, is a duplicate, and changes nothing.
pub check_all_again :
    (gate : SequenceGate) (ds : List Delivery)
    → let g = (check_all gate ds).0 in
      All (λ x. (persist (check g x.0 x.1).1 ≡ false) × ((check g x.0 x.1).0 ≡ g)) ds
check_all_again gate ds =
    All-map (λ x h. refused (check_all gate ds).0 x h) ds (check_all-knows gate ds)
  where
    refused :
        (g : SequenceGate) (x : Delivery)
        → knows g x ≡ true
        → (persist (check g x.0 x.1).1 ≡ false) × ((check g x.0 x.1).0 ≡ g)
    refused g (p, d) h =
        unfold check in (ground (arith, peek-covered g p d), ground (arith, peek-covered g p d))

-- After a restart the seeded gate lets a detection through exactly if the log holds none of its
-- producer and detector with the same or a greater sequence number. The log is taken to meet its
-- contract, and the seeding to succeed.
pub seed_from_log-peek :
    (l : EventLog) (contents : l.Log → Contents) (v : IsEventLog l contents) (s : l.Log) (n : ℕ)
    (p : Text) (d : Detection)
    → (seed_from_log l new s).2 ≡ ok n
    → persist (peek (seed_from_log l new s).1 p d)
      ≡ not (reached (key_of p d) d.sequence_number (contents s))
seed_from_log-peek l contents v s n p d h =
    peek-covered (seed_from_log l new s).1 p d
    ∙ ap not (seed_from_log-Represents l contents v s n h (key_of p d) d.sequence_number)

-- What each decision says of the mark and of the sequence number that it was made on.
abbrev pub Explains : Option ℕ → ℕ → GateDecision → Type 0
Explains mark seq accept = mark ≡ none
Explains mark seq (advance hw) = (mark ≡ some hw) × (seq ≡ hw + 1) × (hw + 1 ≤ u64_max)
Explains mark seq (gap expected got) =
    (hw : ℕ) × (mark ≡ some hw)
    × (expected ≡ hw + 1)
    × (expected ≤ u64_max)
    × (got ≡ seq)
    × (expected < got)
Explains mark seq (duplicate hw got) = (mark ≡ some hw) × (got ≡ seq) × (got ≤ hw)

decide-Explains : (mark : Option ℕ) (seq : ℕ) → seq ≤ u64_max → Explains mark seq (decide mark seq)
unfolding decide
decide-Explains none seq h = refl
decide-Explains (some hw) seq h = elim (Bool-cases (leb seq hw)) [
  | inl old ↦ rw old (refl, refl, leb→le seq hw old)
  | inr newer ↦ elim (Bool-cases (seq == hw + 1)) [
    | inl next ↦ rw (newer, next) (refl, ground arith, ground arith)
    | inr skips ↦ rw (newer, skips) (hw, refl, refl, ground arith, refl, ground arith)
  ]
]

-- For a u64 sequence number, the decision names the mark that it was made against, the increment in it
-- does not overflow, and in a gap the number received is above the expected one.
pub peek-Explains :
    (gate : SequenceGate) (p : Text) (d : Detection)
    → d.sequence_number ≤ u64_max
    → Explains (lookup (key_of p d) gate.high_water) d.sequence_number (peek gate p d)
unfolding peek
peek-Explains gate p d h = decide-Explains (lookup (key_of p d) gate.high_water) d.sequence_number h
