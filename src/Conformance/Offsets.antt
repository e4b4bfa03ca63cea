-- ===== src/Conformance/Offsets.antt =====
-- conformance/src/mem_log.rs: the offsets that the log in memory gives out and finds again.
use otk_core.Prelude.{
  ℕ, zero, suc, ◌+◌, ◌-◌, ◌≤◌, ◌≡◌, refl, sym, Option, none, some, List, [], ◌∷◌, ◌++◌, Text, ok,
  leb, length, take, drop, length-append, length-take, length-drop, drop-length_append, take_all,
  ok_inj, arith, min, Bool-cases, Option-cases, inl, inr, subst,
}
use otk_core.Event.{OtkEvent}
use otk_core.Timing.Storage.{LogEntry}
use otk_core.Timing.Storage.Contract.{Numbered}
use otk_core.Conformance.Contract.{IsMem}
use otk_core.Conformance.{MemLog, new_entries, append, evicted, to_index, read_range}

Numbered-drop : (k n : ℕ) (es : List LogEntry) → Numbered n es → Numbered (n + k) (drop k es)
Numbered-drop zero n es h = let e : n ≡ n + 0 = omega arith in subst (λ x. Numbered x es) e h
Numbered-drop (suc k) n [] h = tt
Numbered-drop (suc k) n (e ∷ es) h =
    let shift : n + 1 + k ≡ n + suc k = omega arith in
    subst (λ x. Numbered x (drop k es)) shift (Numbered-drop k (n + 1) es h.1)

Numbered-take : (k n : ℕ) (es : List LogEntry) → Numbered n es → Numbered n (take k es)
Numbered-take zero n es h = tt
Numbered-take (suc k) n [] h = tt
Numbered-take (suc k) n (e ∷ es) h = (h.0, Numbered-take k (n + 1) es h.1)

Numbered-append :
    (n : ℕ) (es fs : List LogEntry)
    → Numbered n es
    → Numbered (n + length es) fs
    → Numbered n (es ++ fs)
Numbered-append n [] fs h k = let e : n + 0 ≡ n = omega arith in subst (λ x. Numbered x fs) e k
Numbered-append n (e ∷ es) fs h k =
    let shift : n + suc (length es) ≡ n + 1 + length es = omega arith in
    (h.0, Numbered-append (n + 1) es fs h.1 (subst (λ x. Numbered x fs) shift k))

pub new_entries-Numbered :
    (now : ℕ → ℕ) (start : ℕ) (p : Text) (es : List OtkEvent)
    → Numbered start (new_entries now start p es)
unfolding new_entries
new_entries-Numbered now start p [] = tt
new_entries-Numbered now start p (e ∷ es) = (refl, new_entries-Numbered now (start + 1) p es)

pub length-new_entries :
    (now : ℕ → ℕ) (start : ℕ) (p : Text) (es : List OtkEvent)
    → length (new_entries now start p es) ≡ length es
unfolding new_entries
length-new_entries now start p [] = refl
length-new_entries now start p (e ∷ es) = omega (arith, length-new_entries now (start + 1) p es)

-- If the entries are numbered from 0 on, they are after an append, whatever its result.
pub append-Numbered :
    (now : ℕ → ℕ) (p : Text) (es : List OtkEvent) (m : MemLog)
    → Numbered 0 m.entries
    → Numbered 0 (append now p es m).0.entries
unfolding append
append-Numbered now p [] m h = h
append-Numbered now [] (e ∷ es) m h = h
append-Numbered now (c ∷ p) (e ∷ es) m h =
    let shift : length m.entries ≡ 0 + length m.entries = omega arith in
    Numbered-append 0 m.entries (new_entries now (length m.entries) (c ∷ p) (e ∷ es)) h (
      subst (λ x. Numbered x (new_entries now (length m.entries) (c ∷ p) (e ∷ es))) shift
        (new_entries-Numbered now (length m.entries) (c ∷ p) (e ∷ es)))

to_index-le : (to : Option ℕ) (n : ℕ) → to_index to n ≤ n
unfolding to_index
to_index-le none n = omega arith
to_index-le (some t) n = omega arith

pub read_range_kept :
    (from : ℕ) (to : Option ℕ) (m : MemLog)
    → evicted m from ≡ none
    → read_range from to m ≡ ok (take (to_index to (length m.entries) - from) (drop from m.entries))
unfolding read_range
read_range_kept from to m q =
    let len = length m.entries in
    let bound = to_index-le to len in
    elim (Bool-cases (leb len from)) [
      | inl past ↦
          let nothing : to_index to len - from ≡ 0 = ground arith in
          rw (q, past, nothing, read_range) refl
      | inr inside ↦ elim (Bool-cases (leb (to_index to len) from)) [
        | inl empty ↦
            let nothing : to_index to len - from ≡ 0 = ground arith in
            rw (q, inside, empty, nothing, read_range) refl
        | inr some_left ↦ rw (q, inside, some_left, read_range) refl
      ]
    ]

read_range_ok :
    (from : ℕ) (to : Option ℕ) (m : MemLog) (es : List LogEntry)
    → read_range from to m ≡ ok es
    → es ≡ take (to_index to (length m.entries) - from) (drop from m.entries)
unfolding read_range
read_range_ok from to m es h = elim (Option-cases (evicted m from)) [
  | inr (e, q) ↦ absurd (cc (rw (q, read_range) at h))
  | inl q ↦ ok_inj h (read_range_kept from to m q)
]

-- The number of offsets from one to the end of a range or of the log.
abbrev pub Spans : ℕ → Option ℕ → ℕ → ℕ → Type 0
Spans from none len n = n ≡ len - from
Spans from (some to) len n = n ≡ min to len - from

to_index-Spans :
    (from : ℕ) (to : Option ℕ) (len n : ℕ) → n ≡ to_index to len - from → Spans from to len n
unfolding to_index
to_index-Spans from none len n h = h
to_index-Spans from (some to) len n h = h

-- In a log whose entries are numbered from 0 on, a read that succeeds returns entries numbered from its
-- start on, one for each offset from there to the end of the log or, where the read has an end, to
-- that or the end of the log, whichever is first.
pub read_range-Numbered :
    (from : ℕ) (to : Option ℕ) (m : MemLog) (es : List LogEntry)
    → Numbered 0 m.entries
    → read_range from to m ≡ ok es
    → Numbered from es × Spans from to (length m.entries) (length es)
read_range-Numbered from to m es h r =
    let k = to_index to (length m.entries) - from in
    let same = read_range_ok from to m es r in
    let start : 0 + from ≡ from = omega arith in
    let front : Numbered from (drop from m.entries) =
      subst (λ x. Numbered x (drop from m.entries)) start (Numbered-drop from 0 m.entries h) in
    subst (λ x. Numbered from x × Spans from to (length m.entries) (length x)) (sym same)
      (
        Numbered-take k from (drop from m.entries) front,
        to_index-Spans from to (length m.entries) _ (
            omega (
              arith,
              length-take k (drop from m.entries),
              length-drop from m.entries,
              to_index-le to (length m.entries),
            )),
      )

-- What an append added is what a read from the old end of the log returns, in a log whose boundary is
-- not past its end; and the offset that it returned is the last one.
pub append-read_range :
    (now : ℕ → ℕ) (p : Text) (es : List OtkEvent) (m : MemLog) (o : ℕ)
    → IsMem m
    → (append now p es m).1 ≡ ok o
    → (read_range (length m.entries) none (append now p es m).0
        ≡ ok (new_entries now (length m.entries) p es))
      × (o + 1 ≡ length (append now p es m).0.entries)
unfolding append read_range evicted to_index
append-read_range now p [] m o h k = absurd (cc)
append-read_range now [] (e ∷ es) m o h k = absurd (cc)
append-read_range now (c ∷ p) (e ∷ es) m o h k =
    let fresh = new_entries now (length m.entries) (c ∷ p) (e ∷ es) in
    let count : length fresh ≡ suc (length es) =
      length-new_entries now (length m.entries) (c ∷ p) (e ∷ es) in
    let total = length-append m.entries fresh in
    let back : drop (length m.entries) (m.entries ++ fresh) ≡ fresh =
      drop-length_append m.entries fresh in
    let whole : take (length (m.entries ++ fresh) - length m.entries) fresh ≡ fresh =
      take_all (length (m.entries ++ fresh) - length m.entries) fresh (omega arith) in
    (ground (arith, back, whole), ground arith)
