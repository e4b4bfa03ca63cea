-- ===== src/Conformance/Contract.antt =====
-- conformance/src/mem_log.rs: what the services rely on of the log in memory.
use otk_core.Prelude.{
  ℕ, ◌+◌, ◌-◌, ◌≤◌, ◌<◌, ◌≡◌, refl, sym, ap, ◌∙◌, none, some, List, [], ◌∷◌, ◌++◌, Text, ok, err,
  length, drop, length-append, drop-append_le, drop_all, length-drop, take_all, ok_inj, arith,
}
use otk_core.Event.{OtkEvent}
use otk_core.Timing.Storage.{
  LogEntry, StorageError, EventLog, IsEventLog, Contents, stamp, contents_of,
}
use otk_core.Conformance.{
  MemLog, new, earliest_available_offset, evict_below, evict_all, new_entries, append, evicted,
  to_index, read_range, latest_offset, earliest_offset,
}

-- The first offset that is retained.
abbrev pub low : MemLog → ℕ
low m = elim m.earliest_retained [ none ↦ 0 | some e ↦ e ]

-- The boundary is not past the end of the log.
abbrev pub IsMem : MemLog → Type 0
IsMem m = low m ≤ length m.entries

pub new-IsMem : IsMem new
unfolding new
new-IsMem = omega arith

-- The entries that are retained.
abbrev pub held : MemLog → Contents
held m = contents_of (drop (low m) m.entries)

pub contents_of-new_entries :
    (now : ℕ → ℕ) (start : ℕ) (p : Text) (es : List OtkEvent)
    → contents_of (new_entries now start p es) ≡ stamp p es
unfolding new_entries
contents_of-new_entries now start p [] = refl
contents_of-new_entries now start p (e ∷ es) =
    ap (λ x. (p, e) ∷ x) (contents_of-new_entries now (start + 1) p es)

contents_of-append :
    (xs ys : List LogEntry) → contents_of (xs ++ ys) ≡ contents_of xs ++ contents_of ys
contents_of-append [] ys = refl
contents_of-append (x ∷ xs) ys = ap (λ c. (x.producer_id, x.event) ∷ c) (contents_of-append xs ys)

pub append-IsMem :
    (now : ℕ → ℕ) (p : Text) (es : List OtkEvent) (m : MemLog)
    → IsMem m
    → IsMem (append now p es m).0
unfolding append
append-IsMem now p [] m h = h
append-IsMem now [] (e ∷ es) m h = h
append-IsMem now (c ∷ p) (e ∷ es) m h =
    omega (arith, length-append m.entries (new_entries now (length m.entries) (c ∷ p) (e ∷ es)), h)

evict_below-IsMem : (n : ℕ) (m : MemLog) → IsMem (evict_below n m)
unfolding evict_below
evict_below-IsMem n m = omega arith

evict_all-IsMem : (m : MemLog) → IsMem (evict_all m)
unfolding evict_all
evict_all-IsMem m = omega arith

append-held :
    (now : ℕ → ℕ) (p : Text) (es : List OtkEvent) (m : MemLog) (o : ℕ)
    → IsMem m
    → (append now p es m).1 ≡ ok o
    → held (append now p es m).0 ≡ held m ++ stamp p es
unfolding append
append-held now p [] m o h k = absurd (cc)
append-held now [] (e ∷ es) m o h k = absurd (cc)
append-held now (c ∷ p) (e ∷ es) m o h k =
    let fresh = new_entries now (length m.entries) (c ∷ p) (e ∷ es) in
    ap contents_of (drop-append_le (low m) m.entries fresh h)
    ∙ contents_of-append (drop (low m) m.entries) fresh
    ∙ ap (λ x. held m ++ x) (contents_of-new_entries now (length m.entries) (c ∷ p) (e ∷ es))

append_err :
    (now : ℕ → ℕ) (p : Text) (es : List OtkEvent) (m : MemLog) (e : StorageError)
    → (append now p es m).1 ≡ err e
    → (append now p es m).0 ≡ m
unfolding append
append_err now p [] m e k = refl
append_err now [] (x ∷ es) m e k = refl
append_err now (c ∷ p) (x ∷ es) m e k = absurd (cc)

earliest_offset_none : (m : MemLog) → IsMem m → earliest_offset m ≡ ok none → held m ≡ []
unfolding earliest_offset earliest_available_offset
earliest_offset_none m h k = ap contents_of (drop_all (low m) m.entries (ground arith))

-- Where the log has an earliest offset, it is the boundary, and not past the end.
earliest_offset_some :
    (m : MemLog) (o : ℕ) → earliest_offset m ≡ ok (some o) → (o ≡ low m) × (o < length m.entries)
unfolding earliest_offset earliest_available_offset
earliest_offset_some m o k = (ground arith, ground arith)

read_range_low :
    (m : MemLog)
    → low m < length m.entries
    → read_range (low m) none m ≡ ok (drop (low m) m.entries)
unfolding read_range evicted to_index
read_range_low m h =
    let whole =
      take_all (length m.entries - low m) (drop (low m) m.entries)
        (omega (arith, length-drop (low m) m.entries)) in
    ground (arith, whole)

earliest_offset-read_range :
    (m : MemLog) (o : ℕ) (es : List LogEntry)
    → IsMem m
    → earliest_offset m ≡ ok (some o)
    → read_range o none m ≡ ok es
    → contents_of es ≡ held m
earliest_offset-read_range m o es h k r =
    let (same, inside) = earliest_offset_some m o k in
    let whole = ap (λ x. read_range x none m) same ∙ read_range_low m (omega arith) in
    ap contents_of (sym (ok_inj whole r))

-- A log in memory whose boundary is not past its end, with the event log's methods.
abbrev pub mem_log : (ℕ → ℕ) → EventLog
mem_log now = record {
  Log = (m : MemLog) × IsMem m;
  append =
      λ p es (m, h). (((append now p es m).0, append-IsMem now p es m h), (append now p es m).1);
  read_range = λ from to (m, h). ((m, h), read_range from to m);
  latest_offset = λ (m, h). ((m, h), latest_offset m);
  earliest_offset = λ (m, h). ((m, h), earliest_offset m);
}

-- The log in memory, with any clock and whatever was evicted before, is one that the services can rely
-- on for the entries that it retains.
pub mem_log-IsEventLog : (now : ℕ → ℕ) → IsEventLog (mem_log now) (λ s. held s.0)
mem_log-IsEventLog now = record {
  append_ok = λ p es s o h. append-held now p es s.0 o s.1 h;
  append_err = λ p es s e h. ap held (append_err now p es s.0 e h);
  earliest_none = λ s h. earliest_offset_none s.0 s.1 h;
  earliest_keeps = λ s. refl;
  read_keeps = λ from to s. refl;
  read_all = λ s o es h k. earliest_offset-read_range s.0 o es s.1 h k;
}
