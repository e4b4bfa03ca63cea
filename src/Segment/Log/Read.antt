-- ===== src/Segment/Log/Read.antt =====
-- adapter-event-log-segment/src/log.rs: the queries and `read_range`.
use otk_core.Prelude.{
  ◌≡◌, refl, arith, ℕ, zero, suc, ◌+◌, ◌-◌, ◌==◌, min, max, Option, none, some, Bool, true, false,
  not, ◌&&◌, List, [], ◌∷◌, ◌++◌, Text, text, ltb, leb, if◌then◌else◌, length, get_elem?, u64_max,
  Result, ok, err,
}
use otk_core.Timing.Storage.{LogEntry, StorageError, io, corrupted, retention_expired, decimal}
use otk_core.Segment.Record.{read_record}
use otk_core.Segment.Log.{
  World, SegmentLog, ClosedSegment, ActiveSegment, M, ◌>>=◌, ◌>>◌, pure, fail,
}
use otk_core.Segment.Log.Files.{attempt, file_at}

unfoldable pub is_empty : {A : Type 0} → List A → Bool
is_empty [] = true
is_empty (x ∷ xs) = false

pub is_empty_lem : {A : Type 0} (xs : List A) → is_empty xs ≡ (length xs == 0)
unfolding is_empty
is_empty_lem [] = refl
is_empty_lem (x ∷ xs) = ground arith

unfoldable pub active_earliest : Option ActiveSegment → Option ℕ
unfolding is_empty
active_earliest none = none
active_earliest (some a) = if is_empty a.positions then none else some a.base_offset

unfoldable pub earliest_of : List ClosedSegment → Option ActiveSegment → Option ℕ
unfolding active_earliest
earliest_of [] active = active_earliest active
earliest_of (first ∷ cs) active = some first.base_offset

unfoldable pub earliest_offset_raw : SegmentLog → Option ℕ
unfolding earliest_of
earliest_offset_raw s = earliest_of s.closed s.active

-- `closed.back()`, or else the offset before the next one.
unfoldable pub closed_latest : List ClosedSegment → ℕ → Option ℕ
closed_latest [] next_offset = if ltb 0 next_offset then some (next_offset - 1) else none
closed_latest (c ∷ []) next_offset = some c.last_offset
closed_latest (c ∷ d ∷ cs) next_offset = closed_latest (d ∷ cs) next_offset

unfoldable pub latest_of : Option ActiveSegment → List ClosedSegment → ℕ → Option ℕ
unfolding is_empty closed_latest
latest_of none cs next_offset = closed_latest cs next_offset
latest_of (some a) cs next_offset =
    if is_empty a.positions
    then closed_latest cs next_offset
    else some (a.base_offset + length a.positions - 1)

unfoldable pub latest_offset_raw : SegmentLog → Option ℕ
unfolding latest_of
latest_offset_raw s = latest_of s.active s.closed s.next_offset

unfoldable pub active_empty : Option ActiveSegment → Bool
unfolding is_empty
active_empty none = true
active_empty (some a) = is_empty a.positions

unfoldable pub is_fully_evicted : SegmentLog → Bool
unfolding is_empty active_empty
is_fully_evicted s = is_empty s.closed && (active_empty s.active && ltb 0 s.next_offset)

abbrev pub wrong_record : ℕ → ℕ → ℕ → Text
wrong_record pos offset got =
    text "index points to wrong record at position "
    ++ (decimal 20 pos
        ++ (text ": expected offset " ++ (decimal 20 offset ++ (text ", got " ++ decimal 20 got))))

unfoldable pub check_offset : ℕ → ℕ → LogEntry → Result StorageError LogEntry
check_offset pos offset entry =
    if not (entry.offset == offset)
    then err (corrupted (wrong_record pos offset entry.offset))
    else ok entry

-- `effective_to`
unfoldable pub end_of : Option ℕ → ℕ
end_of none = u64_max
end_of (some to) = to

unfoldable pub ends_by : Option ℕ → ℕ → Bool
ends_by none from = false
ends_by (some to) from = leb to from

-- The test for the retained window.
unfoldable pub is_before : ℕ → Option ℕ → Bool
is_before from none = false
is_before from (some earliest) = ltb from earliest

module _ (w : World) where
  unfoldable pub read_at : ℕ → ℕ → ℕ → M LogEntry
  read_at base offset pos = do
    attempt w
    entry ← λ s. (s, read_record w.externals (file_at s base) pos)
    λ s. (s, check_offset pos offset entry)

  -- The loop over the offsets from one on, for a number of them; a position that is missing ends it.
  unfoldable pub read_offsets : ℕ → List ℕ → ℕ → ℕ → M (List LogEntry)
  read_offsets base positions offset zero = pure []
  read_offsets base positions offset (suc n) =
      let rest = read_offsets base positions (offset + 1) n in
      elim (get_elem? positions (offset - base)) [
        | none ↦ pure []
        | some pos ↦ read_at base offset pos >>= λ entry. rest >>= λ entries. pure (entry ∷ entries)
      ]

  -- `File::open` for reading.
  unfoldable pub open_file : ℕ → M (Unit {0})
  open_file base s = elim (s.segs base) [
    | none ↦ fail (io w.missing.kind w.missing.message) s
    | some file ↦ attempt w s
  ]

  unfoldable pub read_closed : ℕ → ℕ → List ClosedSegment → M (List LogEntry)
  read_closed from to [] = pure []
  read_closed from to (c ∷ cs) =
      let start = max from c.base_offset in
      let end = min to (c.last_offset + 1) in
      let more = read_closed from to cs in
      let both =
        open_file c.base_offset
        >> (read_offsets c.base_offset c.positions start (end - start) >>= λ entries.
            more >>= λ later. pure (entries ++ later)) in
      if ltb c.last_offset from then more else if leb to c.base_offset then pure [] else both

  unfoldable pub read_active : ℕ → ℕ → Option ActiveSegment → M (List LogEntry)
  unfolding is_empty
  read_active from to none = pure []
  read_active from to (some a) =
      let start = max from a.base_offset in
      let end = min to (a.base_offset + length a.positions) in
      if ltb a.base_offset to
        && (not (is_empty a.positions) && ltb from (a.base_offset + length a.positions))
      then read_offsets a.base_offset a.positions start (end - start)
      else pure []

  unfoldable pub read_segments : ℕ → ℕ → M (List LogEntry)
  read_segments from to s =
      (do
        entries ← read_closed from to s.closed
        later ← read_active from to s.active
        pure (entries ++ later))
        s

  unfoldable pub read_range : ℕ → Option ℕ → M (List LogEntry)
  unfolding end_of ends_by is_before
  read_range from to s =
      if ends_by to from
      then (s, ok [])
      else if leb s.next_offset from
      then (s, ok [])
      else if is_fully_evicted s
      then fail (retention_expired from none) s
      else if is_before from (earliest_offset_raw s)
      then fail (retention_expired from (earliest_offset_raw s)) s
      else read_segments from (end_of to) s
