-- ===== src/Segment/Log/Open.antt =====
-- adapter-event-log-segment/src/log.rs: `open`.
use otk_core.Prelude.{
  ℕ, ◌+◌, ◌-◌, ◌==◌, Bool, true, false, not, Option, none, some, List, [], ◌∷◌, ◌++◌, Bytes, Text,
  text, ltb, leb, if◌then◌else◌, length, take, from_le, u64_max, Result, ok, err,
}
use otk_core.Timing.Storage.{LogEntry, StorageError, io, not_found, corrupted, decimal}
use otk_core.Segment.{header_len}
use otk_core.Segment.Record.{SegmentHeader, header_bytes, read_header, read_record}
use otk_core.Segment.Index.{read_index}
use otk_core.Segment.Recover.{Recovered, recover_active}
use otk_core.Segment.Log.{
  World, SegmentLog, ClosedSegment, ActiveSegment, M, ◌>>=◌, ◌>>◌, pure, fail, ignore,
}
use otk_core.Segment.Log.Files.{
  update, file_at, attempt, now, set_len, seek, write_all, remove_segment,
}
use otk_core.Segment.Log.Names.{base_name, seg_bases, sort_bases}
use otk_core.Segment.Log.Roll.{set_active}

-- The last of a list of positions.
unfoldable pub last_pos : ℕ → List ℕ → ℕ
last_pos p [] = p
last_pos p (q ∷ ps) = last_pos q ps

abbrev pub base_mismatch : Text → ℕ → ℕ → Text
base_mismatch which base got =
    which
    ++ (text " segment "
        ++ (base_name base
            ++ (text ": header base_offset "
                ++ (decimal 20 got ++ text " does not match filename"))))

-- `Ok(_)` of a call on a file, that there is none, or another error.
unfoldable pub probe :
    Bool → SegmentLog × Result StorageError (Unit {0}) → SegmentLog × Result StorageError Bool
probe there (s, ok _) = (s, ok there)
probe there (s, err (io not_found m)) = (s, ok false)
probe there (s, err e) = (s, err e)

unfoldable pub is_there : {A : Type 0} → Option A → Bool
is_there none = false
is_there (some a) = true

unfoldable pub add_closed : ClosedSegment → ℕ → M (Unit {0})
add_closed c next_offset s =
    (record s { closed = s.closed ++ c ∷ []; next_offset = next_offset }, ok tt)

unfoldable pub put_file : ℕ → Bytes → M (Unit {0})
put_file base file s = (record s { segs = update s.segs base (some file) }, ok tt)

unfoldable pub check_base : Text → ℕ → SegmentHeader → Result StorageError (Unit {0})
check_base which base hdr =
    if not (hdr.base_offset == base)
    then err (corrupted (base_mismatch which base hdr.base_offset))
    else ok tt

unfoldable pub check_last : ℕ → ℕ → LogEntry → Result StorageError (Unit {0})
check_last base last_offset e =
    if not (e.offset == last_offset)
    then err (
        corrupted (
          text "closed segment "
          ++ (base_name base
              ++ (text ": index claims last offset "
                  ++ (decimal 20 last_offset
                      ++ (text " but record contains " ++ decimal 20 e.offset))))))
    else ok tt

unfoldable pub index_at : SegmentLog → ℕ → Bytes
index_at s base = elim (s.idxs base) [ none ↦ [] | some bytes ↦ bytes ]

unfoldable pub start_active : ℕ → ℕ → ℕ → Recovered → M (Unit {0})
start_active base created_at_ns last_appended_at_ns r =
    let next = base + length r.positions in
    if ltb u64_max next
    then fail (
        corrupted (
          text "active segment " ++ (base_name base ++ text ": base + record_count overflows u64")))
    else λ s. (
      record s {
        active = some (record {
          base_offset = base;
          positions = r.positions;
          byte_size = r.next_pos - header_len;
          created_at_ns = created_at_ns;
          next_file_pos = r.next_pos;
          last_appended_at_ns = last_appended_at_ns;
        });
        next_offset = next;
        cursor = r.next_pos;
      },
      ok tt,
    )

-- A watermark; a file that is too short counts as none.
unfoldable pub watermark_of : Option Bytes → Option ℕ
watermark_of none = none
watermark_of (some bytes) = if ltb (length bytes) 8 then none else some (from_le (take 8 bytes))

unfoldable pub set_next : Option ℕ → M (Unit {0})
set_next none s = (s, ok tt)
set_next (some n) s = (record s { next_offset = n }, ok tt)

unfoldable pub no_segments : SegmentLog → Bool
no_segments s =
    if s.next_offset == 0
    then (if length s.closed == 0 then not (is_there s.active) else false)
    else false

-- The debug text of bytes and the path of an index, in the texts of errors, are parameters.
module _ (w : World) (debug : Bytes → Text) (idx_path : ℕ → Text) where
  -- `File::open` on a segment, and `metadata` on an index.
  unfoldable pub seg_there : ℕ → M Bool
  unfolding probe is_there
  seg_there base s = probe (is_there (s.segs base)) (attempt w s)

  unfoldable pub idx_there : ℕ → M Bool
  unfolding probe is_there
  idx_there base s = probe (is_there (s.idxs base)) (attempt w s)

  -- A closed segment with a first position p and others.
  unfoldable pub load_closed : ℕ → ℕ → List ℕ → M (Unit {0})
  load_closed base p ps =
      let positions = p ∷ ps in
      let next = base + length positions in
      if ltb u64_max next
      then fail (
          corrupted
            (text "segment " ++ (base_name base ++ text ": base + index_len overflows u64")))
      else do
        attempt w
        hdr ← λ s. (s, read_header w.externals debug (file_at s base))
        λ s. (s, check_base (text "closed") base hdr)
        attempt w
        e ← λ s. (s, read_record w.externals (file_at s base) (last_pos p ps))
        λ s. (s, check_last base (next - 1) e)
        attempt w
        size ← λ s. (s, ok (length (file_at s base)))
        let c : ClosedSegment = record {
          base_offset = base;
          last_offset = next - 1;
          last_appended_at_ns = e.appended_at_ns;
          byte_size = size;
          positions = positions;
        }
        add_closed c next

  unfoldable pub load_positions : ℕ → List ℕ → M (Unit {0})
  load_positions base [] = pure tt
  load_positions base (p ∷ ps) = load_closed base p ps

  unfoldable pub load_index : ℕ → M (Unit {0})
  load_index base = do
    attempt w
    attempt w
    positions ← λ s. (s, read_index (idx_path base) (index_at s base))
    load_positions base positions

  unfoldable pub open_closed : ℕ → M (Unit {0})
  open_closed base = do there ← seg_there base; if there then load_index base else pure tt

  -- An earlier segment without an index: an error, or an empty one that is deleted.
  unfoldable pub drop_orphan : Option ActiveSegment → M (Unit {0})
  drop_orphan none = pure tt
  drop_orphan (some prev) =
      if length prev.positions == 0
      then set_active none >> ignore (remove_segment w prev.base_offset)
      else fail (
          corrupted (
            text "segment "
            ++ (base_name prev.base_offset
                ++ (text " has no index but is not the highest unindexed segment; "
                    ++ (decimal 20 (length prev.positions) ++ text " record(s) would be lost")))))

  -- The creation time of the header; a file that is shorter than one gets a new one.
  unfoldable pub load_header : ℕ → M ℕ
  load_header base = do
    attempt w
    hdr ← λ s. (s, read_header w.externals debug (file_at s base))
    λ s. (s, check_base (text "active") base hdr)
    pure hdr.created_at_ns

  unfoldable pub renew_header : ℕ → M ℕ
  renew_header base = do
    ts ← now w
    set_len w base 0
    seek w 0
    write_all w base (header_bytes (record { base_offset = base; created_at_ns = ts }))
    pure ts

  unfoldable pub active_header : ℕ → M ℕ
  active_header base s =
      (if leb header_len (length (file_at s base)) then load_header base else renew_header base) s

  unfoldable pub last_time : ℕ → List ℕ → M ℕ
  last_time base [] = pure 0
  last_time base (p ∷ ps) = do
    attempt w
    e ← λ s. (s, read_record w.externals (file_at s base) (last_pos p ps))
    pure e.appended_at_ns

  unfoldable pub open_active : ℕ → M (Unit {0})
  open_active base = do
    λ s. drop_orphan s.active s
    attempt w
    λ s. put_file base (file_at s base) s
    attempt w
    created_at_ns ← active_header base
    r ← λ s. (s, recover_active w.externals (file_at s base) base)
    put_file base r.file
    last ← last_time base r.positions
    start_active base created_at_ns last r

  unfoldable pub open_base : ℕ → M (Unit {0})
  open_base base = do
    indexed ← idx_there base
    if indexed then open_closed base else open_active base

  unfoldable pub open_bases : List ℕ → M (Unit {0})
  open_bases [] = pure tt
  open_bases (base ∷ bases) = open_base base >> open_bases bases

  unfoldable pub found_watermark : Bool → M (Option ℕ)
  unfolding watermark_of
  found_watermark false s = (s, ok none)
  found_watermark true s = (attempt w >> λ s2. (s2, ok (watermark_of s2.watermark))) s

  unfoldable pub read_watermark : M (Option ℕ)
  unfolding probe is_there
  read_watermark = do there ← λ s. probe (is_there s.watermark) (attempt w s); found_watermark there

  unfoldable pub restore_next : M (Unit {0})
  restore_next s = (if no_segments s then read_watermark >>= set_next else pure tt) s

  -- The loop over the entries of the directory.
  unfoldable pub scan_dir : List Text → M (Unit {0})
  scan_dir [] = attempt w
  scan_dir (name ∷ names) = attempt w >> scan_dir names

  -- `open`, on the names of the directory's files, from an empty log.
  unfoldable pub open_log : List Text → M (Unit {0})
  open_log names = do
    attempt w
    attempt w
    scan_dir names
    open_bases (sort_bases (seg_bases names))
    restore_next
