-- ===== src/Segment/Log/Retention.antt =====
-- adapter-event-log-segment/src/log.rs: old closed segments are deleted.
use otk_core.Prelude.{
  ℕ, ◌+◌, ◌-◌, ◌*◌, ◌%◌, ◌^◌, min, Option, none, some, List, [], ◌∷◌, ltb, if◌then◌else◌, u64_max,
  ok,
}
use otk_core.Timing.Storage.{RetentionPolicy, indefinite, time_based, size_based, hybrid}
use otk_core.Segment.Log.{World, SegmentLog, ClosedSegment, ActiveSegment, M, ◌>>=◌, ◌>>◌, pure}
use otk_core.Segment.Log.Files.{now, delete_segment}

unfoldable pub set_closed : List ClosedSegment → M (Unit {0})
set_closed closed s = (record s { closed = closed }, ok tt)

-- `saturating_mul` of a u64 by the nanoseconds of a second.
unfoldable pub secs_to_ns : ℕ → ℕ
secs_to_ns secs = min u64_max (secs * 1000000000)

-- The u64 sum of the sizes; a release build wraps it around.
unfoldable pub sum_sizes : List ClosedSegment → ℕ
sum_sizes [] = 0
sum_sizes (c ∷ cs) = c.byte_size + sum_sizes cs

unfoldable pub active_size : Option ActiveSegment → ℕ
active_size none = 0
active_size (some a) = a.byte_size

unfoldable pub total_size : SegmentLog → ℕ
unfolding sum_sizes active_size
total_size s = (sum_sizes s.closed + active_size s.active) % 2 ^ 64

module _ (w : World) where
  -- The loops over the front of the closed segments.
  unfoldable pub evict_expired : ℕ → List ClosedSegment → M (Unit {0})
  evict_expired cutoff [] = pure tt
  evict_expired cutoff (c ∷ cs) =
      let rest = delete_segment w c.base_offset >> (set_closed cs >> evict_expired cutoff cs) in
      if ltb c.last_appended_at_ns cutoff then rest else pure tt

  unfoldable pub evict_excess : ℕ → ℕ → List ClosedSegment → M (Unit {0})
  evict_excess max_bytes total [] = pure tt
  evict_excess max_bytes total (c ∷ cs) =
      let rest =
        delete_segment w c.base_offset
        >> (set_closed cs >> evict_excess max_bytes (total - c.byte_size) cs) in
      if ltb max_bytes total then rest else pure tt

  unfoldable pub enforce_age : ℕ → M (Unit {0})
  enforce_age max_age_secs = do
    t ← now w
    λ s. evict_expired (t - secs_to_ns max_age_secs) s.closed s

  unfoldable pub enforce_size : ℕ → M (Unit {0})
  enforce_size max_bytes s = evict_excess max_bytes (total_size s) s.closed s

  unfoldable pub enforce_retention : RetentionPolicy → M (Unit {0})
  enforce_retention indefinite = pure tt
  enforce_retention (time_based max_age_secs) = enforce_age max_age_secs
  enforce_retention (size_based max_bytes) = enforce_size max_bytes
  enforce_retention (hybrid max_age_secs max_bytes) = do
    enforce_age max_age_secs
    enforce_size max_bytes
