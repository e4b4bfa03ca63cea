-- ===== src/Timing/Storage/Contract.antt =====
-- timing-core/src/ports/outbound/event_log.rs: the documented results of the methods of a log, on the
-- entries that it retains.
use otk_core.Prelude.{
  ℕ, ◌+◌, ◌-◌, ◌≡◌, ◌<◌, ◌⊎◌, Bool, ◌&&◌, Option, none, some, List, [], ◌∷◌, ◌++◌, Text, Result, ok,
  err, length, ltb, leb, ◌==◌, if◌then◌else◌,
}
use otk_core.Event.{OtkEvent}
use otk_core.Timing.Storage.{
  LogEntry, StorageError, retention_expired, invalid_input, stamp, contents_of,
}
use otk_core.Timing.Storage.Select.{select}

-- The entries that a log retains have the offsets from the first up to the next, which an append gives.
-- Where these are the same nothing is retained, and where both are zero nothing was ever written.
pub record View : Type 0 where
  pub first : ℕ
  pub next : ℕ
  pub retained : List LogEntry

-- Do the entries have the offsets from n on, one after another?
abbrev pub Numbered : ℕ → List LogEntry → Type 0
Numbered n [] = Unit {0}
Numbered n (e ∷ es) = (e.offset ≡ n) × Numbered (n + 1) es

-- Is the offset in the half-open range?
abbrev pub within : ℕ → Option ℕ → ℕ → Bool
within from none n = leb from n
within from (some to) n = leb from n && ltb n to

-- The result of a read: nothing from a log that never held anything; the retention error, with the
-- first offset that is retained if there is one, where that is past the start of the range; or else
-- the entries with offsets in the range, in order.
abbrev pub expected_read : View → ℕ → Option ℕ → Result StorageError (List LogEntry)
expected_read v from to =
    if v.next == 0
    then ok []
    else if v.first == v.next
    then err (retention_expired from none)
    else if ltb from v.first
    then err (retention_expired from (some v.first))
    else ok (select (within from to) v.first v.retained)

abbrev pub expected_earliest : View → Option ℕ
expected_earliest v = if v.first == v.next then none else some v.first

abbrev pub expected_latest : View → Option ℕ
expected_latest v = if v.first == v.next then none else some (v.next - 1)

-- The effect of an append: the events of the batch in order with the offsets from the next on, the last
-- of which is returned; or the input error for an empty batch or producer, and nothing.
abbrev pub Appended : View → Text → List OtkEvent → View → Result StorageError ℕ → Type 0
Appended before p es after (ok o) =
    (0 < length p)
    × (0 < length es)
    × (after.first ≡ before.first)
    × (after.next ≡ before.next + length es)
    × (o + 1 ≡ after.next)
    × (fresh : List LogEntry) × (after.retained ≡ before.retained ++ fresh)
    × Numbered before.next fresh
    × (contents_of fresh ≡ stamp p es)
Appended before p es after (err e) =
    (after ≡ before) × ((es ≡ []) ⊎ (p ≡ [])) × (m : Text) × (e ≡ invalid_input m)
