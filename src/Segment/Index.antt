-- ===== src/Segment/Index.antt =====
-- adapter-event-log-segment/src/segment.rs: the index of a closed segment.
use otk_core.Prelude.{
  ℕ, zero, suc, ◌*◌, ◌/◌, ◌%◌, ◌≡◌, ◌≤◌, refl, List, [], ◌∷◌, ◌++◌, map, Bytes, Text, text, Result,
  ok, err, ltb, not, ◌==◌, if◌then◌else◌, ge→ltb, length, length-append, take, drop, to_le, from_le,
  from_le-to_le, length-to_le, u64_max, All, arith, take_front, drop_past,
}
use mathlib.Core.List.{flatten}
use otk_core.Timing.Storage.{StorageError, corrupted, decimal}

abbrev pub max_index_bytes : ℕ
max_index_bytes = 256 * 1024 * 1024

-- The bytes that `write_index` writes.
unfoldable pub index_bytes : List ℕ → Bytes
unfolding flatten
index_bytes positions = flatten (map (to_le 8) positions)

-- `chunks_exact(n)`, for a number k of chunks that the bytes hold.
unfoldable pub chunks_exact : ℕ → ℕ → Bytes → List Bytes
chunks_exact n zero bytes = []
chunks_exact n (suc k) bytes = take n bytes ∷ chunks_exact n k (drop n bytes)

-- `read_index` on the file's bytes; the path as it is displayed is a parameter.
unfoldable pub read_index : Text → Bytes → Result StorageError (List ℕ)
read_index path bytes =
    if ltb max_index_bytes (length bytes)
    then err (
        corrupted (
          text "index file "
          ++ (path
              ++ (text " is "
                  ++ (decimal 20 (length bytes)
                      ++ text " bytes, exceeding the 268435456-byte limit")))))
    else if not (length bytes % 8 == 0)
    then err (
        corrupted (
          text "index file "
          ++ (path
              ++ (text " has length "
                  ++ (decimal 20 (length bytes) ++ text " which is not a multiple of 8")))))
    else ok (map from_le (chunks_exact 8 (length bytes / 8) bytes))

length-index_bytes : (ps : List ℕ) → length (index_bytes ps) ≡ 8 * length ps
unfolding index_bytes
length-index_bytes [] = refl
length-index_bytes (p ∷ ps) =
    omega
      (arith, length-append (to_le 8 p) (index_bytes ps), length-to_le 8 p, length-index_bytes ps)

chunks_exact-index_bytes :
    (ps : List ℕ)
    → All (λ p. p ≤ u64_max) ps
    → map from_le (chunks_exact 8 (length ps) (index_bytes ps)) ≡ ps
unfolding chunks_exact index_bytes from_le
chunks_exact-index_bytes [] h = refl
chunks_exact-index_bytes (p ∷ ps) (fits, h) =
    rw
      (
        take_front 8 (to_le 8 p) (index_bytes ps) (length-to_le 8 p),
        drop_past 8 0 (to_le 8 p) (index_bytes ps) (length-to_le 8 p),
        from_le-to_le 8 p (omega arith),
        chunks_exact-index_bytes ps h,
      )
      refl

-- The positions written to an index file are read back, where they are u64 and fill at most 256 MiB.
pub read_index-index_bytes :
    (path : Text) (positions : List ℕ)
    → All (λ p. p ≤ u64_max) positions
    → 8 * length positions ≤ max_index_bytes
    → read_index path (index_bytes positions) ≡ ok positions
unfolding read_index
read_index-index_bytes path ps h le =
    let size = length-index_bytes ps in
    let whole : length (index_bytes ps) % 8 ≡ 0 = omega arith in
    let count : length (index_bytes ps) / 8 ≡ length ps = omega arith in
    rw
      (
        ge→ltb max_index_bytes (length (index_bytes ps)) (omega arith),
        whole,
        count,
        chunks_exact-index_bytes ps h,
      )
      refl
