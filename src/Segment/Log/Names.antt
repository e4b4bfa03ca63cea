-- ===== src/Segment/Log/Names.antt =====
-- adapter-event-log-segment/src/log.rs: the names of segment files.
use otk_core.Prelude.{
  ℕ, zero, suc, ◌+◌, ◌-◌, ◌*◌, ◌/◌, ◌%◌, ◌&&◌, Option, none, some, List, [], ◌∷◌, ◌++◌, Text, text,
  text_eq, ltb, leb, ◌==◌, if◌then◌else◌, length, take, drop, u64_max,
}

-- A number with a count of decimal digits.
unfoldable pub padded : ℕ → ℕ → Text
padded zero n = []
padded (suc k) n = padded k (n / 10) ++ (b'0' + n % 10) ∷ []

-- `format!("{base:020}")`
unfoldable pub base_name : ℕ → Text
unfolding padded
base_name base = padded 20 base

-- `strip_suffix(".seg")`
unfoldable pub strip_seg : Text → Option Text
strip_seg name =
    let k = length name - 4 in
    if leb 4 (length name) && text_eq (drop k name) (text ".seg") then some (take k name) else none

-- `parse::<u64>` of text that is not empty: digits, after a plus sign or none, of a u64.
unfoldable pub parse_digits : ℕ → Text → Option ℕ
parse_digits n [] = if ltb u64_max n then none else some n
parse_digits n (c ∷ cs) =
    let rest = parse_digits (n * 10 + (c - b'0')) cs in
    if leb b'0' c && leb c b'9' then rest else none

unfoldable pub parse_u64 : Text → Option ℕ
unfolding parse_digits
parse_u64 [] = none
parse_u64 (c ∷ []) = parse_digits 0 (c ∷ [])
parse_u64 (c ∷ d ∷ cs) = if c == b'+' then parse_digits 0 (d ∷ cs) else parse_digits 0 (c ∷ d ∷ cs)

-- A name counts if it is the padded number that it parses as.
unfoldable pub canonical : Text → Option ℕ → Option ℕ
canonical stem none = none
canonical stem (some base) = if text_eq (base_name base) stem then some base else none

unfoldable pub base_of_stem : Option Text → Option ℕ
unfolding parse_u64 canonical
base_of_stem none = none
base_of_stem (some stem) = if length stem == 20 then canonical stem (parse_u64 stem) else none

unfoldable pub seg_bases : List Text → List ℕ
seg_bases [] = []
seg_bases (name ∷ names) = elim (base_of_stem (strip_seg name)) [
  | none ↦ seg_bases names
  | some base ↦ base ∷ seg_bases names
]

-- `sort_unstable`
unfoldable pub insert_base : ℕ → List ℕ → List ℕ
insert_base base [] = base ∷ []
insert_base base (b ∷ bs) = if leb base b then base ∷ b ∷ bs else b ∷ insert_base base bs

unfoldable pub sort_bases : List ℕ → List ℕ
unfolding insert_base
sort_bases [] = []
sort_bases (b ∷ bs) = insert_base b (sort_bases bs)
