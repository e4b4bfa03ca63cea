-- ===== src/Protocol/Traceparent/Parse.antt =====
-- otk-protocol/src/traceparent.rs: which texts `parse_traceparent` accepts, and what it returns.
use otk_core.Prelude.{
  ℕ, suc, ◌+◌, ◌≤◌, ◌≡◌, sym, ap, ◌∙◌, true, false, ◌++◌, Text, arith, text, text_eq, length,
  get_elem?, take, drop, ok, Option-cases, inl, inr, length-append, take-append-drop,
  drop-get_elem?, drop-drop, take_all, length-drop, length-take, drop_past, take_front,
  get_elem?-drop, drop_all, append-nil, subst, ◌↔◌, refl, Result-cases,
}
use otk_core.Protocol.Traceparent.{
  TraceParentParts, is_lowercase_hex, is_all_zero, parse_traceparent, hyphen, hyphen_at, slice,
  is_valid_traceparent,
}

-- The four fields put together.
unfoldable pub join_parts : TraceParentParts → Text
join_parts p =
    p.version ++ (hyphen ++ (p.trace_id ++ (hyphen ++ (p.parent_id ++ (hyphen ++ p.trace_flags)))))

-- The W3C rules for the four fields.
pub record IsWellFormed (p : TraceParentParts) : Type 0 where
  pub version_length : length p.version ≡ 2
  pub trace_id_length : length p.trace_id ≡ 32
  pub parent_id_length : length p.parent_id ≡ 16
  pub trace_flags_length : length p.trace_flags ≡ 2
  pub version_hex : is_lowercase_hex p.version ≡ true
  pub trace_id_hex : is_lowercase_hex p.trace_id ≡ true
  pub parent_id_hex : is_lowercase_hex p.parent_id ≡ true
  pub trace_flags_hex : is_lowercase_hex p.trace_flags ≡ true
  pub version_allowed : text_eq p.version (text "ff") ≡ false
  pub trace_id_nonzero : is_all_zero p.trace_id ≡ false
  pub parent_id_nonzero : is_all_zero p.parent_id ≡ false

abbrev parts_of : Text → TraceParentParts
parts_of s = record {
  version = slice 0 2 s;
  trace_id = slice 3 32 s;
  parent_id = slice 36 16 s;
  trace_flags = slice 53 2 s;
}

-- What the tests have shown where the parser returns.
record Passed (s : Text) : Type 0 where
  whole : length s ≡ 55
  first : hyphen_at 2 s ≡ true
  second : hyphen_at 35 s ≡ true
  third : hyphen_at 52 s ≡ true
  version_hex : is_lowercase_hex (slice 0 2 s) ≡ true
  trace_id_hex : is_lowercase_hex (slice 3 32 s) ≡ true
  parent_id_hex : is_lowercase_hex (slice 36 16 s) ≡ true
  trace_flags_hex : is_lowercase_hex (slice 53 2 s) ≡ true
  version_allowed : text_eq (slice 0 2 s) (text "ff") ≡ false
  trace_id_nonzero : is_all_zero (slice 3 32 s) ≡ false
  parent_id_nonzero : is_all_zero (slice 36 16 s) ≡ false

parse_traceparent-Passed :
    (s : Text) (p : TraceParentParts) → parse_traceparent s ≡ ok p → Passed s × (p ≡ parts_of s)
unfolding parse_traceparent
parse_traceparent-Passed s p h = ground arith

drop-hyphen : (i : ℕ) (s : Text) → hyphen_at i s ≡ true → drop i s ≡ hyphen ++ drop (suc i) s
unfolding hyphen_at
drop-hyphen i s h = elim (Option-cases (get_elem? s i)) [
  | inl e ↦ absurd (ground arith)
  | inr (b, e) ↦ drop-get_elem? i s (ground arith)
]

drop-slice : (i k : ℕ) (s : Text) → drop i s ≡ slice i k s ++ drop (i + k) s
unfolding slice
drop-slice i k s =
    sym (take-append-drop k (drop i s)) ∙ ap (λ r. take k (drop i s) ++ r) (drop-drop k i s)

length-slice : (i k : ℕ) (s : Text) → i + k ≤ length s → length (slice i k s) ≡ k
unfolding slice
length-slice i k s h = omega (arith, length-take k (drop i s), length-drop i s)

join-parts_of : (s : Text) → Passed s → s ≡ join_parts (parts_of s)
unfolding join_parts
join-parts_of s q =
    drop-slice 0 2 s
    ∙ ap (λ r. slice 0 2 s ++ r) (drop-hyphen 2 s q.first)
    ∙ ap (λ r. slice 0 2 s ++ (hyphen ++ r)) (drop-slice 3 32 s)
    ∙ ap (λ r. slice 0 2 s ++ (hyphen ++ (slice 3 32 s ++ r))) rest
  where
    last : drop 53 s ≡ slice 53 2 s
    last =
        drop-slice 53 2 s
        ∙ ap (λ r. slice 53 2 s ++ r) (drop_all 55 s (omega (arith, q.whole)))
        ∙ append-nil (slice 53 2 s)

    rest : drop 35 s ≡ hyphen ++ (slice 36 16 s ++ (hyphen ++ slice 53 2 s))
    rest =
        drop-hyphen 35 s q.second
        ∙ ap (λ r. hyphen ++ r) (drop-slice 36 16 s)
        ∙ ap (λ r. hyphen ++ (slice 36 16 s ++ r)) (drop-hyphen 52 s q.third)
        ∙ ap (λ r. hyphen ++ (slice 36 16 s ++ (hyphen ++ r))) last

parts_of-IsWellFormed : (s : Text) → Passed s → IsWellFormed (parts_of s)
parts_of-IsWellFormed s q = record {
  version_length = length-slice 0 2 s (omega (arith, q.whole));
  trace_id_length = length-slice 3 32 s (omega (arith, q.whole));
  parent_id_length = length-slice 36 16 s (omega (arith, q.whole));
  trace_flags_length = length-slice 53 2 s (omega (arith, q.whole));
  version_hex = q.version_hex;
  trace_id_hex = q.trace_id_hex;
  parent_id_hex = q.parent_id_hex;
  trace_flags_hex = q.trace_flags_hex;
  version_allowed = q.version_allowed;
  trace_id_nonzero = q.trace_id_nonzero;
  parent_id_nonzero = q.parent_id_nonzero;
}

parse_traceparent_sound :
    (s : Text) (p : TraceParentParts)
    → parse_traceparent s ≡ ok p
    → IsWellFormed p × (s ≡ join_parts p)
parse_traceparent_sound s p h =
    let (q, e) = parse_traceparent-Passed s p h in
    (
      subst IsWellFormed (sym e) (parts_of-IsWellFormed s q),
      join-parts_of s q ∙ ap join_parts (sym e),
    )

Passed-parse_traceparent : (s : Text) → Passed s → parse_traceparent s ≡ ok (parts_of s)
unfolding parse_traceparent
Passed-parse_traceparent s q = ground arith

-- The slices of four fields that are put together.
module _ (p : TraceParentParts) (w : IsWellFormed p) where
  abbrev from_parent_id : Text
  from_parent_id = p.parent_id ++ (hyphen ++ p.trace_flags)

  abbrev from_trace_id : Text
  from_trace_id = p.trace_id ++ (hyphen ++ from_parent_id)

  drop_2 : drop 2 (join_parts p) ≡ hyphen ++ from_trace_id
  unfolding join_parts
  drop_2 = drop_past 2 0 p.version _ w.version_length

  drop_3 : drop 3 (join_parts p) ≡ from_trace_id
  unfolding join_parts
  drop_3 = drop_past 2 1 p.version _ w.version_length

  drop_35 : drop 35 (join_parts p) ≡ hyphen ++ from_parent_id
  drop_35 =
      sym (drop-drop 32 3 (join_parts p))
      ∙ ap (drop 32) drop_3
      ∙ drop_past 32 0 p.trace_id _ w.trace_id_length

  drop_36 : drop 36 (join_parts p) ≡ from_parent_id
  drop_36 =
      sym (drop-drop 33 3 (join_parts p))
      ∙ ap (drop 33) drop_3
      ∙ drop_past 32 1 p.trace_id _ w.trace_id_length

  drop_52 : drop 52 (join_parts p) ≡ hyphen ++ p.trace_flags
  drop_52 =
      sym (drop-drop 16 36 (join_parts p))
      ∙ ap (drop 16) drop_36
      ∙ drop_past 16 0 p.parent_id _ w.parent_id_length

  drop_53 : drop 53 (join_parts p) ≡ p.trace_flags
  drop_53 =
      sym (drop-drop 17 36 (join_parts p))
      ∙ ap (drop 17) drop_36
      ∙ drop_past 16 1 p.parent_id _ w.parent_id_length

  hyphen_at-drop :
      (i : ℕ) {r : Text} → drop i (join_parts p) ≡ hyphen ++ r → hyphen_at i (join_parts p) ≡ true
  unfolding hyphen_at
  hyphen_at-drop i h = rw (get_elem?-drop i (join_parts p) h, hyphen_at)

  parts_of-join : parts_of (join_parts p) ≡ p
  unfolding slice
  parts_of-join = λ i. record {
    version = (version i);
    trace_id = (trace_id i);
    parent_id = (parent_id i);
    trace_flags = (flags i);
  }
    where
      version : take 2 (join_parts p) ≡ p.version
      version = unfold join_parts in take_front 2 p.version _ w.version_length

      trace_id : take 32 (drop 3 (join_parts p)) ≡ p.trace_id
      trace_id = ap (take 32) drop_3 ∙ take_front 32 p.trace_id _ w.trace_id_length

      parent_id : take 16 (drop 36 (join_parts p)) ≡ p.parent_id
      parent_id = ap (take 16) drop_36 ∙ take_front 16 p.parent_id _ w.parent_id_length

      flags : take 2 (drop 53 (join_parts p)) ≡ p.trace_flags
      flags = ap (take 2) drop_53 ∙ take_all 2 p.trace_flags (omega (arith, w.trace_flags_length))

  join-Passed : Passed (join_parts p)
  join-Passed = record {
    whole = unfold join_parts in simp length-append (omega (arith, w));
    first = hyphen_at-drop 2 drop_2;
    second = hyphen_at-drop 35 drop_35;
    third = hyphen_at-drop 52 drop_52;
    version_hex = ap (λ q. is_lowercase_hex q.version) parts_of-join ∙ w.version_hex;
    trace_id_hex = ap (λ q. is_lowercase_hex q.trace_id) parts_of-join ∙ w.trace_id_hex;
    parent_id_hex = ap (λ q. is_lowercase_hex q.parent_id) parts_of-join ∙ w.parent_id_hex;
    trace_flags_hex = ap (λ q. is_lowercase_hex q.trace_flags) parts_of-join ∙ w.trace_flags_hex;
    version_allowed = ap (λ q. text_eq q.version (text "ff")) parts_of-join ∙ w.version_allowed;
    trace_id_nonzero = ap (λ q. is_all_zero q.trace_id) parts_of-join ∙ w.trace_id_nonzero;
    parent_id_nonzero = ap (λ q. is_all_zero q.parent_id) parts_of-join ∙ w.parent_id_nonzero;
  }

-- `parse_traceparent` returns the parts p exactly on the text in which p's fields are joined by
-- hyphens, for p that meets the W3C rules on lengths, lowercase hex digits, the version and zeros.
pub parse_traceparent_iff :
    (s : Text) (p : TraceParentParts)
    → (parse_traceparent s ≡ ok p) ↔ (IsWellFormed p × (s ≡ join_parts p))
parse_traceparent_iff s p = (
  parse_traceparent_sound s p,
  λ h.
      ap parse_traceparent h.1
      ∙ Passed-parse_traceparent (join_parts p) (join-Passed p h.0)
      ∙ ap ok (parts_of-join p h.0),
)

-- A text that joins four fields by the W3C rules.
abbrev pub IsTraceparent : Text → Type 0
IsTraceparent s = (p : TraceParentParts) × IsWellFormed p × (s ≡ join_parts p)

pub is_valid_traceparent-IsTraceparent :
    (s : Text) → (is_valid_traceparent s ≡ true) ↔ IsTraceparent s
unfolding is_valid_traceparent
is_valid_traceparent-IsTraceparent s = (
  λ h. elim (Result-cases (parse_traceparent s)) [
    | inl (p, q) ↦ let w = (parse_traceparent_iff s p).0 q in (p, w.0, w.1)
    | inr (e, q) ↦ absurd (cc (rw q at h))
  ],
  λ h. rw ((parse_traceparent_iff s h.0).1 (h.1, h.2)) refl,
)
