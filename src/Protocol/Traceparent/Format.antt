-- ===== src/Protocol/Traceparent/Format.antt =====
-- otk-protocol/src/traceparent.rs: `parse_traceparent` reads back what `format_traceparent` prints.
use otk_core.Prelude.{
  ℕ, zero, suc, ◌+◌, ◌-◌, ◌*◌, ◌/◌, ◌%◌, ◌^◌, ◌<◌, ◌≡◌, refl, Bool, true, false, ◌&&◌, some, [],
  ◌∷◌, ◌++◌, Text, arith, text, leb, ◌==◌, if◌then◌else◌, length, all, ok, length-append, ◌≢◌,
}
use otk_core.Protocol.Traceparent.{
  TraceParentParts, is_hex_byte, is_lowercase_hex, is_all_zero, parse_traceparent, hex_digit,
  hex_text, format_traceparent,
}
use otk_core.Protocol.Traceparent.Parse.{IsWellFormed, join_parts, parse_traceparent_iff}
use native.Mathlib.Nat.{pow-suc}

-- The number that a hexadecimal text stands for.
abbrev hex_value : ℕ → ℕ
hex_value b = if leb b b'9' then b - b'0' else b - b'a' + 10

unfoldable pub from_hex : ℕ → Text → ℕ
from_hex acc [] = acc
from_hex acc (b ∷ bs) = from_hex (acc * 16 + hex_value b) bs

from_hex-append : (acc : ℕ) (xs ys : Text) → from_hex acc (xs ++ ys) ≡ from_hex (from_hex acc xs) ys
unfolding from_hex
from_hex-append acc [] ys = refl
from_hex-append acc (x ∷ xs) ys = from_hex-append (acc * 16 + hex_value x) xs ys

pub from_hex-hex_text : (k n : ℕ) → n < 16 ^ k → from_hex 0 (hex_text k n) ≡ n
unfolding hex_text from_hex
from_hex-hex_text zero n h = omega arith
from_hex-hex_text (suc k) n h = ground (
  arith,
  from_hex-append 0 (hex_text k (n / 16)) (hex_digit (n % 16) ∷ []),
  from_hex-hex_text k (n / 16) (omega (arith, pow-suc 16 k)),
)

pub length-hex_text : (k n : ℕ) → length (hex_text k n) ≡ k
unfolding hex_text
length-hex_text zero n = refl
length-hex_text (suc k) n = omega (
  arith,
  length-append (hex_text k (n / 16)) (hex_digit (n % 16) ∷ []),
  length-hex_text k (n / 16),
)

all-append : (p : ℕ → Bool) (xs ys : Text) → all p (xs ++ ys) ≡ (all p xs && all p ys)
all-append p [] ys = refl
all-append p (x ∷ xs) ys = ground (arith, all-append p xs ys)

hex_text-is_lowercase_hex : (k n : ℕ) → is_lowercase_hex (hex_text k n) ≡ true
unfolding hex_text is_lowercase_hex
hex_text-is_lowercase_hex zero n = refl
hex_text-is_lowercase_hex (suc k) n = ground (
  arith,
  all-append is_hex_byte (hex_text k (n / 16)) (hex_digit (n % 16) ∷ []),
  hex_text-is_lowercase_hex k (n / 16),
)

hex_text-is_all_zero : (k n : ℕ) → is_all_zero (hex_text k n) ≡ true → n < 16 ^ k → n ≡ 0
unfolding hex_text is_all_zero
hex_text-is_all_zero zero n z h = omega arith
hex_text-is_all_zero (suc k) n z h = ground (
  arith,
  all-append (λ b. b == b'0') (hex_text k (n / 16)) (hex_digit (n % 16) ∷ []),
  hex_text-is_all_zero k (n / 16),
  pow-suc 16 k,
)

-- The parts that `format_traceparent` prints: version 00 and the three numbers in hexadecimal.
abbrev printed_parts : ℕ → ℕ → ℕ → TraceParentParts
printed_parts trace_id parent_id trace_flags = record {
  version = text "00";
  trace_id = hex_text 32 trace_id;
  parent_id = hex_text 16 parent_id;
  trace_flags = hex_text 2 trace_flags;
}

module _ (t p f : ℕ) (t_range : t < 2 ^ 128) (p_range : p < 2 ^ 64) (f_range : f < 2 ^ 8) where
  printed-IsWellFormed : t ≢ 0 → p ≢ 0 → IsWellFormed (printed_parts t p f)
  printed-IsWellFormed ht hp = record {
    version_length = refl;
    trace_id_length = length-hex_text 32 t;
    parent_id_length = length-hex_text 16 p;
    trace_flags_length = length-hex_text 2 f;
    version_hex = unfold is_lowercase_hex in refl;
    trace_id_hex = hex_text-is_lowercase_hex 32 t;
    parent_id_hex = hex_text-is_lowercase_hex 16 p;
    trace_flags_hex = hex_text-is_lowercase_hex 2 f;
    version_allowed = refl;
    trace_id_nonzero = nonzero 32 t ht t_range;
    parent_id_nonzero = nonzero 16 p hp p_range;
  }
    where
      nonzero : (k n : ℕ) → n ≢ 0 → n < 16 ^ k → is_all_zero (hex_text k n) ≡ false
      nonzero k n h r = ground (arith, hex_text-is_all_zero k n)

  -- For a nonzero u128 trace id, a nonzero u64 parent id and a u8 of flags, `format_traceparent`
  -- prints a text that `parse_traceparent` accepts, whose version is 00 and whose other fields, read
  -- as hexadecimal, are the three numbers.
  pub parse-format_traceparent :
      t ≢ 0
      → p ≢ 0
      → (s : Text) × (q : TraceParentParts) × (format_traceparent t p f ≡ some s)
        × (parse_traceparent s ≡ ok q)
        × (q.version ≡ text "00")
        × (from_hex 0 q.trace_id ≡ t)
        × (from_hex 0 q.parent_id ≡ p)
        × (from_hex 0 q.trace_flags ≡ f)
  parse-format_traceparent ht hp = (
    join_parts (printed_parts t p f),
    printed_parts t p f,
    unfold format_traceparent join_parts in ground arith,
    (parse_traceparent_iff _ _).1 (printed-IsWellFormed ht hp, refl),
    refl,
    from_hex-hex_text 32 t t_range,
    from_hex-hex_text 16 p p_range,
    from_hex-hex_text 2 f f_range,
  )
