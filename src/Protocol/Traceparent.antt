-- ===== src/Protocol/Traceparent.antt =====
-- otk-protocol/src/traceparent.rs: parsing, validating and printing W3C `traceparent` values.
pub mod Parse
pub mod Format
mod Examples
use otk_core.Prelude.{
  ℕ, zero, suc, ◌+◌, ◌-◌, ◌/◌, ◌%◌, Bool, false, not, ◌&&◌, ◌||◌, Option, none, some, [], ◌∷◌, ◌++◌,
  Text, text, text_eq, ltb, leb, ◌==◌, if◌then◌else◌, length, get_elem?, take, drop, all, Result,
  ok, err, is_ok,
}

pub data TraceParentError : Type 0 where
  invalid_length : ℕ → TraceParentError
  invalid_structure : TraceParentError
  invalid_hex : TraceParentError
  forbidden_version : TraceParentError
  invalid_trace_id : TraceParentError
  invalid_parent_id : TraceParentError

pub record TraceParentParts : Type 0 where
  pub version : Text
  pub trace_id : Text
  pub parent_id : Text
  pub trace_flags : Text

-- `b.is_ascii_digit() || (b'a'..=b'f').contains(&b)`
abbrev pub is_hex_byte : ℕ → Bool
is_hex_byte b = (leb b'0' b && leb b b'9') || (leb b'a' b && leb b b'f')

unfoldable pub is_lowercase_hex : Text → Bool
is_lowercase_hex s = all is_hex_byte s

unfoldable pub is_all_zero : Text → Bool
is_all_zero s = all (λ b. b == b'0') s

-- `&s[from..to]`
unfoldable pub slice : ℕ → ℕ → Text → Text
slice from len s = take len (drop from s)

-- `bytes[i] != b'-'`, at an index that the length check has put in bounds.
unfoldable pub hyphen_at : ℕ → Text → Bool
hyphen_at i s = elim (get_elem? s i) [ some b ↦ b == b'-' | none ↦ false ]

unfoldable pub parse_traceparent : Text → Result TraceParentError TraceParentParts
parse_traceparent s =
    if not (length s == 55)
    then err (invalid_length (length s))
    else if not (hyphen_at 2 s) || not (hyphen_at 35 s) || not (hyphen_at 52 s)
    then err invalid_structure
    else let version = slice 0 2 s in
      let trace_id = slice 3 32 s in
      let parent_id = slice 36 16 s in
      let trace_flags = slice 53 2 s in
      if not (is_lowercase_hex version)
        || not (is_lowercase_hex trace_id)
        || not (is_lowercase_hex parent_id)
        || not (is_lowercase_hex trace_flags)
      then err invalid_hex
      else if text_eq version (text "ff")
      then err forbidden_version
      else if is_all_zero trace_id
      then err invalid_trace_id
      else if is_all_zero parent_id
      then err invalid_parent_id
      else ok (record {
        version = version;
        trace_id = trace_id;
        parent_id = parent_id;
        trace_flags = trace_flags;
      })

unfoldable pub is_valid_traceparent : Text → Bool
unfolding parse_traceparent
is_valid_traceparent s = is_ok (parse_traceparent s)

-- One digit of `{:x}`.
abbrev pub hex_digit : ℕ → ℕ
hex_digit d = if ltb d 10 then b'0' + d else b'a' + (d - 10)

-- `{:0kx}` of a number below 16 ^ k.
unfoldable pub hex_text : ℕ → ℕ → Text
hex_text zero n = []
hex_text (suc k) n = hex_text k (n / 16) ++ hex_digit (n % 16) ∷ []

abbrev pub hyphen : Text
hyphen = b'-' ∷ []

-- `trace_id`, `parent_id` and `trace_flags` are a u128, a u64 and a u8.
unfoldable pub format_traceparent : ℕ → ℕ → ℕ → Option Text
unfolding hex_text
format_traceparent trace_id parent_id trace_flags =
    if trace_id == 0 || parent_id == 0
    then none
    else some (
        text "00"
        ++ (hyphen
            ++ (hex_text 32 trace_id
                ++ (hyphen ++ (hex_text 16 parent_id ++ (hyphen ++ hex_text 2 trace_flags))))))
