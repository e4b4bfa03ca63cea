-- ===== src/Protocol/Traceparent/Examples.antt =====
-- otk-protocol/src/traceparent.rs: tests, and the theorems at concrete inputs.
use otk_core.Prelude.{◌≡◌, refl, ◌↔◌, some, Text, arith, text, ok, err, false, ℕ}
use otk_core.Protocol.Traceparent.{
  TraceParentParts, parse_traceparent, format_traceparent, is_valid_traceparent, invalid_hex,
  is_lowercase_hex, is_all_zero, slice, hyphen_at,
}
use otk_core.Protocol.Traceparent.Parse.{IsWellFormed, join_parts, parse_traceparent_iff}
use otk_core.Protocol.Traceparent.Format.{parse-format_traceparent, from_hex}

abbrev sample : Text
sample = text "00-0af7651916cd43dd8448eb211c80319c-b7ad6b7169203331-01"

abbrev sample_parts : TraceParentParts
sample_parts = record {
  version = text "00";
  trace_id = text "0af7651916cd43dd8448eb211c80319c";
  parent_id = text "b7ad6b7169203331";
  trace_flags = text "01";
}

sample_parses : parse_traceparent sample ≡ ok sample_parts
unfolding parse_traceparent is_lowercase_hex is_all_zero slice hyphen_at
sample_parses = refl

uppercase_refused :
    parse_traceparent (text "00-0AF7651916cd43dd8448eb211c80319c-b7ad6b7169203331-01")
    ≡ err invalid_hex
unfolding parse_traceparent is_lowercase_hex is_all_zero slice hyphen_at
uppercase_refused = refl

zero_trace_id_refused :
    is_valid_traceparent (text "00-00000000000000000000000000000000-b7ad6b7169203331-01") ≡ false
unfolding is_valid_traceparent parse_traceparent is_lowercase_hex is_all_zero slice hyphen_at
zero_trace_id_refused = refl

parse_traceparent_iff_example :
    (parse_traceparent sample ≡ ok sample_parts)
    ↔ (IsWellFormed sample_parts × (sample ≡ join_parts sample_parts))
parse_traceparent_iff_example = parse_traceparent_iff sample sample_parts

abbrev trace_number : ℕ
trace_number = 0x0af7651916cd43dd8448eb211c80319c

parse-format_traceparent_example :
    (s : Text) × (q : TraceParentParts) × (format_traceparent trace_number 7 1 ≡ some s)
    × (parse_traceparent s ≡ ok q)
    × (q.version ≡ text "00")
    × (from_hex 0 q.trace_id ≡ trace_number)
    × (from_hex 0 q.parent_id ≡ 7)
    × (from_hex 0 q.trace_flags ≡ 1)
parse-format_traceparent_example =
    parse-format_traceparent trace_number 7 1 (omega arith) (omega arith) (omega arith)
      (omega arith) (omega arith)
