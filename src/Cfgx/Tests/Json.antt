-- ===== src/Cfgx/Tests/Json.antt =====
-- `ParseJson` and `ToJson` of src/cfgx.cpp on concrete texts and nodes.
use toolx_cpp.Prelude.{ℕ, ◌≡◌, refl, [], ◌∷◌, Bytes, Option, some, codes, arith}
use toolx_cpp.Prelude.Int.{pos, negsuc}
use toolx_cpp.Cfgx.Path.{decimal, to_string}
use toolx_cpp.Cfgx.Node.{Node, integer, double, string, object, array, end, entry, nil, element}
use toolx_cpp.Cfgx.Json.Cursor.{
  Place, move, is_space, skip_space, parsed, failed, invalid_low, trailing_content,
}
use toolx_cpp.Cfgx.Json.Text.{
  quad_digit, read_digits, read_quad, low_surrogate, unicode_escape, utf8_bytes, simple_escape,
  escape_bytes, string_step, string_loop, parse_string, hex_digit, escape_char, escape_json,
}
use toolx_cpp.Cfgx.Json.Number.{
  is_number_char, skip_digits, consume_digits, after_integer, after_fraction, after_exponent,
  is_json_number, int64_text,
}
use toolx_cpp.Cfgx.Json.Parser.{literal, parse_literal, start_at, parse_value, parse_json}
use toolx_cpp.Cfgx.Json.Printer.{
  is_finite, has_point, quoted, line_break, double_text, append_json, to_json,
}
use toolx_cpp.Cfgx.Json.Values.{ReadsBack, IsPrintable}
use toolx_cpp.Cfgx.Json.RoundTrip.{parse_json-to_json}
use toolx_cpp.Cfgx.Json.Within.{Within}
use toolx_cpp.Cfgx.Json.Fuel.{parse_json-total}

-- A C++ library that knows the double 1.5 only.
abbrev one_and_half : ℕ
one_and_half = 0x3ff8000000000000

abbrev show_some : ℕ → Bytes
show_some d = codes "1.5"

abbrev read_some : Bytes → Option ℕ
read_some s = some one_and_half

abbrev sample : Node
sample = object (
    entry (codes "a\"b") (array (element (integer (negsuc 6)) (element (double one_and_half) nil)))
      (entry (codes "e") (object end) (entry (codes "s") (string (codes "x\\y")) end)))

-- A pair of surrogates is one code point of four bytes.
surrogate_pair :
    parse_json read_some (codes " \"\\ud83d\\ude00\" ")
    ≡ parsed (string (240 ∷ 159 ∷ 152 ∷ 128 ∷ [])) [] (record { line = 1; column = 17 })
unfolding is_space skip_space quad_digit read_digits read_quad low_surrogate unicode_escape
    utf8_bytes simple_escape escape_bytes string_step string_loop parse_string start_at parse_value
    parse_json move
surrogate_pair = refl

lone_surrogate :
    parse_json read_some (codes "\"\\ud83d\\u0041\"")
    ≡ failed invalid_low (record { line = 1; column = 14 })
unfolding is_space skip_space quad_digit read_digits read_quad low_surrogate unicode_escape
    utf8_bytes simple_escape escape_bytes string_step string_loop parse_string start_at parse_value
    parse_json move
lone_surrogate = refl

-- The place behind a line break.
trailing :
    parse_json read_some (codes "null\n x")
    ≡ failed trailing_content (record { line = 2; column = 2 })
unfolding is_space skip_space literal parse_literal start_at parse_value parse_json move
trailing = refl

sample_text :
    to_json show_some sample (pos 1)
    ≡ codes "{\n \"a\\\"b\": [\n  -7,\n  1.5\n ],\n \"e\": {},\n \"s\": \"x\\\\y\"\n}"
unfolding hex_digit escape_char escape_json decimal to_string int64_text is_finite has_point quoted
    line_break double_text append_json to_json
sample_text = refl

one_and_half-ReadsBack : ReadsBack show_some read_some one_and_half
unfolding is_finite has_point double_text is_number_char is_json_number skip_digits consume_digits
    after_integer after_fraction after_exponent
one_and_half-ReadsBack = record {
  finite = refl;
  chars = (refl, (refl, (refl, tt)));
  grammar = refl;
  reads = refl;
}

sample-IsPrintable : IsPrintable show_some read_some sample
unfolding IsPrintable
sample-IsPrintable = ((omega arith, (one_and_half-ReadsBack, tt)), (tt, (tt, tt)))

parse_json-to_json_example :
    (q : Place) × (parse_json read_some (to_json show_some sample (pos 1)) ≡ parsed sample [] q)
parse_json-to_json_example =
    parse_json-to_json show_some read_some sample (pos 1) sample-IsPrintable

parse_json-total_example : Within 0 (parse_json read_some (codes "[1, {\"a\": 1e"))
parse_json-total_example = parse_json-total read_some (codes "[1, {\"a\": 1e")
