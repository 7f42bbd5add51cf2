-- ===== src/Schemax/Tests.antt =====
-- The schema validator of src/schemax.cpp on a small schema.
use toolx_cpp.Prelude.{◌≡◌, refl, true, false, [], ◌∷◌, ◌+◌, ◌*◌, ◌^◌, some, codes, take, bytes_eq}
use toolx_cpp.Prelude.{◌↔◌}
use toolx_cpp.Prelude.Int.{pos}
use toolx_cpp.Cfgx.Error.{ok}
use toolx_cpp.Cfgx.Path.{
  decimal, to_string, key, answer, parse_path, flush, at_boundary, is_bracketed, ends_bracketed,
  scan_digits, close_index, open_bracket, after_escape, after_dot, finish, step, loop,
}
use toolx_cpp.Cfgx.Node.{
  Node, boolean, integer, double, string, object, array, end, entry, nil, element, is_object, find,
}
use toolx_cpp.Cfgx.Access.{try_object, try_array}
use toolx_cpp.Schemax.Numbers.{
  greater, compare_nat, compare_int, is_nan, compare_double, whole_part, bit_count, double_of_nat,
  double_of_int, compare_integer_to_double, is_number, as_double, as_int, as_size,
}
use toolx_cpp.Schemax.Nodes.{
  get, as_string, as_bool, one_of, is_supported_key, is_known_type, has_kind, compare_numbers,
  type_matches, escape_child, escaped, append_path, append_index,
}
use toolx_cpp.Schemax.Compile.{
  fine, refused, unsupported_key, check_keys, check_strings, check_required, check_properties,
  check_property_object, is_length, check_number, check_length, check_scalars, check_type,
  check_node, validate_schema_node, node_count, compile,
}
use toolx_cpp.Schemax.Issue.{
  issue, required_issue, additional_issue, minimum_issue, max_length_issue,
}
use toolx_cpp.Schemax.Validate.{
  push_issue, type_part, required_loop, required_part, properties_loop, properties_part,
  additional_loop, additional_part, items_loop, items_part, number_part, length_part, enum_part,
  node_parts, validate_node, validate,
}
use toolx_cpp.Schemax.Issues.{issues_to}
use toolx_cpp.Schemax.Complete.{Conforms, validate-Conforms}
use toolx_cpp.Schemax.Laws.{validate-issues}
use toolx_cpp.Schemax.Fuel.{IsVerdict, compile-IsVerdict}

abbrev schema : Node
schema = object (
    entry (codes "type") (string (codes "object")) (
      entry (codes "required") (array (element (string (codes "$")) nil)) (
        entry (codes "properties")
          (object (
            entry (codes "a")
              (object (entry (codes "minimum") (double (1023 * 2 ^ 52 + 2 ^ 51)) end))
              (entry (codes "b")
                (object (
                  entry (codes "items") (object (entry (codes "maxLength") (integer (pos 2)) end))
                    end))
                end)))
          (entry (codes "additionalProperties") (boolean false) end))))

-- 1 is below 1.5.
abbrev document : Node
document = object (
    entry (codes "a") (integer (pos 1)) (
      entry (codes "b") (array (element (string (codes "xyz")) nil))
        (entry (codes "c.d") (boolean true) end)))

schema_accepted : compile schema ≡ fine
unfolding bytes_eq get find try_object try_array as_string one_of is_supported_key is_known_type
    has_kind is_number as_int check_keys check_strings check_required check_properties
    check_property_object is_length check_number check_length check_scalars check_type check_node
    validate_schema_node node_count compile
schema_accepted = refl

unknown_key :
    compile (object (entry (codes "pattern") (boolean true) end))
    ≡ refused (unsupported_key (codes "pattern")) (codes "$")
unfolding bytes_eq get find try_object one_of is_supported_key check_keys check_node
    validate_schema_node node_count compile
unknown_key = refl

all_issues :
    validate document schema false
    ≡ some (
        issue (codes "\\$") (codes "required") (codes "required property is missing")
        ∷ issue (codes "a") (codes "minimum") (codes "numeric value is below minimum")
        ∷ issue (codes "b[0]") (codes "maxLength") (codes "string length is above maximum")
        ∷ issue
            (codes "c\\.d")
            (codes "additionalProperties")
            (codes "additional property is not allowed")
        ∷ [])
unfolding bytes_eq get find try_object try_array is_object as_string as_bool has_kind is_number
    as_int as_double as_size decimal to_string compare_nat compare_int is_nan compare_double
    whole_part bit_count double_of_nat double_of_int compare_integer_to_double compare_numbers
    type_matches escape_child escaped append_path append_index push_issue type_part required_loop
    required_part properties_loop properties_part additional_loop additional_part items_loop
    items_part number_part length_part enum_part node_parts validate_node node_count validate
    required_issue additional_issue minimum_issue max_length_issue
all_issues = refl

-- 2^53 + 1 is no double.
exact_comparison : compare_numbers (integer (pos (2 ^ 53 + 1))) (double (1076 * 2 ^ 52)) ≡ greater
unfolding is_number as_double compare_nat compare_int is_nan compare_double whole_part bit_count
    double_of_nat double_of_int compare_integer_to_double compare_numbers
exact_comparison = refl

validate-issues_example :
    validate document schema true ≡ some (take 1 (issues_to (node_count schema) document schema []))
validate-issues_example = validate-issues document schema true schema_accepted

compile-IsVerdict_example : IsVerdict (compile schema)
compile-IsVerdict_example = compile-IsVerdict schema

-- The key `$` is escaped, unlike the place of the whole document.
dollar_key :
    parse_path (append_path (codes "a") (codes "$"))
    ≡ answer (ok (key (codes "a") ∷ key (codes "$") ∷ []))
unfolding bytes_eq escape_child escaped append_path flush at_boundary is_bracketed ends_bracketed
    scan_digits close_index open_bracket after_escape after_dot finish step loop parse_path
dollar_key = refl

validate-Conforms_example :
    (validate document schema true ≡ some []) ↔ Conforms (node_count schema) document schema
validate-Conforms_example = validate-Conforms document schema true schema_accepted
