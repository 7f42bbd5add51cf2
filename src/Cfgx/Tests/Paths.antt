-- ===== src/Cfgx/Tests/Paths.antt =====
-- The path functions of src/cfgx.cpp on concrete paths.
use toolx_cpp.Prelude.{◌≡◌, refl, List, [], ◌∷◌, codes, arith}
use mathlib.Core.List.{cons-ne-nil}
use toolx_cpp.Cfgx.Error.{Result, ok, err, invalid_path, empty_segment, index_too_large}
use toolx_cpp.Cfgx.Path.{
  PathToken, key, index, answer, parse_path, format_path_tokens, flush, at_boundary, is_bracketed,
  ends_bracketed, scan_digits, close_index, open_bracket, after_escape, after_dot, finish, step,
  loop,
}
use toolx_cpp.Cfgx.Path.Run.{parse_path_total}
use toolx_cpp.Cfgx.Path.RoundTrip.{parse_path-format_path_tokens}

-- Two dots in a row are refused behind a key.
double_dot : parse_path (codes "a..b") ≡ answer (err (invalid_path 2 empty_segment))
unfolding flush at_boundary is_bracketed ends_bracketed scan_digits close_index open_bracket
    after_escape after_dot finish step loop parse_path
double_dot = refl

-- Behind an index they are not: the path is that of `[0].a`.
double_dot_bracket : parse_path (codes "[0]..a") ≡ answer (ok (index 0 ∷ key (codes "a") ∷ []))
unfolding flush at_boundary is_bracketed ends_bracketed scan_digits close_index open_bracket
    after_escape after_dot finish step loop parse_path
double_dot_bracket = refl

-- An index above the bound of a size_t.
large_index :
    parse_path (codes "[18446744073709551616]") ≡ answer (err (invalid_path 20 index_too_large))
unfolding flush at_boundary is_bracketed ends_bracketed scan_digits close_index open_bracket
    after_escape after_dot finish step loop parse_path
large_index = refl

-- A path with a dot inside a key, an index and an empty key.
abbrev odd_path : List PathToken
odd_path = key (codes "a.b[") ∷ index 18446744073709551615 ∷ key [] ∷ []

parse_path_total_example :
    (r : Result (List PathToken)) × (parse_path (codes "a[12].b\\.c") ≡ answer r)
parse_path_total_example = parse_path_total (codes "a[12].b\\.c")

parse_path-format_path_tokens_example :
    parse_path (format_path_tokens odd_path) ≡ answer (ok odd_path)
parse_path-format_path_tokens_example =
    parse_path-format_path_tokens odd_path (cons-ne-nil _ _) (tt, (omega arith, (tt, tt)))
