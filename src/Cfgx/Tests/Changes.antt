-- ===== src/Cfgx/Tests/Changes.antt =====
-- Writes and removals of src/cfgx.cpp on a concrete configuration.
use toolx_cpp.Prelude.{ℕ, ◌≡◌, refl, inl, bytes_eq, codes}
use toolx_cpp.Prelude.Int.{pos}
use toolx_cpp.Cfgx.Error.{ok, err, done, set_no_object, key_not_found}
use toolx_cpp.Cfgx.Node.{Node, null, integer, find, put, at?, put_at}
use toolx_cpp.Cfgx.Access.{
  try_object, try_array, object_for_set, array_for_set, get_node, indices_supported, set_tokens,
  set_parsed, set_node, remove_tokens, remove_parsed, remove_node,
}
use toolx_cpp.Cfgx.Access.Frame.{Diverges, get_node-set_node, get_node-set_node_ne}
use toolx_cpp.Cfgx.Access.Set.{set_node_atomic}
use toolx_cpp.Cfgx.Access.Gone.{IsMissing, get_node-remove_node}
use toolx_cpp.Prelude.{◌↔◌, Bytes, some, true}
use toolx_cpp.Cfgx.Path.{
  flush, at_boundary, is_bracketed, ends_bracketed, scan_digits, close_index, open_bracket,
  after_escape, after_dot, finish, step, loop, parse_path, format_path_tokens, format_loop,
  join_object_path, escape_path_segment, escape_chars,
}
use toolx_cpp.Cfgx.Canonical.{canonical_ini_path, get_node-canonical_ini_path}
use toolx_cpp.Cfgx.Access.{exists_node, parsed}
use toolx_cpp.Cfgx.Access.Exact.{remove_node_iff}
use toolx_cpp.Cfgx.Tests.Data.{
  read_level, base, base-IsWf, level_path, server_path, name_path, level_tokens, server_tokens,
  parsed-level, parsed-server, parsed-name, parsed-broken, broken_path, name,
}

-- What `Array::max_size()` may be.
abbrev maximum : ℕ
maximum = 1000

write_succeeds : (set_node maximum base server_path (integer (pos 443))).1 ≡ done
unfolding set_node set_parsed indices_supported set_tokens object_for_set array_for_set try_object
    try_array find put at? put_at bytes_eq
write_succeeds = rw parsed-server refl

write_fails : (set_node maximum base broken_path null).1 ≡ err (set_no_object name)
unfolding set_node set_parsed indices_supported set_tokens object_for_set array_for_set try_object
    try_array find put at? put_at bytes_eq
write_fails = rw parsed-broken refl

remove_succeeds : (remove_node base level_path).1 ≡ done
unfolding remove_node remove_parsed remove_tokens try_object try_array find at? bytes_eq
remove_succeeds = rw parsed-level refl

remove_fails : (remove_node base name_path).1 ≡ err (key_not_found name)
unfolding remove_node remove_parsed remove_tokens try_object try_array find at? bytes_eq
remove_fails = rw parsed-name refl

level_apart_from_server : Diverges server_tokens level_tokens
unfolding bytes_eq
level_apart_from_server = inl (λ h. absurd (cc (h)))

get_node-set_node_example :
    get_node (set_node maximum base server_path (integer (pos 443))).0 server_path
    ≡ ok (integer (pos 443))
get_node-set_node_example =
    get_node-set_node maximum base server_path (integer (pos 443)) write_succeeds

get_node-set_node_ne_example :
    get_node (set_node maximum base server_path (integer (pos 443))).0 level_path
    ≡ ok (Node.string (codes "info"))
get_node-set_node_ne_example =
    get_node-set_node_ne maximum base server_path level_path (integer (pos 443)) _ parsed-server
      parsed-level level_apart_from_server read_level

set_node_atomic_example : (set_node maximum base broken_path null).0 ≡ base
set_node_atomic_example = set_node_atomic maximum base broken_path null write_fails

get_node-remove_node_example : IsMissing (get_node (remove_node base level_path).0 level_path)
get_node-remove_node_example =
    get_node-remove_node base level_path level_tokens parsed-level tt base-IsWf remove_succeeds

remove_node_iff_example :
    ((remove_node base level_path).1 ≡ done) ↔ (exists_node base level_path ≡ true)
remove_node_iff_example = remove_node_iff base level_path

-- The text of a path with an escape that it does not need.
abbrev escaped_level : Bytes
escaped_level = codes "lo\\g.level"

escaped_canonical : canonical_ini_path escaped_level ≡ some level_path
unfolding flush at_boundary is_bracketed ends_bracketed scan_digits close_index open_bracket
    after_escape after_dot finish step loop parse_path parsed canonical_ini_path format_path_tokens
    format_loop join_object_path escape_path_segment escape_chars
escaped_canonical = refl

get_node-canonical_ini_path_example :
    (canonical_ini_path level_path ≡ some level_path)
    × (get_node base level_path ≡ get_node base escaped_level)
get_node-canonical_ini_path_example =
    get_node-canonical_ini_path base escaped_level escaped_canonical
