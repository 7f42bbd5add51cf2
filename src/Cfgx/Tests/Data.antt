-- ===== src/Cfgx/Tests/Data.antt =====
-- Two layers of a configuration, and paths into them.
use toolx_cpp.Prelude.{◌≡◌, refl, inl, inr, true, List, [], ◌∷◌, Bytes, codes, bytes_eq}
use toolx_cpp.Prelude.Int.{pos}
use toolx_cpp.Cfgx.Error.{ok}
use toolx_cpp.Cfgx.Node.{
  Node, boolean, integer, string, object, array, end, entry, nil, element, find, at?, IsWf,
}
use toolx_cpp.Cfgx.Path.{
  PathToken, key, index, flush, at_boundary, is_bracketed, ends_bracketed, scan_digits, close_index,
  open_bracket, after_escape, after_dot, finish, step, loop, parse_path,
}
use toolx_cpp.Cfgx.Access.{parsed, get_node, get_tokens, child_of, try_object, try_array}
use toolx_cpp.Cfgx.Merge.Layers.{Untouched}

abbrev pub log : Bytes
log = codes "log"

abbrev pub level : Bytes
level = codes "level"

abbrev pub port : Bytes
port = codes "port"

abbrev pub servers : Bytes
servers = codes "servers"

abbrev pub name : Bytes
name = codes "name"

-- `{log: {level: "info"}, servers: [{port: 80}]}`.
abbrev pub base : Node
base = object (
    entry log (object (entry level (string (codes "info")) end))
      (entry servers (array (element (object (entry port (integer (pos 80)) end)) nil)) end))

-- `{log: {name: "x"}, name: true}`.
abbrev pub overlay : Node
overlay =
    object
      (entry log (object (entry name (string (codes "x")) end)) (entry name (boolean true) end))

abbrev pub level_path : Bytes
level_path = codes "log.level"

abbrev pub server_path : Bytes
server_path = codes "servers[1].port"

abbrev pub name_path : Bytes
name_path = codes "log.name"

abbrev pub broken_path : Bytes
broken_path = codes "servers[0].port.name"

abbrev pub level_tokens : List PathToken
level_tokens = key log ∷ key level ∷ []

abbrev pub server_tokens : List PathToken
server_tokens = key servers ∷ index 1 ∷ key port ∷ []

abbrev pub name_tokens : List PathToken
name_tokens = key log ∷ key name ∷ []

abbrev pub broken_tokens : List PathToken
broken_tokens = key servers ∷ index 0 ∷ key port ∷ key name ∷ []

-- The tokens of the paths.
pub parsed-level : parsed level_path ≡ ok level_tokens
unfolding flush at_boundary is_bracketed ends_bracketed scan_digits close_index open_bracket
    after_escape after_dot finish step loop parse_path parsed
parsed-level = refl

pub parsed-server : parsed server_path ≡ ok server_tokens
unfolding flush at_boundary is_bracketed ends_bracketed scan_digits close_index open_bracket
    after_escape after_dot finish step loop parse_path parsed
parsed-server = refl

pub parsed-name : parsed name_path ≡ ok name_tokens
unfolding flush at_boundary is_bracketed ends_bracketed scan_digits close_index open_bracket
    after_escape after_dot finish step loop parse_path parsed
parsed-name = refl

pub parsed-broken : parsed broken_path ≡ ok broken_tokens
unfolding flush at_boundary is_bracketed ends_bracketed scan_digits close_index open_bracket
    after_escape after_dot finish step loop parse_path parsed
parsed-broken = refl

pub base-IsWf : IsWf base
unfolding IsWf find bytes_eq
base-IsWf = (refl, (refl, tt, tt), (refl, ((refl, tt, tt), tt), tt))

pub overlay-IsWf : IsWf overlay
unfolding IsWf find bytes_eq
overlay-IsWf = (refl, (refl, tt, tt), (refl, tt, tt))

-- What stands at the paths in the layers.
pub read_level : get_node base level_path ≡ ok (string (codes "info"))
unfolding get_node get_tokens child_of try_object try_array find at? bytes_eq
read_level = rw parsed-level refl

pub read_name : get_node overlay name_path ≡ ok (string (codes "x"))
unfolding get_node get_tokens child_of try_object try_array find at? bytes_eq
read_name = rw parsed-name refl

pub level-Untouched : Untouched level_tokens overlay
unfolding find bytes_eq
level-Untouched = (_, refl, inr (_, refl, (_, refl, inl refl)))
