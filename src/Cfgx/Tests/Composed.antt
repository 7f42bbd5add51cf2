-- ===== src/Cfgx/Tests/Composed.antt =====
-- A log of overrides and a composition of layers as src/cfgx.cpp makes them.
use toolx_cpp.Prelude.{ℕ, ◌≡◌, ◌≢◌, refl, false, bytes_eq, codes, none, some, All}
use toolx_cpp.Cfgx.Error.{ok, done}
use toolx_cpp.Cfgx.Node.{
  Node, null, string, object, end, entry, find, put, erase_entry, IsWf, is_object,
}
use toolx_cpp.Cfgx.Access.{
  parsed, try_object, try_array, object_for_set, array_for_set, get_node, indices_supported,
  set_tokens, set_parsed, set_node, remove_tokens, remove_parsed, remove_node,
}
use toolx_cpp.Cfgx.Path.{
  flush, at_boundary, is_bracketed, ends_bracketed, scan_digits, close_index, open_bracket,
  after_escape, after_dot, finish, step, loop, parse_path,
}
use toolx_cpp.Cfgx.Merge.{merge_into}
use toolx_cpp.Cfgx.Overrides.{
  RuntimeOverrides, no_overrides, set_override, remove_override, apply_kind, apply_ops, materialize,
}
use toolx_cpp.Cfgx.Overrides.Laws.{
  get_node-set_override, has_no_ops-set_override, set_override-values,
}
use toolx_cpp.Cfgx.Overrides.Removed.{get_node-remove_override}
use toolx_cpp.Cfgx.Compose.{Layers, over_layer, over_runtime, compose_layers}
use toolx_cpp.Cfgx.Compose.Precedence.{
  get_node-compose_base, get_node-compose_local, get_node-compose_override,
}
use toolx_cpp.Cfgx.Tests.Data.{
  base, overlay, overlay-IsWf, level_path, name_path, parsed-level, parsed-name, log, name,
  read_level, read_name, level-Untouched,
}

abbrev maximum : ℕ
maximum = 1000

abbrev value : Node
value = string (codes "y")

-- The log with one `Set`, and the configuration that it gives.
abbrev one_set : RuntimeOverrides
one_set = (set_override no_overrides name_path value).0

abbrev one_value : Node
one_value = object (entry log (object (entry name value end)) end)

set_accepted : (set_override no_overrides name_path value).1 ≡ done
unfolding set_override
set_accepted = rw parsed-name refl

materialized : materialize maximum one_set ≡ ok one_value
unfolding flush at_boundary is_bracketed ends_bracketed scan_digits close_index open_bracket
    after_escape after_dot finish step loop parse_path parsed no_overrides set_override materialize
    apply_ops apply_kind set_node set_parsed indices_supported set_tokens object_for_set
    array_for_set try_object try_array find put bytes_eq
materialized = refl

no_overrides-IsWf : All (λ op. IsWf op.value) no_overrides.ops
unfolding no_overrides
no_overrides-IsWf = tt

one_set-IsWf : All (λ op. IsWf op.value) one_set.ops
unfolding IsWf
one_set-IsWf = set_override-values no_overrides name_path value no_overrides-IsWf tt

removed :
    materialize maximum (remove_override one_set name_path).0
    ≡ ok (object (entry log (object end) end))
unfolding flush at_boundary is_bracketed ends_bracketed scan_digits close_index open_bracket
    after_escape after_dot finish step loop parse_path parsed no_overrides set_override
    remove_override materialize apply_ops apply_kind set_node set_parsed indices_supported
    set_tokens object_for_set array_for_set try_object try_array find put bytes_eq remove_node
    remove_parsed remove_tokens erase_entry
removed = refl

get_node-set_override_example : get_node one_value name_path ≡ ok value
get_node-set_override_example =
    get_node-set_override maximum no_overrides name_path value set_accepted materialized

get_node-remove_override_example :
    get_node (object (entry log (object end) end)) name_path ≢ ok null
get_node-remove_override_example =
    get_node-remove_override maximum one_set name_path one_set-IsWf parsed-name tt removed

-- Layers of which only one is given.
abbrev env_only : Layers
env_only = record { env = some overlay; remote = none; local = none; runtime = none }

abbrev local_only : Layers
local_only = record { env = none; remote = none; local = some overlay; runtime = none }

abbrev runtime_over_local : Layers
runtime_over_local = record {
  env = none;
  remote = none;
  local = some overlay;
  runtime = some one_set;
}

composed_env : compose_layers false maximum base env_only ≡ ok (merge_into false overlay base)
unfolding compose_layers over_layer over_runtime
composed_env = refl

composed_local : compose_layers false maximum base local_only ≡ ok (merge_into false overlay base)
unfolding compose_layers over_layer over_runtime
composed_local = refl

composed_runtime :
    compose_layers false maximum base runtime_over_local
    ≡ ok (merge_into false one_value (merge_into false overlay base))
unfolding compose_layers over_layer over_runtime
composed_runtime =
    rw (has_no_ops-set_override no_overrides name_path value set_accepted, materialized) refl

get_node-compose_base_example :
    get_node (merge_into false overlay base) level_path ≡ ok (string (codes "info"))
get_node-compose_base_example =
    get_node-compose_base false maximum base env_only level_path parsed-level
      (overlay-IsWf, level-Untouched) tt tt tt read_level composed_env

get_node-compose_local_example :
    get_node (merge_into false overlay base) name_path ≡ ok (string (codes "x"))
get_node-compose_local_example =
    get_node-compose_local maximum base local_only overlay name_path parsed-name refl overlay-IsWf
      (unfold is_object in refl) read_name tt composed_local

get_node-compose_override_example :
    get_node (merge_into false one_value (merge_into false overlay base)) name_path ≡ ok value
get_node-compose_override_example =
    get_node-compose_override maximum base runtime_over_local no_overrides name_path value
      set_accepted refl no_overrides-IsWf (unfold IsWf in tt) (unfold is_object in refl)
      composed_runtime
