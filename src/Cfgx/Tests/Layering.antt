-- ===== src/Cfgx/Tests/Layering.antt =====
-- `Merge` of src/cfgx.cpp on two concrete layers.
use toolx_cpp.Prelude.{◌≡◌, refl, true, false, codes}
use toolx_cpp.Cfgx.Error.{ok}
use toolx_cpp.Cfgx.Node.{string, Entries, end, entry, find, IsWf, AreWf, is_object}
use toolx_cpp.Cfgx.Access.{get_node}
use toolx_cpp.Cfgx.Merge.{merge, merge_into}
use toolx_cpp.Cfgx.Merge.Idempotent.{merge_into_idem}
use toolx_cpp.Cfgx.Merge.Layers.{get_node-merge_overlay, get_node-merge_base}
use toolx_cpp.Cfgx.Tests.Data.{
  base, overlay, read_level, read_name, level-Untouched, overlay-IsWf, level_path, name_path,
  level_tokens, parsed-level, log, name,
}

get_node-merge_overlay_example :
    get_node (merge base overlay false).0 name_path ≡ ok (string (codes "x"))
get_node-merge_overlay_example =
    get_node-merge_overlay base overlay name_path (string (codes "x")) overlay-IsWf
      (unfold is_object in refl) read_name

get_node-merge_base_example :
    get_node (merge base overlay true).0 level_path ≡ ok (string (codes "info"))
get_node-merge_base_example =
    get_node-merge_base base overlay true level_path level_tokens (string (codes "info"))
      overlay-IsWf parsed-level level-Untouched read_level

merge_into_idem_example :
    merge_into false overlay (merge_into false overlay base) ≡ merge_into false overlay base
merge_into_idem_example = merge_into_idem overlay base overlay-IsWf

abbrev log_entries : Entries
log_entries = entry log (string (codes "info")) (entry name (string (codes "y")) end)

abbrev name_entries : Entries
name_entries = entry name (string (codes "x")) end

name_entries-AreWf : AreWf name_entries
unfolding AreWf IsWf find
name_entries-AreWf = (refl, tt, tt)
