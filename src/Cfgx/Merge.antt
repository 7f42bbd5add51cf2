-- ===== src/Cfgx/Merge.antt =====
-- Layering of configurations: `Merge` of src/cfgx.cpp, which is `MergeInternal` with no source trace.
pub mod Lookup
pub mod Idempotent
pub mod Layers
use toolx_cpp.Prelude.{Bool, true, false, Bytes, Option, none, some, if◌then◌else◌}
use toolx_cpp.Cfgx.Error.{Status, done}
use toolx_cpp.Cfgx.Node.{
  Node, null, boolean, integer, double, string, object, array, Entries, end, entry, Elements, nil,
  element, find, put,
}
use toolx_cpp.Cfgx.Access.{Change, try_object, try_array}

-- `dst->insert(dst->end(), src->begin(), src->end())`.
pub append_elements : Elements → Elements → Elements
append_elements nil src = src
append_elements (element n dst) src = element n (append_elements dst src)

-- The arguments are the overlay and then the base. The loop over the overlay's entries looks each
-- key up in the object as it stands, and pushes the entry where the key is missing.
mutual
  pub merge_into : Bool → Node → Node → Node
  merge_into append_arrays (object src) base = elim (try_object base) [
    | none ↦ object src
    | some dst ↦ object (merge_entries append_arrays src dst)
  ]
  merge_into append_arrays (array src) base = elim (try_array base) [
    | none ↦ array src
    | some dst ↦ if append_arrays then array (append_elements dst src) else array src
  ]
  merge_into append_arrays null base = null
  merge_into append_arrays (boolean b) base = boolean b
  merge_into append_arrays (integer i) base = integer i
  merge_into append_arrays (double d) base = double d
  merge_into append_arrays (string s) base = string s

  pub merge_entries : Bool → Entries → Entries → Entries
  merge_entries append_arrays end dst = dst
  merge_entries append_arrays (entry k v src) dst =
      merge_entries append_arrays src (elim (find k dst) [
        | none ↦ put k v dst
        | some n ↦ put k (merge_into append_arrays v n) dst
      ])

-- The base as the call leaves it, and the status: no branch fails.
unfoldable pub merge : Node → Node → Bool → Change
merge base overlay append_arrays = (merge_into append_arrays overlay base, done)
