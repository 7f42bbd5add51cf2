-- ===== src/Cfgx/Access.antt =====
-- Reading and changing a configuration by path: `GetNode`, `SetNode`, `RemoveNode` and `Exists` of
-- src/cfgx.cpp. A change returns the root as the call leaves it, also where it fails.
pub mod Get
pub mod Set
pub mod Frame
pub mod Remove
pub mod Wf
pub mod Gone
pub mod Exact
use toolx_cpp.Prelude.{
  ℕ, Bool, true, false, not, List, [], ◌∷◌, Bytes, Option, none, some, if◌then◌else◌, ltb,
}
use toolx_cpp.Cfgx.Error.{
  Error, Result, ok, err, Status, done, ◌>>=◌, path_empty, no_object_at_key, key_not_found,
  no_array_at_index, index_out_of_range, index_unsupported, set_no_object, set_no_array, set_failed,
  remove_no_object, remove_no_array, remove_key_no_object, remove_index_no_array,
}
use toolx_cpp.Cfgx.Path.{PathToken, key, index, answer, out_of_fuel, parse_path, Answer}
use toolx_cpp.Cfgx.Node.{
  Node, null, object, array, Entries, end, Elements, nil, find, put, erase_entry, at?, put_at,
  erase_element,
}

-- `ParsePath` always answers (`parse_path_total`), so the second clause is not reached.
abbrev pub tokens_of : Answer → Result (List PathToken)
tokens_of (answer r) = r
tokens_of out_of_fuel = err path_empty

unfoldable pub parsed : Bytes → Result (List PathToken)
parsed path = tokens_of (parse_path path)

-- `TryObject` and `TryArray`.
unfoldable pub try_object : Node → Option Entries
try_object (object fs) = some fs
try_object _ = none

unfoldable pub try_array : Node → Option Elements
try_array (array xs) = some xs
try_array _ = none

abbrev pub require {ℓ} : {A : Type ℓ} → Error → Option A → Result A
require e none = err e
require e (some a) = ok a

-- One round of the loop of `GetNode`.
unfoldable pub child_of : PathToken → Node → Result Node
child_of (key k) n = do
  fs ← require (no_object_at_key k) (try_object n)
  require (key_not_found k) (find k fs)
child_of (index i) n = do
  xs ← require no_array_at_index (try_array n)
  require index_out_of_range (at? i xs)

unfoldable pub get_tokens : List PathToken → Node → Result Node
get_tokens [] n = ok n
get_tokens (t ∷ ts) n = child_of t n >>= get_tokens ts

unfoldable pub get_node : Node → Bytes → Result Node
get_node root path = do ts ← parsed path; get_tokens ts root

pub exists_node : Node → Bytes → Bool
exists_node root path = elim (get_node root path) [ ok n ↦ true | err e ↦ false ]

-- What a change leaves, and its status.
abbrev pub Change : Type 0
Change = Node × Status

abbrev pub get_or_null : Option Node → Node
get_or_null none = null
get_or_null (some n) = n

-- `if (current->IsNull()) *current = MakeObject()`, and the same for arrays.
unfoldable pub object_for_set : Node → Option Entries
object_for_set null = some end
object_for_set n = try_object n

unfoldable pub array_for_set : Node → Option Elements
array_for_set null = some nil
array_for_set n = try_array n

-- The change of a child, put back into its parent.
abbrev pub in_entry : Bytes → Entries → Change → Change
in_entry k fs (child, st) = (object (put k child fs), st)

abbrev pub in_element : ℕ → Elements → Change → Change
in_element i xs (child, st) = (array (put_at i child xs), st)

-- The loop of `SetNode`. A missing entry is pushed as null, and an array is filled with nulls, before
-- the loop goes on to the child.
unfoldable pub set_tokens : List PathToken → Node → Node → Change
set_tokens [] v n = (n, err set_failed)
set_tokens (key k ∷ []) v n = elim (object_for_set n) [
  | none ↦ (n, err (set_no_object k))
  | some fs ↦ in_entry k fs (v, done)
]
set_tokens (key k ∷ u ∷ ts) v n = elim (object_for_set n) [
  | none ↦ (n, err (set_no_object k))
  | some fs ↦ in_entry k fs (set_tokens (u ∷ ts) v (get_or_null (find k fs)))
]
set_tokens (index i ∷ []) v n = elim (array_for_set n) [
  | none ↦ (n, err set_no_array)
  | some xs ↦ in_element i xs (v, done)
]
set_tokens (index i ∷ u ∷ ts) v n = elim (array_for_set n) [
  | none ↦ (n, err set_no_array)
  | some xs ↦ in_element i xs (set_tokens (u ∷ ts) v (get_or_null (at? i xs)))
]

-- The check of all indices against `Array::max_size()`, which the caller passes.
unfoldable pub indices_supported : ℕ → List PathToken → Bool
indices_supported maximum [] = true
indices_supported maximum (key k ∷ ts) = indices_supported maximum ts
indices_supported maximum (index i ∷ ts) =
    if not (ltb i maximum) then false else indices_supported maximum ts

-- The function behind the parse of its path.
unfoldable pub set_parsed : ℕ → Node → Node → Result (List PathToken) → Change
set_parsed maximum root v (err e) = (root, err e)
set_parsed maximum root v (ok ts) =
    if not (indices_supported maximum ts)
    then (root, err index_unsupported)
    else set_tokens ts v root

unfoldable pub set_node : ℕ → Node → Bytes → Node → Change
set_node maximum root path v = set_parsed maximum root v (parsed path)

-- The loop of `RemoveNode`, and the erasure at the last token.
unfoldable pub remove_tokens : List PathToken → Node → Change
remove_tokens [] n = (n, err path_empty)
remove_tokens (key k ∷ []) n = elim (try_object n) [
  | none ↦ (n, err remove_key_no_object)
  | some fs ↦ elim (find k fs) [
    | none ↦ (n, err (key_not_found k))
    | some child ↦ (object (erase_entry k fs), done)
  ]
]
remove_tokens (key k ∷ u ∷ ts) n = elim (try_object n) [
  | none ↦ (n, err remove_no_object)
  | some fs ↦ elim (find k fs) [
    | none ↦ (n, err (key_not_found k))
    | some child ↦ in_entry k fs (remove_tokens (u ∷ ts) child)
  ]
]
remove_tokens (index i ∷ []) n = elim (try_array n) [
  | none ↦ (n, err remove_index_no_array)
  | some xs ↦ elim (at? i xs) [
    | none ↦ (n, err index_out_of_range)
    | some child ↦ (array (erase_element i xs), done)
  ]
]
remove_tokens (index i ∷ u ∷ ts) n = elim (try_array n) [
  | none ↦ (n, err remove_no_array)
  | some xs ↦ elim (at? i xs) [
    | none ↦ (n, err index_out_of_range)
    | some child ↦ in_element i xs (remove_tokens (u ∷ ts) child)
  ]
]

unfoldable pub remove_parsed : Node → Result (List PathToken) → Change
remove_parsed root (err e) = (root, err e)
remove_parsed root (ok ts) = remove_tokens ts root

unfoldable pub remove_node : Node → Bytes → Change
remove_node root path = remove_parsed root (parsed path)
