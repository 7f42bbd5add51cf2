-- ===== src/Schemax/Nodes.antt =====
-- The tests of src/schemax.cpp on nodes, and its paths.
use toolx_cpp.Prelude.{
  ℕ, Bool, true, false, not, ◌&&◌, ◌||◌, List, [], ◌∷◌, ◌++◌, Bytes, bytes_eq, Option, none, some,
  ◌==◌, if◌then◌else◌, codes,
}
use toolx_cpp.Cfgx.Path.{to_string}
use toolx_cpp.Cfgx.Node.{
  Node, null, boolean, integer, double, string, object, array, Entries, end, entry, Elements, nil,
  element, NodeKind, null_kind, bool_kind, integer_kind, double_kind, string_kind, object_kind,
  array_kind, entry_count, find,
}
use toolx_cpp.Schemax.Numbers.{
  PartialOrdering, reverse, compare_int, compare_double, compare_integer_to_double, is_number,
  is_integer_number, as_double, is_same,
}

-- `Node::Get`.
unfoldable pub get : Bytes → Node → Option Node
get k (object fs) = find k fs
get k _ = none

-- `AsString` and `AsBool` with their fallbacks.
unfoldable pub as_string : Node → Bytes
as_string (string s) = s
as_string _ = []

unfoldable pub as_bool : Node → Bool
as_bool (boolean b) = b
as_bool _ = false

unfoldable pub one_of : Bytes → List Bytes → Bool
one_of s [] = false
one_of s (t ∷ ts) = bytes_eq s t || one_of s ts

unfoldable pub is_supported_key : Bytes → Bool
is_supported_key k = one_of k (
    codes "type"
    ∷ codes "required"
    ∷ codes "properties"
    ∷ codes "items"
    ∷ codes "minimum"
    ∷ codes "maximum"
    ∷ codes "enum"
    ∷ codes "minLength"
    ∷ codes "maxLength"
    ∷ codes "additionalProperties"
    ∷ [])

unfoldable pub is_known_type : Bytes → Bool
is_known_type t = one_of t (
    codes "null"
    ∷ codes "bool"
    ∷ codes "boolean"
    ∷ codes "int"
    ∷ codes "integer"
    ∷ codes "double"
    ∷ codes "number"
    ∷ codes "string"
    ∷ codes "object"
    ∷ codes "array"
    ∷ [])

unfoldable pub kind_text : NodeKind → Bytes
kind_text null_kind = codes "null"
kind_text bool_kind = codes "bool"
kind_text integer_kind = codes "integer"
kind_text double_kind = codes "double"
kind_text string_kind = codes "string"
kind_text object_kind = codes "object"
kind_text array_kind = codes "array"

unfoldable pub compare_numbers : Node → Node → PartialOrdering
compare_numbers (integer a) (integer b) = compare_int a b
compare_numbers (integer a) m = compare_integer_to_double a (as_double m)
compare_numbers n (integer b) = reverse (compare_integer_to_double b (as_double n))
compare_numbers n m = compare_double (as_double n) (as_double m)

unfoldable mutual
  pub node_equals : Node → Node → Bool
  node_equals null null = true
  node_equals (boolean a) (boolean b) = if a then b else not b
  node_equals (integer a) (integer b) = is_same (compare_int a b)
  node_equals (double a) (double b) = is_same (compare_double a b)
  node_equals (string s) (string t) = bytes_eq s t
  node_equals (object fs) (object gs) =
      (entry_count fs == entry_count gs) && has_entries fs (object gs)
  node_equals (array xs) (array ys) = has_elements xs ys
  node_equals (integer a) (double b) = is_same (compare_numbers (integer a) (double b))
  node_equals (double a) (integer b) = is_same (compare_numbers (double a) (integer b))
  node_equals n m = false

  -- The loop over the entries of the left object.
  pub has_entries : Entries → Node → Bool
  has_entries end m = true
  has_entries (entry k n fs) m =
      (elim (get k m) [ none ↦ false | some c ↦ node_equals n c ]) && has_entries fs m

  -- The loop over arrays of one size.
  pub has_elements : Elements → Elements → Bool
  has_elements nil nil = true
  has_elements (element n xs) (element m ys) = node_equals n m && has_elements xs ys
  has_elements _ _ = false

unfoldable pub has_kind : NodeKind → Node → Bool
has_kind null_kind null = true
has_kind bool_kind (boolean b) = true
has_kind integer_kind (integer z) = true
has_kind double_kind (double d) = true
has_kind string_kind (string s) = true
has_kind object_kind (object fs) = true
has_kind array_kind (array xs) = true
has_kind _ _ = false

unfoldable pub type_matches : Node → Bytes → Bool
type_matches n t =
    if bytes_eq t (codes "null")
    then has_kind null_kind n
    else if bytes_eq t (codes "bool") || bytes_eq t (codes "boolean")
    then has_kind bool_kind n
    else if bytes_eq t (codes "int") || bytes_eq t (codes "integer")
    then is_integer_number n
    else if bytes_eq t (codes "double") || bytes_eq t (codes "number")
    then is_number n
    else if bytes_eq t (codes "string")
    then has_kind string_kind n
    else if bytes_eq t (codes "object")
    then has_kind object_kind n
    else if bytes_eq t (codes "array")
    then has_kind array_kind n
    else false

-- `append_path` and `append_index`.
unfoldable pub escape_child : Bool → Bytes → Bytes
escape_child all [] = []
escape_child all (c ∷ s) =
    (if (c == b'\\' || (c == b'.' || (c == b'[' || c == b']'))) || all
      then b'\\' ∷ c ∷ []
      else c ∷ [])
    ++ escape_child all s

unfoldable pub escaped : Bytes → Bytes
escaped [] = codes "[]"
escaped (c ∷ s) = escape_child (bytes_eq (c ∷ s) (codes "$")) (c ∷ s)

unfoldable pub append_path : Bytes → Bytes → Bytes
append_path [] child = escaped child
append_path (c ∷ parent) child = (c ∷ parent) ++ (b'.' ∷ escaped child)

unfoldable pub append_index : Bytes → ℕ → Bytes
append_index parent i = parent ++ (b'[' ∷ (to_string i ++ b']' ∷ []))
