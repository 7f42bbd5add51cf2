-- ===== src/Schemax/Compile.antt =====
-- `Compile` of src/schemax.cpp.
use toolx_cpp.Prelude.{
  ℕ, zero, suc, ◌+◌, Bool, true, false, ◌&&◌, [], ◌∷◌, Bytes, Option, none, some, if◌then◌else◌,
  codes,
}
use toolx_cpp.Prelude.Int.{ℤ, pos, negsuc}
use toolx_cpp.Cfgx.Node.{
  Node, null, boolean, integer, double, string, object, array, Entries, end, entry, Elements, nil,
  element, string_kind, bool_kind, integer_kind, array_kind,
}
use toolx_cpp.Cfgx.Access.{try_object, try_array}
use toolx_cpp.Schemax.Numbers.{is_number, as_int}
use toolx_cpp.Schemax.Nodes.{get, as_string, is_supported_key, is_known_type, has_kind, append_path}

-- The texts of the errors.
pub data SchemaReason : Type 0 where
  no_object unknown_type required_no_array required_no_string properties_no_object : SchemaReason
  enum_no_array additional_no_boolean : SchemaReason
  unsupported_key not_numeric no_length : (key : Bytes) → SchemaReason

-- What the checks give: nothing to refuse, or an error and where it is. `spent` is no result of the
-- source: the fuel is enough.
pub data Verdict : Type 0 where
  fine : Verdict
  refused : SchemaReason → (location : Bytes) → Verdict
  spent : Verdict

-- The return on a check that failed.
infixl 5 ◌&>◌
abbrev pub ◌&>◌ : Verdict → Verdict → Verdict
fine &> w = w
refused r l &> w = refused r l
spent &> w = spent

abbrev pub shown : Bytes → Bytes
shown [] = codes "$"
shown (c ∷ s) = c ∷ s

abbrev pub check : Bool → SchemaReason → Bytes → Verdict
check b r path = if b then fine else refused r (shown path)

-- A check of the value at a key, where there is one.
abbrev pub at_key : Option Node → (Node → Verdict) → Verdict
at_key none f = fine
at_key (some n) f = f n

unfoldable pub check_keys : Entries → Bytes → Verdict
check_keys end path = fine
check_keys (entry k n fs) path =
    check (is_supported_key k) (unsupported_key k) path &> check_keys fs path

unfoldable pub check_strings : Elements → Bytes → Verdict
check_strings nil path = fine
check_strings (element n xs) path =
    check (has_kind string_kind n) required_no_string path &> check_strings xs path

unfoldable pub check_required : Node → Bytes → Verdict
check_required n path = elim (try_array n) [
  | none ↦ refused required_no_array (shown path)
  | some xs ↦ check_strings xs path
]

unfoldable pub check_properties : (Node → Bytes → Verdict) → Entries → Bytes → Verdict
check_properties again end path = fine
check_properties again (entry k n fs) path =
    again n (append_path path k) &> check_properties again fs path

unfoldable pub check_property_object : (Node → Bytes → Verdict) → Node → Bytes → Verdict
check_property_object again n path = elim (try_object n) [
  | none ↦ refused properties_no_object (shown path)
  | some gs ↦ check_properties again gs path
]

abbrev pub is_natural : ℤ → Bool
is_natural (pos n) = true
is_natural (negsuc n) = false

-- An int64_t that is not negative is a size_t.
unfoldable pub is_length : Node → Bool
is_length n = has_kind integer_kind n && is_natural (as_int n)

unfoldable pub check_number : Node → Bytes → Bytes → Verdict
check_number schema k path = at_key (get k schema) (λ n. check (is_number n) (not_numeric k) path)

unfoldable pub check_length : Node → Bytes → Bytes → Verdict
check_length schema k path = at_key (get k schema) (λ n. check (is_length n) (no_length k) path)

unfoldable pub check_scalars : Node → Bytes → Verdict
check_scalars schema path =
    check_number schema (codes "minimum") path
    &> check_number schema (codes "maximum") path
    &> check_length schema (codes "minLength") path
    &> check_length schema (codes "maxLength") path
    &> at_key (get (codes "enum") schema) (λ n. check (has_kind array_kind n) enum_no_array path)
    &> at_key (get (codes "additionalProperties") schema)
        (λ n. check (has_kind bool_kind n) additional_no_boolean path)

unfoldable pub check_type : Node → Bytes → Verdict
check_type schema path =
    at_key (get (codes "type") schema)
      (λ n. check (has_kind string_kind n && is_known_type (as_string n)) unknown_type path)

-- The checks of one schema node, where `again` checks the nodes below it.
unfoldable pub check_node : (Node → Bytes → Verdict) → Node → Bytes → Verdict
check_node again schema path = elim (try_object schema) [
  | none ↦ refused no_object (shown path)
  | some fs ↦
      check_keys fs path
      &> check_type schema path
      &> at_key (get (codes "required") schema) (λ n. check_required n path)
      &> at_key (get (codes "properties") schema) (λ n. check_property_object again n path)
      &> at_key (get (codes "items") schema) (λ n. again n (append_path path (codes "items")))
      &> check_scalars schema path
]

unfoldable pub validate_schema_node : ℕ → Node → Bytes → Verdict
validate_schema_node zero schema path = spent
validate_schema_node (suc fuel) schema path = check_node (validate_schema_node fuel) schema path

-- The number of nodes.
unfoldable mutual
  pub node_count : Node → ℕ
  node_count null = 1
  node_count (boolean b) = 1
  node_count (integer z) = 1
  node_count (double d) = 1
  node_count (string s) = 1
  node_count (object fs) = suc (entries_node_count fs)
  node_count (array xs) = suc (elements_node_count xs)

  pub entries_node_count : Entries → ℕ
  entries_node_count end = 0
  entries_node_count (entry k n fs) = node_count n + entries_node_count fs

  pub elements_node_count : Elements → ℕ
  elements_node_count nil = 0
  elements_node_count (element n xs) = node_count n + elements_node_count xs

-- `Compile`; a schema that is accepted is kept as it is.
unfoldable pub compile : Node → Verdict
compile schema = validate_schema_node (node_count schema) schema []
