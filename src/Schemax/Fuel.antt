-- ===== src/Schemax/Fuel.antt =====
-- The recursion of `Compile` of src/schemax.cpp, on every schema.
use toolx_cpp.Prelude.{
  ℕ, zero, suc, ◌≤◌, ◌<◌, ◌≡◌, refl, arith, Bool, true, false, ◌&&◌, Bytes, bytes_eq, Option, none,
  some, Bool-cases, inl, inr, codes, [],
}
use toolx_cpp.Cfgx.Node.{
  Node, null, boolean, integer, double, string, object, array, Entries, end, entry, Elements, nil,
  element, find, string_kind, array_kind, bool_kind,
}
use toolx_cpp.Cfgx.Access.{try_object, try_array}
use toolx_cpp.Schemax.Numbers.{is_number}
use toolx_cpp.Schemax.Nodes.{get, has_kind, append_path, is_supported_key, is_known_type, as_string}
use toolx_cpp.Schemax.Compile.{
  Verdict, fine, refused, spent, SchemaReason, required_no_array, no_object, shown, ◌&>◌, check,
  at_key, check_keys, check_type, check_strings, check_required, check_properties,
  check_property_object, check_scalars, check_number, check_length, check_node,
  validate_schema_node, is_length, node_count, entries_node_count, compile,
}

-- A verdict of the source.
abbrev pub IsVerdict : Verdict → Type 0
IsVerdict fine = Unit {0}
IsVerdict (refused r l) = Unit {0}
IsVerdict spent = ⊥

then-IsVerdict : (v w : Verdict) → IsVerdict v → IsVerdict w → IsVerdict (v &> w)
then-IsVerdict fine w h k = k
then-IsVerdict (refused r l) w h k = tt
then-IsVerdict spent w h k = h

check-IsVerdict : (b : Bool) (r : SchemaReason) (p : Bytes) → IsVerdict (check b r p)
check-IsVerdict true r p = tt
check-IsVerdict false r p = tt

at_key-IsVerdict :
    (a : Option Node) (f : Node → Verdict)
    → ((n : Node) → a ≡ some n → IsVerdict (f n))
    → IsVerdict (at_key a f)
at_key-IsVerdict none f h = tt
at_key-IsVerdict (some n) f h = h n refl

check_keys-IsVerdict : (fs : Entries) (p : Bytes) → IsVerdict (check_keys fs p)
unfolding check_keys
check_keys-IsVerdict end p = tt
check_keys-IsVerdict (entry k n fs) p =
    then-IsVerdict _ (check_keys fs p) (check-IsVerdict (is_supported_key k) _ p)
      (check_keys-IsVerdict fs p)

check_strings-IsVerdict : (xs : Elements) (p : Bytes) → IsVerdict (check_strings xs p)
unfolding check_strings
check_strings-IsVerdict nil p = tt
check_strings-IsVerdict (element n xs) p =
    then-IsVerdict _ (check_strings xs p) (check-IsVerdict (has_kind string_kind n) _ p)
      (check_strings-IsVerdict xs p)

check_required-IsVerdict : (n : Node) (p : Bytes) → IsVerdict (check_required n p)
unfolding check_required
check_required-IsVerdict n p = walk (try_array n)
  where
    walk :
        (a : Option Elements)
        → IsVerdict
            (elim a [ none ↦ refused required_no_array (shown p) | some xs ↦ check_strings xs p ])
    walk none = tt
    walk (some xs) = check_strings-IsVerdict xs p

find-node_count :
    (k : Bytes) (fs : Entries) (n : Node)
    → find k fs ≡ some n
    → node_count n ≤ entries_node_count fs
unfolding find node_count
find-node_count k end n h = absurd (cc h)
find-node_count k (entry j m fs) n h = elim (Bool-cases (bytes_eq j k)) [
  | inl same ↦ (let e : m ≡ n = some-inj (rw same at h) in rw e (omega arith))
  | inr other ↦ (let l = find-node_count k fs n (rw other at h) in omega arith)
]
  where
    some-inj : {a b : Node} → some a ≡ some b → a ≡ b
    some-inj h = cc h

get-node_count :
    (k : Bytes) (schema n : Node) → get k schema ≡ some n → node_count n < node_count schema
unfolding get node_count
get-node_count k (object fs) n h = let l = find-node_count k fs n h in omega arith
get-node_count k null n h = absurd (cc h)
get-node_count k (boolean b) n h = absurd (cc h)
get-node_count k (integer z) n h = absurd (cc h)
get-node_count k (double d) n h = absurd (cc h)
get-node_count k (string s) n h = absurd (cc h)
get-node_count k (array xs) n h = absurd (cc h)

check_scalars-IsVerdict : (schema : Node) (p : Bytes) → IsVerdict (check_scalars schema p)
unfolding check_scalars check_number check_length
check_scalars-IsVerdict schema p =
    then-IsVerdict _ _
      (then-IsVerdict _ _
        (then-IsVerdict _ _
          (then-IsVerdict _ _
            (then-IsVerdict _ _
              (at_key-IsVerdict (get (codes "minimum") schema) _
                (λ n e. check-IsVerdict (is_number n) _ p))
              (at_key-IsVerdict (get (codes "maximum") schema) _
                (λ n e. check-IsVerdict (is_number n) _ p)))
            (at_key-IsVerdict (get (codes "minLength") schema) _
              (λ n e. check-IsVerdict (is_length n) _ p)))
          (at_key-IsVerdict (get (codes "maxLength") schema) _
            (λ n e. check-IsVerdict (is_length n) _ p)))
        (at_key-IsVerdict (get (codes "enum") schema) _
          (λ n e. check-IsVerdict (has_kind array_kind n) _ p)))
      (at_key-IsVerdict (get (codes "additionalProperties") schema) _
        (λ n e. check-IsVerdict (has_kind bool_kind n) _ p))

node_count-positive : (n : Node) → 1 ≤ node_count n
unfolding node_count
node_count-positive null = omega arith
node_count-positive (boolean b) = omega arith
node_count-positive (integer z) = omega arith
node_count-positive (double d) = omega arith
node_count-positive (string s) = omega arith
node_count-positive (object fs) = omega arith
node_count-positive (array xs) = omega arith

check_type-IsVerdict : (schema : Node) (p : Bytes) → IsVerdict (check_type schema p)
unfolding check_type
check_type-IsVerdict schema p =
    at_key-IsVerdict (get (codes "type") schema) _
      (λ n e. check-IsVerdict (has_kind string_kind n && is_known_type (as_string n)) _ p)

module _ (again : Node → Bytes → Verdict) (m : ℕ)
    (small : (n : Node) (p : Bytes) → node_count n ≤ m → IsVerdict (again n p)) where
  check_properties-IsVerdict :
      (fs : Entries) (p : Bytes)
      → entries_node_count fs ≤ m
      → IsVerdict (check_properties again fs p)
  unfolding check_properties node_count
  check_properties-IsVerdict end p h = tt
  check_properties-IsVerdict (entry k n fs) p h =
      then-IsVerdict (again n (append_path p k)) (check_properties again fs p)
        (small n (append_path p k) (omega arith)) (check_properties-IsVerdict fs p (omega arith))

  check_property_object-IsVerdict :
      (n : Node) (p : Bytes) → node_count n ≤ m → IsVerdict (check_property_object again n p)
  unfolding check_property_object try_object node_count
  check_property_object-IsVerdict (object fs) p h = check_properties-IsVerdict fs p (omega arith)
  check_property_object-IsVerdict null p h = tt
  check_property_object-IsVerdict (boolean b) p h = tt
  check_property_object-IsVerdict (integer z) p h = tt
  check_property_object-IsVerdict (double d) p h = tt
  check_property_object-IsVerdict (string s) p h = tt
  check_property_object-IsVerdict (array xs) p h = tt

  check_node-IsVerdict :
      (schema : Node) (p : Bytes)
      → node_count schema ≤ suc m
      → IsVerdict (check_node again schema p)
  unfolding check_node
  check_node-IsVerdict schema p h = walk (try_object schema)
    where
      below : (k : Bytes) (n : Node) → get k schema ≡ some n → node_count n ≤ m
      below k n e = let l = get-node_count k schema n e in omega arith

      walk :
          (a : Option Entries)
          → IsVerdict (elim a [
            | none ↦ refused no_object (shown p)
            | some fs ↦
                check_keys fs p
                &> check_type schema p
                &> at_key (get (codes "required") schema) (λ n. check_required n p)
                &> at_key (get (codes "properties") schema) (λ n. check_property_object again n p)
                &> at_key
                    (get (codes "items") schema)
                    (λ n. again n (append_path p (codes "items")))
                &> check_scalars schema p
          ])
      walk none = tt
      walk (some fs) =
          then-IsVerdict _ _
            (then-IsVerdict _ _
              (then-IsVerdict _ _
                (then-IsVerdict _ _
                  (then-IsVerdict _ _ (check_keys-IsVerdict fs p) (check_type-IsVerdict schema p))
                  (at_key-IsVerdict (get (codes "required") schema) _
                    (λ n e. check_required-IsVerdict n p)))
                (at_key-IsVerdict (get (codes "properties") schema) _
                  (λ n e. check_property_object-IsVerdict n p (below _ n e))))
              (at_key-IsVerdict (get (codes "items") schema) _ (λ n e. small n _ (below _ n e))))
            (check_scalars-IsVerdict schema p)

validate_schema_node-IsVerdict :
    (fuel : ℕ) (schema : Node) (p : Bytes)
    → node_count schema ≤ fuel
    → IsVerdict (validate_schema_node fuel schema p)
unfolding validate_schema_node
validate_schema_node-IsVerdict zero schema p h =
    absurd (let l = node_count-positive schema in omega arith)
validate_schema_node-IsVerdict (suc fuel) schema p h =
    check_node-IsVerdict (validate_schema_node fuel) fuel (validate_schema_node-IsVerdict fuel)
      schema p (omega arith)

-- Every schema is accepted, or refused with a reason and a path.
pub compile-IsVerdict : (schema : Node) → IsVerdict (compile schema)
unfolding compile
compile-IsVerdict schema =
    validate_schema_node-IsVerdict (node_count schema) schema [] (omega arith)
