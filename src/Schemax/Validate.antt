-- ===== src/Schemax/Validate.antt =====
-- `Validate` of src/schemax.cpp.
use toolx_cpp.Prelude.{
  ℕ, zero, suc, Bool, true, false, not, ◌&&◌, ◌||◌, List, [], ◌∷◌, ◌++◌, Bytes, Option, none, some,
  if◌then◌else◌, codes, length, ltb,
}
use toolx_cpp.Cfgx.Node.{
  Node, string, Entries, end, entry, Elements, nil, element, bool_kind, is_object,
}
use toolx_cpp.Cfgx.Access.{try_object, try_array}
use toolx_cpp.Schemax.Numbers.{is_number, is_below, is_above, as_int, as_size}
use toolx_cpp.Schemax.Nodes.{
  get, as_string, as_bool, has_kind, type_matches, compare_numbers, node_equals, append_path,
  append_index,
}
use toolx_cpp.Schemax.Compile.{node_count}
use toolx_cpp.Schemax.Issue.{
  Issue, type_issue, required_issue, additional_issue, minimum_issue, maximum_issue,
  min_length_issue, max_length_issue, enum_issue,
}

-- What a part of `validate_node` leaves: the issues so far, where the function goes on or returns; or
-- the use of a null pointer. `spent` is no result of the source: the fuel is enough.
pub data Flow : Type 0 where
  on : List Issue → Flow
  returned : List Issue → Flow
  null_used : Flow
  spent : Flow

infixl 5 ◌>>=◌
abbrev pub ◌>>=◌ : Flow → (List Issue → Flow) → Flow
on out >>= f = f out
returned out >>= f = returned out
null_used >>= f = null_used
spent >>= f = spent

-- A part of the function: the issues so far, to what it leaves.
abbrev pub Part : Type 0
Part = List Issue → Flow

abbrev pub is_none {ℓ} : {A : Type ℓ} → Option A → Bool
is_none none = true
is_none (some a) = false

abbrev pub has_some : List Issue → Bool
has_some [] = false
has_some (i ∷ is) = true

-- Behind a nested call, with the test of `fail_fast && !issues->empty()`.
abbrev pub after_call : Bool → Flow → Flow
after_call fail_fast (on out) = if fail_fast && has_some out then returned out else on out
after_call fail_fast (returned out) = if fail_fast && has_some out then returned out else on out
after_call fail_fast null_used = null_used
after_call fail_fast spent = spent

-- Whether `properties` is there and has the key.
abbrev pub is_listed : Option Node → Bytes → Bool
is_listed none k = false
is_listed (some ps) k = not (is_none (get k ps))

-- Whether `additionalProperties` is false.
abbrev pub is_closed_schema : Option Node → Bool
is_closed_schema none = false
is_closed_schema (some a) = has_kind bool_kind a && not (as_bool a)

-- A bound at a key, which the document passes where the key is not there.
abbrev pub passes : Option Node → (Node → Bool) → Bool
passes none f = true
passes (some bound) f = f bound

-- `std::any_of` over the values of the enum.
unfoldable pub is_any : Node → Elements → Bool
is_any document nil = false
is_any document (element n xs) = node_equals document n || is_any document xs

module _ (fail_fast : Bool) where
  -- `push_issue`, and the return where it says so.
  unfoldable pub push_issue : Issue → Part
  push_issue i out = if fail_fast then returned (out ++ i ∷ []) else on (out ++ i ∷ [])

  -- An issue unless the test holds.
  abbrev pub demand : Bool → Issue → Part
  demand b i out = if b then on out else push_issue i out

  unfoldable pub type_part : Node → Node → Bytes → Part
  type_part document schema path out = elim (get (codes "type") schema) [
    | none ↦ on out
    | some t ↦ demand (type_matches document (as_string t)) (type_issue document t path) out
  ]

  unfoldable pub required_loop : Elements → Node → Bytes → Part
  required_loop nil document path out = on out
  required_loop (element n xs) document path out =
      demand (not (is_none (get (as_string n) document))) (required_issue n path) out
      >>= required_loop xs document path

  unfoldable pub required_part : Node → Node → Bytes → Part
  required_part document schema path out = elim (get (codes "required") schema) [
    | none ↦ on out
    | some r ↦
        if is_object document
        then elim (try_array r) [ none ↦ null_used | some xs ↦ required_loop xs document path out ]
        else on out
  ]

  unfoldable pub properties_loop : (Node → Node → Bytes → Part) → Entries → Node → Bytes → Part
  properties_loop again end document path out = on out
  properties_loop again (entry k n fs) document path out =
      (elim (get k document) [
        | none ↦ on out
        | some child ↦ after_call fail_fast (again child n (append_path path k) out)
      ])
      >>= properties_loop again fs document path

  unfoldable pub properties_part : (Node → Node → Bytes → Part) → Node → Node → Bytes → Part
  properties_part again document schema path out = elim (get (codes "properties") schema) [
    | none ↦ on out
    | some ps ↦
        if is_object document
        then elim (try_object ps) [
          | none ↦ null_used
          | some fs ↦ properties_loop again fs document path out
        ]
        else on out
  ]

  unfoldable pub additional_loop : Option Node → Entries → Bytes → Part
  additional_loop properties end path out = on out
  additional_loop properties (entry k n fs) path out =
      demand (is_listed properties k) (additional_issue k path) out
      >>= additional_loop properties fs path

  unfoldable pub additional_part : Node → Node → Bytes → Part
  additional_part document schema path out = elim (try_object document) [
    | none ↦ on out
    | some fs ↦
        if is_closed_schema (get (codes "additionalProperties") schema)
        then additional_loop (get (codes "properties") schema) fs path out
        else on out
  ]

  unfoldable pub items_loop : (Node → Node → Bytes → Part) → Node → ℕ → Elements → Bytes → Part
  items_loop again items i nil path out = on out
  items_loop again items i (element n xs) path out =
      after_call fail_fast (again n items (append_index path i) out)
      >>= items_loop again items (suc i) xs path

  unfoldable pub items_part : (Node → Node → Bytes → Part) → Node → Node → Bytes → Part
  items_part again document schema path out = elim (get (codes "items") schema) [
    | none ↦ on out
    | some items ↦ elim (try_array document) [
      | none ↦ on out
      | some xs ↦ items_loop again items 0 xs path out
    ]
  ]

  unfoldable pub number_part : Node → Node → Bytes → Part
  number_part document schema path out =
      if is_number document
      then demand
          (passes (get (codes "minimum") schema) (λ m. not (is_below (compare_numbers document m))))
          (minimum_issue path) out
        >>= demand
            (passes (get (codes "maximum") schema)
              (λ m. not (is_above (compare_numbers document m))))
            (maximum_issue path)
      else on out

  unfoldable pub length_part : Node → Node → Bytes → Part
  length_part (string s) schema path out =
      demand
        (passes (get (codes "minLength") schema) (λ m. not (ltb (length s) (as_size (as_int m)))))
        (min_length_issue path) out
      >>= demand
          (passes (get (codes "maxLength") schema) (λ m. not (ltb (as_size (as_int m)) (length s))))
          (max_length_issue path)
  length_part document schema path out = on out

  unfoldable pub enum_part : Node → Node → Bytes → Part
  enum_part document schema path out = elim (get (codes "enum") schema) [
    | none ↦ on out
    | some e ↦ elim (try_array e) [
      | none ↦ null_used
      | some xs ↦ demand (is_any document xs) (enum_issue path) out
    ]
  ]

  -- One call, where `again` is the nested one.
  unfoldable pub node_parts : (Node → Node → Bytes → Part) → Node → Node → Bytes → Part
  node_parts again document schema path out =
      type_part document schema path out
      >>= required_part document schema path
      >>= properties_part again document schema path
      >>= additional_part document schema path
      >>= items_part again document schema path
      >>= number_part document schema path
      >>= length_part document schema path
      >>= enum_part document schema path

  unfoldable pub validate_node : ℕ → Node → Node → Bytes → Part
  validate_node zero document schema path out = spent
  validate_node (suc fuel) document schema path out =
      node_parts (validate_node fuel) document schema path out

-- The issues that `Validate` returns.
abbrev pub issues_of : Flow → Option (List Issue)
issues_of (on out) = some out
issues_of (returned out) = some out
issues_of null_used = none
issues_of spent = none

unfoldable pub validate : Node → Node → Bool → Option (List Issue)
validate document schema fail_fast =
    issues_of (validate_node fail_fast (node_count schema) document schema [] [])
