-- ===== src/Schemax/Issues.antt =====
-- The issues of a document under a schema that `Validate` of src/schemax.cpp is to report, as lists
-- that no test of `fail_fast` cuts.
use toolx_cpp.Prelude.{
  ℕ, zero, suc, Bool, not, List, [], ◌∷◌, ◌++◌, Bytes, Option, none, some, if◌then◌else◌, codes,
  length, ltb,
}
use toolx_cpp.Cfgx.Node.{Node, string, Entries, end, entry, Elements, nil, element, is_object}
use toolx_cpp.Cfgx.Access.{try_object, try_array}
use toolx_cpp.Schemax.Numbers.{is_number, is_below, is_above, as_int, as_size}
use toolx_cpp.Schemax.Nodes.{
  get, as_string, type_matches, compare_numbers, append_path, append_index,
}
use toolx_cpp.Schemax.Issue.{
  Issue, type_issue, required_issue, additional_issue, minimum_issue, maximum_issue,
  min_length_issue, max_length_issue, enum_issue,
}
use toolx_cpp.Schemax.Validate.{is_none, is_listed, is_closed_schema, passes, is_any}

abbrev pub unless : Bool → Issue → List Issue
unless b i = if b then [] else i ∷ []

-- The issues about a value, where there is one.
abbrev pub about {ℓ} : {A : Type ℓ} → Option A → (A → List Issue) → List Issue
about none f = []
about (some a) f = f a

unfoldable pub missing_keys : Elements → Node → Bytes → List Issue
missing_keys nil document path = []
missing_keys (element n xs) document path =
    unless (not (is_none (get (as_string n) document))) (required_issue n path)
    ++ missing_keys xs document path

unfoldable pub additional_keys : Option Node → Entries → Bytes → List Issue
additional_keys properties end path = []
additional_keys properties (entry k n fs) path =
    unless (is_listed properties k) (additional_issue k path) ++ additional_keys properties fs path

abbrev pub Finder : Type 0
Finder = Node → Node → Bytes → List Issue

unfoldable pub property_issues : Finder → Entries → Node → Bytes → List Issue
property_issues below end document path = []
property_issues below (entry k n fs) document path =
    about (get k document) (λ child. below child n (append_path path k))
    ++ property_issues below fs document path

unfoldable pub item_issues : Finder → Node → ℕ → Elements → Bytes → List Issue
item_issues below items i nil path = []
item_issues below items i (element n xs) path =
    below n items (append_index path i) ++ item_issues below items (suc i) xs path

unfoldable pub type_issues : Finder
type_issues document schema path =
    about (get (codes "type") schema)
      (λ t. unless (type_matches document (as_string t)) (type_issue document t path))

unfoldable pub required_issues : Finder
required_issues document schema path = about (get (codes "required") schema) (λ r.
    if is_object document then about (try_array r) (λ xs. missing_keys xs document path) else [])

unfoldable pub properties_issues : Finder → Finder
properties_issues below document schema path = about (get (codes "properties") schema) (λ ps.
    if is_object document
    then about (try_object ps) (λ fs. property_issues below fs document path)
    else [])

unfoldable pub additional_issues : Finder
additional_issues document schema path = about (try_object document) (λ fs.
    if is_closed_schema (get (codes "additionalProperties") schema)
    then additional_keys (get (codes "properties") schema) fs path
    else [])

unfoldable pub items_issues : Finder → Finder
items_issues below document schema path =
    about (get (codes "items") schema)
      (λ items. about (try_array document) (λ xs. item_issues below items 0 xs path))

unfoldable pub number_issues : Finder
number_issues document schema path =
    if is_number document
    then unless
        (passes (get (codes "minimum") schema) (λ m. not (is_below (compare_numbers document m))))
        (minimum_issue path)
      ++ unless
          (passes (get (codes "maximum") schema) (λ m. not (is_above (compare_numbers document m))))
          (maximum_issue path)
    else []

unfoldable pub length_issues : Finder
length_issues (string s) schema path =
    unless
      (passes (get (codes "minLength") schema) (λ m. not (ltb (length s) (as_size (as_int m)))))
      (min_length_issue path)
    ++ unless
        (passes (get (codes "maxLength") schema) (λ m. not (ltb (as_size (as_int m)) (length s))))
        (max_length_issue path)
length_issues document schema path = []

unfoldable pub enum_issues : Finder
enum_issues document schema path =
    about (get (codes "enum") schema)
      (λ e. about (try_array e) (λ xs. unless (is_any document xs) (enum_issue path)))

-- All issues, in the order of the visit.
unfoldable pub node_issues : Finder → Finder
node_issues below document schema path =
    ((((((type_issues document schema path ++ required_issues document schema path)
              ++ properties_issues below document schema path)
            ++ additional_issues document schema path)
          ++ items_issues below document schema path)
        ++ number_issues document schema path)
      ++ length_issues document schema path)
    ++ enum_issues document schema path

-- A schema is no deeper than the number of its nodes.
unfoldable pub issues_to : ℕ → Finder
issues_to zero document schema path = []
issues_to (suc depth) document schema path = node_issues (issues_to depth) document schema path
