-- ===== src/Schemax/Conforms.antt =====
-- The rules that a schema of src/schemax.cpp states of a document.
use toolx_cpp.Prelude.{
  ℕ, suc, ◌≡◌, refl, Bool, true, false, not, List, [], ◌∷◌, ◌++◌, Bytes, Option, none, some,
  if◌then◌else◌, codes, length, ltb,
}
use toolx_cpp.Cfgx.Node.{Node, string, Entries, end, entry, Elements, nil, element, is_object}
use toolx_cpp.Cfgx.Access.{try_object, try_array}
use toolx_cpp.Schemax.Numbers.{is_number, is_below, is_above, as_int, as_size}
use toolx_cpp.Schemax.Nodes.{
  get, as_string, type_matches, compare_numbers, append_path, append_index,
}
use toolx_cpp.Schemax.Issue.{Issue, min_length_issue, max_length_issue}
use toolx_cpp.Schemax.Validate.{is_none, is_listed, is_closed_schema, passes, is_any}
use toolx_cpp.Schemax.Issues.{
  unless, about, Finder, missing_keys, additional_keys, property_issues, item_issues, type_issues,
  required_issues, properties_issues, additional_issues, items_issues, number_issues, length_issues,
  enum_issues, node_issues,
}

append-nothing {ℓ} : {A : Type ℓ} (xs ys : List A) → xs ++ ys ≡ [] → (xs ≡ []) × (ys ≡ [])
append-nothing [] ys h = (refl, h)
append-nothing (x ∷ xs) ys h = absurd (cc h)

unless-nothing : (b : Bool) (i : Issue) → unless b i ≡ [] → b ≡ true
unless-nothing true i h = refl
unless-nothing false i h = absurd (cc h)

about-nothing {ℓ} :
    {A : Type ℓ} (a : Option A) (f : A → List Issue)
    → about a f ≡ []
    → (x : A) → a ≡ some x
    → f x ≡ []
about-nothing none f h x e = absurd (cc e)
about-nothing (some y) f h x e = let same : y ≡ x = cc e in cc (same, h)

-- The keys are those of the document, and the keys of the document are listed.
abbrev pub HasKeys : Elements → Node → Type 0
HasKeys nil document = Unit {0}
HasKeys (element n xs) document =
    (is_none (get (as_string n) document) ≡ false) × HasKeys xs document

abbrev pub AreListed : Option Node → Entries → Type 0
AreListed properties end = Unit {0}
AreListed properties (entry k n fs) = (is_listed properties k ≡ true) × AreListed properties fs

-- A relation between documents and schemas, at the values of an object and of an array.
module _ (R : Node → Node → Type 0) where
  abbrev pub EachProperty : Entries → Node → Type 0
  EachProperty end document = Unit {0}
  EachProperty (entry k n fs) document =
      ((child : Node) → get k document ≡ some child → R child n) × EachProperty fs document

  abbrev pub EachItem : Node → Elements → Type 0
  EachItem items nil = Unit {0}
  EachItem items (element n xs) = R n items × EachItem items xs

  -- The rules that a schema states of one value.
  pub record Rules (document schema : Node) : Type 0 where
    pub type_rule :
        (t : Node) → get (codes "type") schema ≡ some t → type_matches document (as_string t) ≡ true
    pub required_rule :
        (r : Node) (xs : Elements)
        → get (codes "required") schema ≡ some r
        → try_array r ≡ some xs
        → is_object document ≡ true
        → HasKeys xs document
    pub properties_rule :
        (ps : Node) (fs : Entries)
        → get (codes "properties") schema ≡ some ps
        → try_object ps ≡ some fs
        → is_object document ≡ true
        → EachProperty fs document
    pub additional_rule :
        (fs : Entries)
        → try_object document ≡ some fs
        → is_closed_schema (get (codes "additionalProperties") schema) ≡ true
        → AreListed (get (codes "properties") schema) fs
    pub items_rule :
        (items : Node) (xs : Elements)
        → get (codes "items") schema ≡ some items
        → try_array document ≡ some xs
        → EachItem items xs
    pub minimum_rule :
        (m : Node)
        → is_number document ≡ true
        → get (codes "minimum") schema ≡ some m
        → is_below (compare_numbers document m) ≡ false
    pub maximum_rule :
        (m : Node)
        → is_number document ≡ true
        → get (codes "maximum") schema ≡ some m
        → is_above (compare_numbers document m) ≡ false
    pub min_length_rule :
        (s : Bytes) (m : Node)
        → document ≡ string s
        → get (codes "minLength") schema ≡ some m
        → ltb (length s) (as_size (as_int m)) ≡ false
    pub max_length_rule :
        (s : Bytes) (m : Node)
        → document ≡ string s
        → get (codes "maxLength") schema ≡ some m
        → ltb (as_size (as_int m)) (length s) ≡ false
    pub enum_rule :
        (e : Node) (xs : Elements)
        → get (codes "enum") schema ≡ some e
        → try_array e ≡ some xs
        → is_any document xs ≡ true

missing_keys-nothing :
    (xs : Elements) (document : Node) (p : Bytes)
    → missing_keys xs document p ≡ []
    → HasKeys xs document
unfolding missing_keys
missing_keys-nothing nil document p h = tt
missing_keys-nothing (element n xs) document p h =
    let (a, b) =
      append-nothing (unless (not (is_none (get (as_string n) document))) _)
        (missing_keys xs document p) h in
    (not-true _ (unless-nothing _ _ a), missing_keys-nothing xs document p b)
  where
    not-true : (b : Bool) → not b ≡ true → b ≡ false
    not-true true h = absurd (cc h)
    not-true false h = refl

additional_keys-nothing :
    (ps : Option Node) (fs : Entries) (p : Bytes) → additional_keys ps fs p ≡ [] → AreListed ps fs
unfolding additional_keys
additional_keys-nothing ps end p h = tt
additional_keys-nothing ps (entry k n fs) p h =
    let (a, b) = append-nothing (unless (is_listed ps k) _) (additional_keys ps fs p) h in
    (unless-nothing _ _ a, additional_keys-nothing ps fs p b)

if-nothing : (b : Bool) (is : List Issue) → (if b then is else []) ≡ [] → b ≡ true → is ≡ []
if-nothing true is h e = h
if-nothing false is h e = absurd (cc e)

not-passes :
    (a : Option Node) (f : Node → Bool) (i : Issue)
    → unless (passes a (λ m. not (f m))) i ≡ []
    → (m : Node) → a ≡ some m
    → f m ≡ false
not-passes none f i h m e = absurd (cc e)
not-passes (some n) f i h m e =
    let same : n ≡ m = cc e in rw (← same) (false-of (f n) (unless-nothing _ i h))
  where
    false-of : (b : Bool) → not b ≡ true → b ≡ false
    false-of true h = absurd (cc h)
    false-of false h = refl

string_issues-nothing :
    (s : Bytes) (schema : Node) (p : Bytes) (m : Node)
    → length_issues (string s) schema p ≡ []
    → (get (codes "minLength") schema ≡ some m → ltb (length s) (as_size (as_int m)) ≡ false)
      × (get (codes "maxLength") schema ≡ some m → ltb (as_size (as_int m)) (length s) ≡ false)
unfolding length_issues
string_issues-nothing s schema p m k =
    let (a, b) =
      append-nothing
        (unless
          (passes (get (codes "minLength") schema) (λ m. not (ltb (length s) (as_size (as_int m)))))
          (min_length_issue p))
        (unless
          (passes (get (codes "maxLength") schema) (λ m. not (ltb (as_size (as_int m)) (length s))))
          (max_length_issue p))
        k in
    (
      not-passes (get (codes "minLength") schema) (λ m. ltb (length s) (as_size (as_int m))) _ a m,
      not-passes (get (codes "maxLength") schema) (λ m. ltb (as_size (as_int m)) (length s)) _ b m,
    )

length_issues-nothing :
    (document schema : Node) (p s : Bytes) (m : Node)
    → length_issues document schema p ≡ []
    → document ≡ string s
    → (get (codes "minLength") schema ≡ some m → ltb (length s) (as_size (as_int m)) ≡ false)
      × (get (codes "maxLength") schema ≡ some m → ltb (as_size (as_int m)) (length s) ≡ false)
length_issues-nothing document schema p s m h e = string_issues-nothing s schema p m (rw e at h)

module _ (R : Node → Node → Type 0) (below : Finder)
    (nested : (document schema : Node) (path : Bytes)
      → below document schema path ≡ []
      → R document schema) where
  property_issues-nothing :
      (fs : Entries) (document : Node) (p : Bytes)
      → property_issues below fs document p ≡ []
      → EachProperty R fs document
  unfolding property_issues
  property_issues-nothing end document p h = tt
  property_issues-nothing (entry k n fs) document p h =
      let child_issues : Node → List Issue = λ child. below child n (append_path p k) in
      let (a, b) =
        append-nothing (about (get k document) child_issues) (property_issues below fs document p)
          h in
      (
        λ child e.
            nested child n (append_path p k)
              (about-nothing (get k document) child_issues a child e),
        property_issues-nothing fs document p b,
      )

  item_issues-nothing :
      (items : Node) (i : ℕ) (xs : Elements) (p : Bytes)
      → item_issues below items i xs p ≡ []
      → EachItem R items xs
  unfolding item_issues
  item_issues-nothing items i nil p h = tt
  item_issues-nothing items i (element n xs) p h =
      let (a, b) =
        append-nothing (below n items (append_index p i)) (item_issues below items (suc i) xs p)
          h in
      (nested n items (append_index p i) a, item_issues-nothing items (suc i) xs p b)

  pub node_issues-nothing :
      (document schema : Node) (p : Bytes)
      → node_issues below document schema p ≡ []
      → Rules R document schema
  unfolding node_issues type_issues required_issues properties_issues additional_issues items_issues
      number_issues enum_issues
  node_issues-nothing document schema p h =
      let (h7, h_enum) = append-nothing _ (enum_issues document schema p) h in
      let (h6, h_length) = append-nothing _ (length_issues document schema p) h7 in
      let (h5, h_number) = append-nothing _ (number_issues document schema p) h6 in
      let (h4, h_items) = append-nothing _ (items_issues below document schema p) h5 in
      let (h3, h_additional) = append-nothing _ (additional_issues document schema p) h4 in
      let (h2, h_properties) = append-nothing _ (properties_issues below document schema p) h3 in
      let (h_type, h_required) = append-nothing _ (required_issues document schema p) h2 in
      record {
        type_rule =
            λ t e. unless-nothing _ _ (about-nothing (get (codes "type") schema) _ h_type t e);
        required_rule = λ r xs e d o. missing_keys-nothing xs document p (
            about-nothing (try_array r) _
              (if-nothing _ _ (about-nothing (get (codes "required") schema) _ h_required r e) o) xs
              d);
        properties_rule = λ ps fs e d o. property_issues-nothing fs document p (
            about-nothing (try_object ps) _
              (if-nothing _ _ (about-nothing (get (codes "properties") schema) _ h_properties ps e)
                o)
              fs d);
        additional_rule = λ fs e c.
            additional_keys-nothing _ fs p
              (if-nothing _ _ (about-nothing (try_object document) _ h_additional fs e) c);
        items_rule = λ items xs e d. item_issues-nothing items 0 xs p (
            about-nothing (try_array document) _
              (about-nothing (get (codes "items") schema) _ h_items items e) xs d);
        minimum_rule = λ m i e.
            not-passes (get (codes "minimum") schema) _ _
              (append-nothing _ _ (if-nothing _ _ h_number i)).0 m e;
        maximum_rule = λ m i e.
            not-passes (get (codes "maximum") schema) _ _
              (append-nothing _ _ (if-nothing _ _ h_number i)).1 m e;
        min_length_rule = λ s m e. (length_issues-nothing document schema p s m h_length e).0;
        max_length_rule = λ s m e. (length_issues-nothing document schema p s m h_length e).1;
        enum_rule = λ e xs d c. unless-nothing _ _ (
            about-nothing (try_array e) _ (about-nothing (get (codes "enum") schema) _ h_enum e d)
              xs c);
      }
