-- ===== src/Schemax/Accepted.antt =====
-- What `Compile` of src/schemax.cpp has checked of a schema that it accepts.
use toolx_cpp.Prelude.{◌≡◌, refl, Bool, true, false, Bytes, Option, none, some, codes}
use toolx_cpp.Cfgx.Node.{
  Node, null, boolean, integer, double, string, object, array, Entries, end, entry, Elements,
  array_kind,
}
use toolx_cpp.Cfgx.Access.{try_object, try_array}
use toolx_cpp.Schemax.Nodes.{get, has_kind, append_path}
use toolx_cpp.Schemax.Compile.{
  Verdict, fine, refused, spent, SchemaReason, ◌&>◌, check, at_key, check_keys, check_type,
  check_required, check_properties, check_property_object, check_scalars, check_node, shown,
}

-- The schema nodes below a schema are good, and what is walked as an array or an object is one.
module _ (Good : Node → Type 0) where
  abbrev pub AllGood : Entries → Type 0
  AllGood end = Unit {0}
  AllGood (entry k n fs) = Good n × AllGood fs

  pub record IsGood (schema : Node) : Type 0 where
    pub required :
        (r : Node)
        → get (codes "required") schema ≡ some r
        → (xs : Elements) × (try_array r ≡ some xs)
    pub properties :
        (ps : Node)
        → get (codes "properties") schema ≡ some ps
        → (fs : Entries) × (try_object ps ≡ some fs) × AllGood fs
    pub items : (n : Node) → get (codes "items") schema ≡ some n → Good n
    pub enum_values :
        (e : Node) → get (codes "enum") schema ≡ some e → (xs : Elements) × (try_array e ≡ some xs)

refused-ne-fine : (r : SchemaReason) (l : Bytes) → refused r l ≡ fine → ⊥
refused-ne-fine r l h = cc h

both_fine : (v w : Verdict) → (v &> w) ≡ fine → (v ≡ fine) × (w ≡ fine)
both_fine fine w h = (refl, h)
both_fine (refused r l) w h = absurd (refused-ne-fine r l h)
both_fine spent w h = absurd (cc h)

check-fine : (b : Bool) (r : SchemaReason) (p : Bytes) → check b r p ≡ fine → b ≡ true
check-fine true r p h = refl
check-fine false r p h = absurd (refused-ne-fine r (shown p) h)

at_key-fine :
    (a : Option Node) (f : Node → Verdict)
    → at_key a f ≡ fine
    → (x : Node) → a ≡ some x
    → f x ≡ fine
at_key-fine none f h x e = absurd (cc e)
at_key-fine (some y) f h x e = let same : y ≡ x = cc e in cc (same, h)

has_kind-array :
    (n : Node) → has_kind array_kind n ≡ true → (xs : Elements) × (try_array n ≡ some xs)
unfolding has_kind try_array
has_kind-array (array xs) h = (xs, refl)
has_kind-array null h = absurd (cc h)
has_kind-array (boolean b) h = absurd (cc h)
has_kind-array (integer z) h = absurd (cc h)
has_kind-array (double d) h = absurd (cc h)
has_kind-array (string s) h = absurd (cc h)
has_kind-array (object fs) h = absurd (cc h)

check_required-fine :
    (n : Node) (p : Bytes) → check_required n p ≡ fine → (xs : Elements) × (try_array n ≡ some xs)
unfolding check_required try_array
check_required-fine (array xs) p h = (xs, refl)
check_required-fine null p h = absurd (cc h)
check_required-fine (boolean b) p h = absurd (cc h)
check_required-fine (integer z) p h = absurd (cc h)
check_required-fine (double d) p h = absurd (cc h)
check_required-fine (string s) p h = absurd (cc h)
check_required-fine (object fs) p h = absurd (cc h)

module _ (again : Node → Bytes → Verdict) where
  -- Accepted somewhere.
  abbrev pub Accepted : Node → Type 0
  Accepted n = (p : Bytes) × (again n p ≡ fine)

  check_properties-fine :
      (fs : Entries) (p : Bytes) → check_properties again fs p ≡ fine → AllGood Accepted fs
  unfolding check_properties
  check_properties-fine end p h = tt
  check_properties-fine (entry k n fs) p h =
      let (hn, hs) = both_fine (again n (append_path p k)) (check_properties again fs p) h in
      ((append_path p k, hn), check_properties-fine fs p hs)

  check_property_object-fine :
      (n : Node) (p : Bytes)
      → check_property_object again n p ≡ fine
      → (fs : Entries) × (try_object n ≡ some fs) × AllGood Accepted fs
  unfolding check_property_object try_object
  check_property_object-fine (object fs) p h = (fs, refl, check_properties-fine fs p h)
  check_property_object-fine null p h = absurd (cc h)
  check_property_object-fine (boolean b) p h = absurd (cc h)
  check_property_object-fine (integer z) p h = absurd (cc h)
  check_property_object-fine (double d) p h = absurd (cc h)
  check_property_object-fine (string s) p h = absurd (cc h)
  check_property_object-fine (array xs) p h = absurd (cc h)

  check_scalars-enum :
      (schema : Node) (p : Bytes)
      → check_scalars schema p ≡ fine
      → (e : Node) → get (codes "enum") schema ≡ some e
      → (xs : Elements) × (try_array e ≡ some xs)
  unfolding check_scalars
  check_scalars-enum schema p h e d =
      let (before, _) = both_fine _ _ h in
      let (_, listed) = both_fine _ _ before in
      has_kind-array e (check-fine _ _ p (at_key-fine _ _ listed e d))

  pub check_node-IsGood :
      (schema : Node) (p : Bytes) → check_node again schema p ≡ fine → IsGood Accepted schema
  unfolding check_node try_object
  check_node-IsGood (object fs) p h =
      let required_of : Node → Verdict = λ n. check_required n p in
      let properties_of : Node → Verdict = λ n. check_property_object again n p in
      let items_of : Node → Verdict = λ n. again n (append_path p (codes "items")) in
      let v2 = check_keys fs p &> check_type (object fs) p in
      let v3 = v2 &> at_key (get (codes "required") (object fs)) required_of in
      let v4 = v3 &> at_key (get (codes "properties") (object fs)) properties_of in
      let (h5, scalars) =
        both_fine (v4 &> at_key (get (codes "items") (object fs)) items_of)
          (check_scalars (object fs) p) h in
      let (h4, items) = both_fine v4 (at_key (get (codes "items") (object fs)) items_of) h5 in
      let (h3, properties) =
        both_fine v3 (at_key (get (codes "properties") (object fs)) properties_of) h4 in
      let (_, required) =
        both_fine v2 (at_key (get (codes "required") (object fs)) required_of) h3 in
      record {
        required = λ r e.
            check_required-fine r p
              (at_key-fine (get (codes "required") (object fs)) required_of required r e);
        properties = λ ps e.
            check_property_object-fine ps p
              (at_key-fine (get (codes "properties") (object fs)) properties_of properties ps e);
        items = λ n e. (
          append_path p (codes "items"),
          at_key-fine (get (codes "items") (object fs)) items_of items n e,
        );
        enum_values = check_scalars-enum (object fs) p scalars;
      }
  check_node-IsGood null p h = absurd (cc h)
  check_node-IsGood (boolean b) p h = absurd (cc h)
  check_node-IsGood (integer z) p h = absurd (cc h)
  check_node-IsGood (double d) p h = absurd (cc h)
  check_node-IsGood (string s) p h = absurd (cc h)
  check_node-IsGood (array xs) p h = absurd (cc h)
