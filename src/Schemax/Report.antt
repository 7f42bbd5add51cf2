-- ===== src/Schemax/Report.antt =====
-- One call of `validate_node` of src/schemax.cpp reports the issues of its document.
use toolx_cpp.Prelude.{ℕ, suc, ◌≡◌, sym, Bool, Bytes, Option, some, codes}
use toolx_cpp.Cfgx.Node.{
  Node, null, boolean, integer, double, string, object, array, Entries, end, entry, Elements, nil,
  element, is_object,
}
use toolx_cpp.Cfgx.Access.{try_object, try_array}
use toolx_cpp.Schemax.Nodes.{get, append_path, append_index}
use toolx_cpp.Schemax.Numbers.{is_number}
use toolx_cpp.Schemax.Validate.{
  Part, type_part, required_loop, required_part, properties_loop, properties_part, additional_loop,
  additional_part, items_loop, items_part, number_part, length_part, enum_part, node_parts,
  is_closed_schema,
}
use toolx_cpp.Schemax.Issues.{
  Finder, missing_keys, additional_keys, property_issues, item_issues, type_issues, required_issues,
  properties_issues, additional_issues, items_issues, number_issues, length_issues, enum_issues,
  node_issues,
}
use toolx_cpp.Schemax.Accepted.{AllGood, IsGood}
use toolx_cpp.Schemax.Parts.{
  Finds, Finds-nothing, Finds-demand, Finds-then, Finds-call, Finds-if, Finds-about, Finds-deref,
}

module _ (o : Bool) where
  required_loop-Finds :
      (xs : Elements) (document : Node) (path : Bytes)
      → Finds o (required_loop o xs document path) (missing_keys xs document path)
  unfolding required_loop missing_keys
  required_loop-Finds nil document path = Finds-nothing o
  required_loop-Finds (element n xs) document path =
      Finds-then o _ _ _ _ (Finds-demand o _ _) (required_loop-Finds xs document path)

  additional_loop-Finds :
      (properties : Option Node) (fs : Entries) (path : Bytes)
      → Finds o (additional_loop o properties fs path) (additional_keys properties fs path)
  unfolding additional_loop additional_keys
  additional_loop-Finds properties end path = Finds-nothing o
  additional_loop-Finds properties (entry k n fs) path =
      Finds-then o _ _ _ _ (Finds-demand o _ _) (additional_loop-Finds properties fs path)

  type_part-Finds :
      (document schema : Node) (path : Bytes)
      → Finds o (type_part o document schema path) (type_issues document schema path)
  unfolding type_part type_issues
  type_part-Finds document schema path =
      Finds-about o (get (codes "type") schema) _ _ (λ t e. Finds-demand o _ _)

  required_part-Finds :
      (document schema : Node) (path : Bytes)
      → ((r : Node)
          → get (codes "required") schema ≡ some r
          → (xs : Elements) × (try_array r ≡ some xs))
      → Finds o (required_part o document schema path) (required_issues document schema path)
  unfolding required_part required_issues
  required_part-Finds document schema path h =
      Finds-about o (get (codes "required") schema) _ _ (λ r e.
        Finds-if o (is_object document) _ _
          (Finds-deref o (try_array r) _ _ (h r e) (λ xs d. required_loop-Finds xs document path)))

  additional_part-Finds :
      (document schema : Node) (path : Bytes)
      → Finds o (additional_part o document schema path) (additional_issues document schema path)
  unfolding additional_part additional_issues
  additional_part-Finds document schema path = Finds-about o (try_object document) _ _ (λ fs e.
      Finds-if o (is_closed_schema (get (codes "additionalProperties") schema)) _ _
        (additional_loop-Finds (get (codes "properties") schema) fs path))

  number_part-Finds :
      (document schema : Node) (path : Bytes)
      → Finds o (number_part o document schema path) (number_issues document schema path)
  unfolding number_part number_issues
  number_part-Finds document schema path =
      Finds-if o (is_number document) _ _
        (Finds-then o _ _ _ _ (Finds-demand o _ _) (Finds-demand o _ _))

  length_part-Finds :
      (document schema : Node) (path : Bytes)
      → Finds o (length_part o document schema path) (length_issues document schema path)
  unfolding length_part length_issues
  length_part-Finds null schema path = Finds-nothing o
  length_part-Finds (boolean b) schema path = Finds-nothing o
  length_part-Finds (integer z) schema path = Finds-nothing o
  length_part-Finds (double d) schema path = Finds-nothing o
  length_part-Finds (string s) schema path =
      Finds-then o _ _ _ _ (Finds-demand o _ _) (Finds-demand o _ _)
  length_part-Finds (object fs) schema path = Finds-nothing o
  length_part-Finds (array xs) schema path = Finds-nothing o

  enum_part-Finds :
      (document schema : Node) (path : Bytes)
      → ((e : Node)
          → get (codes "enum") schema ≡ some e
          → (xs : Elements) × (try_array e ≡ some xs))
      → Finds o (enum_part o document schema path) (enum_issues document schema path)
  unfolding enum_part enum_issues
  enum_part-Finds document schema path h =
      Finds-about o (get (codes "enum") schema) _ _
        (λ e d. Finds-deref o (try_array e) _ _ (h e d) (λ xs c. Finds-demand o _ _))

  -- A nested call that finds the issues of every document under the schemas with `Good`.
  module _ (Good : Node → Type 0) (again : Node → Node → Bytes → Part) (below : Finder)
      (nested : (document schema : Node) (path : Bytes)
        → Good schema
        → Finds o (again document schema path) (below document schema path)) where
    properties_loop-Finds :
        (fs : Entries) (document : Node) (path : Bytes)
        → AllGood Good fs
        → Finds o
            (properties_loop o again fs document path)
            (property_issues below fs document path)
    unfolding properties_loop property_issues
    properties_loop-Finds end document path g = Finds-nothing o
    properties_loop-Finds (entry k n fs) document path (gn, gs) =
        Finds-then o _ _ _ _
          (Finds-about o (get k document) _ _
            (λ child e. Finds-call o _ _ (nested child n (append_path path k) gn)))
          (properties_loop-Finds fs document path gs)

    items_loop-Finds :
        (items : Node) (i : ℕ) (xs : Elements) (path : Bytes)
        → Good items
        → Finds o (items_loop o again items i xs path) (item_issues below items i xs path)
    unfolding items_loop item_issues
    items_loop-Finds items i nil path g = Finds-nothing o
    items_loop-Finds items i (element n xs) path g =
        Finds-then o _ _ _ _ (Finds-call o _ _ (nested n items (append_index path i) g))
          (items_loop-Finds items (suc i) xs path g)

    properties_part-Finds :
        (document schema : Node) (path : Bytes)
        → ((ps : Node)
            → get (codes "properties") schema ≡ some ps
            → (fs : Entries) × (try_object ps ≡ some fs) × AllGood Good fs)
        → Finds o
            (properties_part o again document schema path)
            (properties_issues below document schema path)
    unfolding properties_part properties_issues
    properties_part-Finds document schema path h =
        Finds-about o (get (codes "properties") schema) _ _ (λ ps e.
          Finds-if o (is_object document) _ _ (
            let (fs, d, g) = h ps e in
            Finds-deref o (try_object ps) _ _ (fs, d)
              (λ gs c. properties_loop-Finds gs document path (same_good ps fs gs d c g))))
      where
        same_good :
            (ps : Node) (fs gs : Entries)
            → try_object ps ≡ some fs
            → try_object ps ≡ some gs
            → AllGood Good fs
            → AllGood Good gs
        same_good ps fs gs d c g = let e : fs ≡ gs = cc (d, c) in rw (sym e) g

    items_part-Finds :
        (document schema : Node) (path : Bytes)
        → ((n : Node) → get (codes "items") schema ≡ some n → Good n)
        → Finds o
            (items_part o again document schema path)
            (items_issues below document schema path)
    unfolding items_part items_issues
    items_part-Finds document schema path h =
        Finds-about o (get (codes "items") schema) _ _ (λ items e.
          Finds-about o (try_array document) _ _
            (λ xs d. items_loop-Finds items 0 xs path (h items e)))

    pub node_parts-Finds :
        (document schema : Node) (path : Bytes)
        → IsGood Good schema
        → Finds o (node_parts o again document schema path) (node_issues below document schema path)
    unfolding node_parts node_issues
    node_parts-Finds document schema path g =
        Finds-then o _ _ _ _
          (Finds-then o _ _ _ _
            (Finds-then o _ _ _ _
              (Finds-then o _ _ _ _
                (Finds-then o _ _ _ _
                  (Finds-then o _ _ _ _
                    (Finds-then o _ _ _ _ (type_part-Finds document schema path)
                      (required_part-Finds document schema path g.required))
                    (properties_part-Finds document schema path g.properties))
                  (additional_part-Finds document schema path))
                (items_part-Finds document schema path g.items))
              (number_part-Finds document schema path))
            (length_part-Finds document schema path))
          (enum_part-Finds document schema path g.enum_values)
