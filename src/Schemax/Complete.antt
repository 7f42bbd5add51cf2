-- ===== src/Schemax/Complete.antt =====
-- `Validate` of src/schemax.cpp against the rules of the schema.
use toolx_cpp.Prelude.{
  ℕ, zero, suc, ◌≡◌, ◌↔◌, refl, sym, ◌∙◌, Bool, true, false, not, List, [], ◌∷◌, ◌++◌, Bytes,
  Option, none, some, if◌then◌else◌, codes, take,
}
use toolx_cpp.Cfgx.Node.{
  Node, null, boolean, integer, double, string, object, array, Entries, end, entry, Elements, nil,
  element, is_object,
}
use toolx_cpp.Cfgx.Access.{try_object, try_array}
use toolx_cpp.Schemax.Numbers.{is_number}
use toolx_cpp.Schemax.Nodes.{get, append_path, append_index}
use toolx_cpp.Schemax.Issue.{Issue}
use toolx_cpp.Schemax.Compile.{fine, compile, node_count}
use toolx_cpp.Schemax.Validate.{is_listed, is_closed_schema, passes, validate}
use toolx_cpp.Schemax.Issues.{
  unless, about, Finder, missing_keys, additional_keys, property_issues, item_issues, type_issues,
  required_issues, properties_issues, additional_issues, items_issues, number_issues, length_issues,
  enum_issues, node_issues, issues_to,
}
use toolx_cpp.Schemax.Laws.{validate-issues}
use toolx_cpp.Schemax.Conforms.{
  HasKeys, AreListed, EachProperty, EachItem, Rules, node_issues-nothing,
}

both_nothing {ℓ} : {A : Type ℓ} (xs ys : List A) → xs ≡ [] → ys ≡ [] → xs ++ ys ≡ []
both_nothing xs ys h k = rw (h, k) refl

unless-holds : (b : Bool) (i : Issue) → b ≡ true → unless b i ≡ []
unless-holds b i h = rw h refl

about-nothing_found {ℓ} :
    {A : Type ℓ} (a : Option A) (f : A → List Issue)
    → ((x : A) → a ≡ some x → f x ≡ [])
    → about a f ≡ []
about-nothing_found none f h = refl
about-nothing_found (some x) f h = h x refl

if-nothing_found : (b : Bool) (is : List Issue) → (b ≡ true → is ≡ []) → (if b then is else []) ≡ []
if-nothing_found true is h = h refl
if-nothing_found false is h = refl

passes-holds :
    (a : Option Node) (f : Node → Bool)
    → ((m : Node) → a ≡ some m → f m ≡ false)
    → passes a (λ m. not (f m)) ≡ true
passes-holds none f h = refl
passes-holds (some m) f h = rw (h m refl) refl

missing_keys-none :
    (xs : Elements) (document : Node) (p : Bytes)
    → HasKeys xs document
    → missing_keys xs document p ≡ []
unfolding missing_keys
missing_keys-none nil document p h = refl
missing_keys-none (element n xs) document p (h, hs) =
    rw (h, missing_keys-none xs document p hs) refl

additional_keys-none :
    (ps : Option Node) (fs : Entries) (p : Bytes) → AreListed ps fs → additional_keys ps fs p ≡ []
unfolding additional_keys
additional_keys-none ps end p h = refl
additional_keys-none ps (entry k n fs) p (h, hs) =
    both_nothing _ _ (unless-holds (is_listed ps k) _ h) (additional_keys-none ps fs p hs)

module _ (R : Node → Node → Type 0) (below : Finder)
    (nested : (document schema : Node) (path : Bytes)
      → R document schema
      → below document schema path ≡ []) where
  property_issues-none :
      (fs : Entries) (document : Node) (p : Bytes)
      → EachProperty R fs document
      → property_issues below fs document p ≡ []
  unfolding property_issues
  property_issues-none end document p h = refl
  property_issues-none (entry k n fs) document p (h, hs) =
      both_nothing _ _
        (about-nothing_found (get k document) _
          (λ child e. nested child n (append_path p k) (h child e)))
        (property_issues-none fs document p hs)

  item_issues-none :
      (items : Node) (i : ℕ) (xs : Elements) (p : Bytes)
      → EachItem R items xs
      → item_issues below items i xs p ≡ []
  unfolding item_issues
  item_issues-none items i nil p h = refl
  item_issues-none items i (element n xs) p (h, hs) =
      both_nothing _ _ (nested n items (append_index p i) h)
        (item_issues-none items (suc i) xs p hs)

  length_issues-none :
      (document schema : Node) (p : Bytes)
      → Rules R document schema
      → length_issues document schema p ≡ []
  unfolding length_issues
  length_issues-none (string s) schema p r =
      both_nothing _ _
        (unless-holds _ _
          (passes-holds (get (codes "minLength") schema) _ (λ m e. r.min_length_rule s m refl e)))
        (unless-holds _ _
          (passes-holds (get (codes "maxLength") schema) _ (λ m e. r.max_length_rule s m refl e)))
  length_issues-none null schema p r = refl
  length_issues-none (boolean b) schema p r = refl
  length_issues-none (integer z) schema p r = refl
  length_issues-none (double d) schema p r = refl
  length_issues-none (object fs) schema p r = refl
  length_issues-none (array xs) schema p r = refl

  node_issues-none :
      (document schema : Node) (p : Bytes)
      → Rules R document schema
      → node_issues below document schema p ≡ []
  unfolding node_issues type_issues required_issues properties_issues additional_issues items_issues
      number_issues enum_issues
  node_issues-none document schema p r =
      both_nothing _ _
        (both_nothing _ _
          (both_nothing _ _
            (both_nothing _ _
              (both_nothing _ _
                (both_nothing _ _
                  (both_nothing _ _
                    (about-nothing_found (get (codes "type") schema) _
                      (λ t e. unless-holds _ _ (r.type_rule t e)))
                    (about-nothing_found (get (codes "required") schema) _ (λ q e.
                      if-nothing_found (is_object document) _ (λ o.
                        about-nothing_found (try_array q) _
                          (λ xs d. missing_keys-none xs document p (r.required_rule q xs e d o))))))
                  (about-nothing_found (get (codes "properties") schema) _ (λ ps e.
                    if-nothing_found (is_object document) _ (λ o.
                      about-nothing_found (try_object ps) _ (λ fs d.
                        property_issues-none fs document p (r.properties_rule ps fs e d o))))))
                (about-nothing_found (try_object document) _ (λ fs e.
                  if-nothing_found (is_closed_schema (get (codes "additionalProperties") schema)) _
                    (λ c. additional_keys-none _ fs p (r.additional_rule fs e c)))))
              (about-nothing_found (get (codes "items") schema) _ (λ items e.
                about-nothing_found (try_array document) _
                  (λ xs d. item_issues-none items 0 xs p (r.items_rule items xs e d)))))
            (if-nothing_found (is_number document) _ (λ i.
              both_nothing _ _
                (unless-holds _ _
                  (passes-holds (get (codes "minimum") schema) _ (λ m e. r.minimum_rule m i e)))
                (unless-holds _ _
                  (passes-holds (get (codes "maximum") schema) _ (λ m e. r.maximum_rule m i e))))))
          (length_issues-none document schema p r))
        (about-nothing_found (get (codes "enum") schema) _ (λ e d.
          about-nothing_found (try_array e) _ (λ xs c. unless-holds _ _ (r.enum_rule e xs d c))))

-- The rules hold at a value and, down to a depth of the schema, at the values inside it.
unfoldable pub Conforms : ℕ → Node → Node → Type 0
Conforms zero document schema = Unit {0}
Conforms (suc depth) document schema = Rules (Conforms depth) document schema

Conforms-issues :
    (depth : ℕ) (document schema : Node) (p : Bytes)
    → (issues_to depth document schema p ≡ []) ↔ Conforms depth document schema
unfolding issues_to Conforms
Conforms-issues zero document schema p = (λ h. tt, λ h. refl)
Conforms-issues (suc depth) document schema p = (
  λ h.
      node_issues-nothing (Conforms depth) (issues_to depth)
        (λ d s q. (Conforms-issues depth d s q).0) document schema p h,
  λ h.
      node_issues-none (Conforms depth) (issues_to depth) (λ d s q. (Conforms-issues depth d s q).1)
        document schema p h,
)

reported-nothing :
    (o : Bool) (is : List Issue) → (some (if o then take 1 is else is) ≡ some []) ↔ (is ≡ [])
reported-nothing true [] = (λ h. refl, λ h. refl)
reported-nothing true (i ∷ is) = (λ h. absurd (cc h), λ h. absurd (cc h))
reported-nothing false [] = (λ h. refl, λ h. refl)
reported-nothing false (i ∷ is) = (λ h. absurd (cc h), λ h. absurd (cc h))

-- Under a schema that `Compile` accepts, `Validate` reports nothing, under `fail_fast` or not, exactly where
-- the document keeps every rule of the schema, down to its depth.
pub validate-Conforms :
    (document schema : Node) (fail_fast : Bool)
    → compile schema ≡ fine
    → (validate document schema fail_fast ≡ some []) ↔ Conforms (node_count schema) document schema
validate-Conforms document schema o h =
    let e = validate-issues document schema o h in
    let (r, s) = reported-nothing o (issues_to (node_count schema) document schema []) in
    let (c, d) = Conforms-issues (node_count schema) document schema [] in
    (λ k. c (r (sym e ∙ k)), λ k. e ∙ s (d k))
