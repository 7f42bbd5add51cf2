-- ===== src/Schemax/Laws.antt =====
-- `Validate` and `Compile` of src/schemax.cpp together.
use toolx_cpp.Prelude.{
  ℕ, zero, suc, ◌≡◌, refl, ap, ◌∙◌, Bool, true, false, List, [], ◌∷◌, Bytes, some, if◌then◌else◌,
  take,
}
use toolx_cpp.Cfgx.Node.{Node}
use toolx_cpp.Schemax.Compile.{fine, validate_schema_node, node_count, compile}
use toolx_cpp.Schemax.Issue.{Issue}
use toolx_cpp.Schemax.Validate.{validate_node, issues_of, validate}
use toolx_cpp.Schemax.Issues.{issues_to}
use toolx_cpp.Schemax.Parts.{Finds, Reached, found}
use toolx_cpp.Schemax.Accepted.{Accepted, check_node-IsGood}
use toolx_cpp.Schemax.Report.{node_parts-Finds}

validate_node-Finds :
    (o : Bool) (fuel : ℕ) (document schema : Node) (path p : Bytes)
    → validate_schema_node fuel schema p ≡ fine
    → Finds o (validate_node o fuel document schema path) (issues_to fuel document schema path)
unfolding validate_node validate_schema_node issues_to
validate_node-Finds o zero document schema path p h = absurd (cc h)
validate_node-Finds o (suc fuel) document schema path p h =
    node_parts-Finds o (Accepted (validate_schema_node fuel)) (validate_node o fuel)
      (issues_to fuel) (λ d s q (r, e). validate_node-Finds o fuel d s q r e) document schema path
      (check_node-IsGood (validate_schema_node fuel) schema p h)

issues_of-found :
    (o : Bool) (is : List Issue) → issues_of (found o [] is) ≡ some (if o then take 1 is else is)
issues_of-found true [] = refl
issues_of-found true (i ∷ is) = refl
issues_of-found false [] = refl
issues_of-found false (i ∷ is) = refl

reached : (o : Bool) → Reached o []
reached true = refl
reached false = tt

-- Under a schema that `Compile` accepts, `Validate` returns the issues of the document in the order
-- of the visit, or the first of them under `fail_fast`.
pub validate-issues :
    (document schema : Node) (fail_fast : Bool)
    → compile schema ≡ fine
    → validate document schema fail_fast
      ≡ some (
          if fail_fast
          then take 1 (issues_to (node_count schema) document schema [])
          else issues_to (node_count schema) document schema [])
unfolding validate compile
validate-issues document schema o h =
    let e = validate_node-Finds o (node_count schema) document schema [] [] h [] (reached o) in
    ap issues_of e ∙ issues_of-found o (issues_to (node_count schema) document schema [])
