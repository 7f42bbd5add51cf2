-- ===== src/Schemax/Issue.antt =====
-- The issues that src/schemax.cpp reports, with their texts.
use toolx_cpp.Prelude.{List, [], ◌∷◌, ◌++◌, Bytes, codes}
use toolx_cpp.Cfgx.Node.{Node, kind}
use toolx_cpp.Schemax.Nodes.{as_string, kind_text, append_path}
use toolx_cpp.Schemax.Compile.{shown}

pub record Issue : Type 0 where
  pub path : Bytes
  pub code : Bytes
  pub message : Bytes

abbrev pub issue : Bytes → Bytes → Bytes → Issue
issue path code message = record { path = path; code = code; message = message }

-- The issues with their texts.
unfoldable pub type_issue : Node → Node → Bytes → Issue
type_issue document t path = issue (shown path) (codes "type") (
    codes "expected type '"
    ++ (as_string t ++ (codes "', got '" ++ (kind_text (kind document) ++ codes "'"))))

unfoldable pub required_issue : Node → Bytes → Issue
required_issue n path =
    issue (append_path path (as_string n)) (codes "required") (codes "required property is missing")

unfoldable pub additional_issue : Bytes → Bytes → Issue
additional_issue k path =
    issue (append_path path k) (codes "additionalProperties")
      (codes "additional property is not allowed")

unfoldable pub minimum_issue : Bytes → Issue
minimum_issue path = issue (shown path) (codes "minimum") (codes "numeric value is below minimum")

unfoldable pub maximum_issue : Bytes → Issue
maximum_issue path = issue (shown path) (codes "maximum") (codes "numeric value is above maximum")

unfoldable pub min_length_issue : Bytes → Issue
min_length_issue path =
    issue (shown path) (codes "minLength") (codes "string length is below minimum")

unfoldable pub max_length_issue : Bytes → Issue
max_length_issue path =
    issue (shown path) (codes "maxLength") (codes "string length is above maximum")

unfoldable pub enum_issue : Bytes → Issue
enum_issue path = issue (shown path) (codes "enum") (codes "value is not in enum set")

-- `ToCfgxIssues`.
pub record ValidationIssue : Type 0 where
  pub path : Bytes
  pub message : Bytes

pub to_cfgx_issues : List Issue → List ValidationIssue
to_cfgx_issues [] = []
to_cfgx_issues (i ∷ is) =
    record { path = i.path; message = b'[' ∷ (i.code ++ (codes "] " ++ i.message)) }
    ∷ to_cfgx_issues is
