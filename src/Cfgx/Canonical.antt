-- ===== src/Cfgx/Canonical.antt =====
-- `CanonicalIniPath` of src/cfgx.cpp: the one text for all texts of a path.
use toolx_cpp.Prelude.{◌≡◌, sym, ap, ◌∙◌, inl, inr, Bytes, List, Option, none, some}
use toolx_cpp.Cfgx.Error.{Result, ok, err, Result-cases}
use toolx_cpp.Cfgx.Path.{PathToken, answer, parse_path, format_path_tokens}
use toolx_cpp.Cfgx.Path.Run.{parse_path_total}
use toolx_cpp.Cfgx.Path.Sound.{parse_path-canonical}
use toolx_cpp.Cfgx.Node.{Node}
use toolx_cpp.Cfgx.Access.{parsed, tokens_of, get_node}

abbrev pub canonical_of : Result (List PathToken) → Option Bytes
canonical_of (err e) = none
canonical_of (ok ts) = some (format_path_tokens ts)

unfoldable pub canonical_ini_path : Bytes → Option Bytes
canonical_ini_path path = canonical_of (parsed path)

-- The parse behind its answer.
pub parse_path-parsed :
    (s : Bytes) {ts : List PathToken} → parsed s ≡ ok ts → parse_path s ≡ answer (ok ts)
unfolding parsed
parse_path-parsed s h = let (r, e) = parse_path_total s in e ∙ ap answer (sym (ap tokens_of e) ∙ h)

parsed-parse_path :
    (s : Bytes) {ts : List PathToken} → parse_path s ≡ answer (ok ts) → parsed s ≡ ok ts
unfolding parsed
parsed-parse_path s h = ap tokens_of h

parsed-canonical : (s : Bytes) {t : Bytes} → canonical_ini_path s ≡ some t → parsed t ≡ parsed s
unfolding canonical_ini_path
parsed-canonical s {t} h = elim (Result-cases (parsed s)) [
  | inl (e, p) ↦ cc (rw p at h)
  | inr (ts, p) ↦
      let same : format_path_tokens ts ≡ t = cc (rw p at h) in
      rw (← same) (parsed-parse_path _ (parse_path-canonical s (parse_path-parsed s p)) ∙ sym p)
]

-- The canonical text of a path is its own canonical text, and reads the same value as the path.
pub get_node-canonical_ini_path :
    (root : Node) (s : Bytes) {t : Bytes}
    → canonical_ini_path s ≡ some t
    → (canonical_ini_path t ≡ some t) × (get_node root t ≡ get_node root s)
unfolding canonical_ini_path get_node
get_node-canonical_ini_path root s h =
    let same = parsed-canonical s h in (ap canonical_of same ∙ h, rw same)
