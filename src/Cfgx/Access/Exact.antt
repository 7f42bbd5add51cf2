-- ===== src/Cfgx/Access/Exact.antt =====
-- `Exists` of src/cfgx.cpp tells where `RemoveNode` succeeds.
use toolx_cpp.Prelude.{◌≡◌, ◌↔◌, refl, inl, inr, Bytes, true}
use toolx_cpp.Cfgx.Error.{ok, done, Result-cases}
use toolx_cpp.Cfgx.Path.Sound.{parse_path_sound}
use toolx_cpp.Cfgx.Node.{Node}
use toolx_cpp.Cfgx.Access.{parsed, get_node, exists_node, remove_node}
use toolx_cpp.Cfgx.Access.Gone.{remove_parsed_iff}
use toolx_cpp.Cfgx.Canonical.{parse_path-parsed}

exists_node-read :
    (root : Node) (path : Bytes)
    → exists_node root path ≡ true
    → (w : Node) × (get_node root path ≡ ok w)
unfolding exists_node
exists_node-read root path h = elim (Result-cases (get_node root path)) [
  | inl (e, g) ↦ absurd (cc (rw (g, exists_node) at h))
  | inr found ↦ found
]

exists_node-true :
    (root : Node) (path : Bytes) {w : Node}
    → get_node root path ≡ ok w
    → exists_node root path ≡ true
unfolding exists_node
exists_node-true root path g = rw (g, exists_node)

-- `RemoveNode` succeeds on a path exactly where `Exists` finds it, at keys and at indices.
pub remove_node_iff :
    (root : Node) (path : Bytes)
    → ((remove_node root path).1 ≡ done) ↔ (exists_node root path ≡ true)
unfolding remove_node get_node
remove_node_iff root path = (
  (λ h. let (w, g) = (remove_parsed_iff root (parsed path)).0 h in exists_node-true root path g),
  (λ h.
      let (w, g) = exists_node-read root path h in
      (remove_parsed_iff root (parsed path)).1 w
        (λ none. (parse_path_sound path (parse_path-parsed path none)).0 refl) g),
)
