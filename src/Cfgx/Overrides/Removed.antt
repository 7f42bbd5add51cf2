-- ===== src/Cfgx/Overrides/Removed.antt =====
-- Removals in the log of `RuntimeOverrides`, and the keys of what the log gives.
use toolx_cpp.Prelude.{ℕ, ◌≡◌, ◌≢◌, sym, ap, ◌∙◌, inl, inr, List, [], ◌∷◌, Bytes, All, Bool-cases}
use toolx_cpp.Cfgx.Error.{Error, ok, err, Result-cases, bind-ok}
use toolx_cpp.Cfgx.Message.{message, is_missing_path_error}
use toolx_cpp.Cfgx.Path.{PathToken}
use toolx_cpp.Cfgx.Node.{Node, null, object, end, IsWf}
use toolx_cpp.Cfgx.Access.{Change, parsed, remove_node, remove_parsed, get_node}
use toolx_cpp.Cfgx.Access.Remove.{remove_node_atomic}
use toolx_cpp.Cfgx.Access.Wf.{changes-IsWf}
use toolx_cpp.Cfgx.Access.Gone.{EndsInKey, removable, get_node-remove_node}
use toolx_cpp.Cfgx.Overrides.{
  OpKind, set_kind, remove_kind, replace_kind, Op, RuntimeOverrides, remove_override, after_remove,
  apply_kind, apply_op, apply_ops, materialize,
}
use toolx_cpp.Cfgx.Overrides.Laws.{materialize-push_op, after_set-ok}

-- A removal goes on from what it leaves, whether the path was there or not.
after_remove-ok :
    (path : Bytes) (c : Change) {root : Node} → after_remove path c ≡ ok root → c.0 ≡ root
after_remove-ok path (out, ok u) h = cc
after_remove-ok path (out, err e) h = elim (Bool-cases (is_missing_path_error (message e))) [
  | inl missing ↦ cc (rw missing at h)
  | inr other ↦ cc (rw other at h)
]

module _ (maximum : ℕ) where
  apply_kind-IsWf :
      (k : OpKind) (path : Bytes) (v out : Node) {root : Node}
      → IsWf v
      → IsWf out
      → apply_kind maximum k path v out ≡ ok root
      → IsWf root
  unfolding apply_kind
  apply_kind-IsWf set_kind path v out hv ho h =
      let same = (after_set-ok path _ h).0 in rw (← same) (changes-IsWf maximum out path v ho hv).0
  apply_kind-IsWf remove_kind path v out hv ho h =
      let same = after_remove-ok path _ h in rw (← same) (changes-IsWf maximum out path v ho hv).1
  apply_kind-IsWf replace_kind path v out {root} hv ho h =
      let same : v ≡ root = cc h in rw (← same) hv

  apply_ops-IsWf :
      (ops : List Op) (out : Node) {root : Node}
      → All (λ op. IsWf op.value) ops
      → IsWf out
      → apply_ops maximum ops out ≡ ok root
      → IsWf root
  unfolding apply_ops
  apply_ops-IsWf [] out {root} hv ho h = let same : out ≡ root = cc h in rw (← same) ho
  apply_ops-IsWf (op ∷ ops) out (hv, hvs) ho h =
      let (next, e, g) = bind-ok (apply_op maximum op out) (apply_ops maximum ops) h in
      apply_ops-IsWf ops next hvs (apply_kind-IsWf op.op_kind op.path op.value out hv ho e) g

-- A log of well formed values materializes to a configuration with different keys in every object.
pub materialize-IsWf :
    (maximum : ℕ) (o : RuntimeOverrides) {root : Node}
    → All (λ op. IsWf op.value) o.ops
    → materialize maximum o ≡ ok root
    → IsWf root
unfolding materialize IsWf
materialize-IsWf maximum o hv h = apply_ops-IsWf maximum o.ops (object end) hv tt h

-- A removal that fails was of a path that `GetNode` does not find.
unread :
    (out : Node) (path : Bytes) {ts : List PathToken} {e : Error} {w : Node}
    → parsed path ≡ ok ts
    → EndsInKey ts
    → (remove_node out path).1 ≡ err e
    → get_node out path ≢ ok w
unfolding remove_node get_node remove_parsed
unread out path {ts = []} p ends h g = ends
unread out path {ts = t ∷ ts} {w = w} p ends h g =
    cc (removable t ts out w (rw p at g), rw (p, remove_parsed) at h)

-- Where a log of well formed values with a new `Remove` materializes, `GetNode` finds no value at the
-- path, for a path that ends in a key.
pub get_node-remove_override :
    (maximum : ℕ) (o : RuntimeOverrides) (path : Bytes) {ts : List PathToken} {root w : Node}
    → All (λ op. IsWf op.value) o.ops
    → parsed path ≡ ok ts
    → EndsInKey ts
    → materialize maximum (remove_override o path).0 ≡ ok root
    → get_node root path ≢ ok w
unfolding remove_override apply_kind
get_node-remove_override maximum o path {ts} {root} {w} hv p ends h g =
    let (out, before, now) =
      bind-ok (materialize maximum o) (apply_kind maximum remove_kind path null)
        (sym (materialize-push_op maximum o remove_kind path null) ∙ (rw p at h)) in
    let same = after_remove-ok path (remove_node out path) now in
    elim (Result-cases (remove_node out path).1) [
      | inl (e, fails) ↦
          let kept = remove_node_atomic out path fails in
          unread out path p ends fails (ap (λ n. get_node n path) (sym kept ∙ same) ∙ g)
      | inr (u, succeeds) ↦
          let (k, missing) =
            get_node-remove_node out path ts p ends (materialize-IsWf maximum o hv before)
              succeeds in
          cc (missing, ap (λ n. get_node n path) same, g)
    ]
