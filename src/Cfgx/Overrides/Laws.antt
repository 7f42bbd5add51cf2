-- ===== src/Cfgx/Overrides/Laws.antt =====
-- What `Materialize` of src/cfgx.cpp gives after each operation on the log of overrides.
use toolx_cpp.Prelude.{
  ℕ, ◌≡◌, refl, sym, ◌∙◌, inl, inr, List, [], ◌∷◌, ◌++◌, Bytes, All, All-append, false,
}
use toolx_cpp.Cfgx.Error.{ok, err, done, ◌>>=◌, Result-cases, bind-ok}
use toolx_cpp.Cfgx.Node.{Node, object, end, IsWf}
use toolx_cpp.Cfgx.Access.{Change, parsed, get_node}
use toolx_cpp.Cfgx.Access.Frame.{get_node-set_node}
use toolx_cpp.Cfgx.Overrides.{
  OpKind, set_kind, Op, RuntimeOverrides, next_op, push_op, set_override, has_no_ops, after_set,
  apply_kind, apply_op, apply_ops, materialize,
}

module _ (maximum : ℕ) where
  pub apply_ops-append :
      (xs ys : List Op) (out : Node)
      → apply_ops maximum (xs ++ ys) out ≡ (apply_ops maximum xs out >>= apply_ops maximum ys)
  unfolding apply_ops
  apply_ops-append [] ys out = refl
  apply_ops-append (op ∷ xs) ys out = elim (Result-cases (apply_op maximum op out)) [
    | inl (e, h) ↦ rw h
    | inr (next, h) ↦ rw h (apply_ops-append xs ys next)
  ]

  apply_ops-one : (op : Op) (out : Node) → apply_ops maximum (op ∷ []) out ≡ apply_op maximum op out
  unfolding apply_ops
  apply_ops-one op out = elim (Result-cases (apply_op maximum op out)) [
    | inl (e, h) ↦ rw h
    | inr (next, h) ↦ rw h
  ]

  -- A new operation acts on what the log gave before it.
  pub materialize-push_op :
      (o : RuntimeOverrides) (k : OpKind) (path : Bytes) (v : Node)
      → materialize maximum (push_op o k path v)
        ≡ (materialize maximum o >>= apply_kind maximum k path v)
  unfolding materialize
  materialize-push_op o k path v =
      apply_ops-append o.ops (next_op o k path v ∷ []) (object end)
      ∙ elim (Result-cases (apply_ops maximum o.ops (object end))) [
        | inl (e, h) ↦ rw h
        | inr (out, h) ↦ rw h (apply_ops-one (next_op o k path v) out)
      ]

pub after_set-ok :
    (path : Bytes) (c : Change) {root : Node}
    → after_set path c ≡ ok root
    → (c.0 ≡ root) × (c.1 ≡ done)
after_set-ok path (out, ok u) h = (cc, refl)
after_set-ok path (out, err e) h = cc

-- Where a log with a new `Set` materializes, `GetNode` finds the value in the result.
pub get_node-set_override :
    (maximum : ℕ) (o : RuntimeOverrides) (path : Bytes) (v : Node) {root : Node}
    → (set_override o path v).1 ≡ done
    → materialize maximum (set_override o path v).0 ≡ ok root
    → get_node root path ≡ ok v
unfolding set_override apply_kind
get_node-set_override maximum o path v d h = elim (Result-cases (parsed path)) [
  | inl (e, p) ↦ absurd (cc (rw p at d))
  | inr (ts, p) ↦
      let (out, _, now) =
        bind-ok (materialize maximum o) (apply_kind maximum set_kind path v)
          (sym (materialize-push_op maximum o set_kind path v) ∙ (rw p at h)) in
      let (same, succeeds) = after_set-ok path _ now in
      rw (← same) (get_node-set_node maximum out path v succeeds)
]

-- The log behind a `Set` that succeeds.
module _ (o : RuntimeOverrides) (path : Bytes) (v : Node) where
  has_no_ops-snoc :
      (ops : List Op) (n : ℕ) (op : Op)
      → has_no_ops (record { ops = ops ++ op ∷ []; next_sequence = n }) ≡ false
  unfolding has_no_ops
  has_no_ops-snoc [] n op = refl
  has_no_ops-snoc (first ∷ ops) n op = refl

  pub has_no_ops-set_override :
      (set_override o path v).1 ≡ done → has_no_ops (set_override o path v).0 ≡ false
  unfolding set_override
  has_no_ops-set_override d = elim (Result-cases (parsed path)) [
    | inl (e, p) ↦ absurd (cc (rw p at d))
    | inr (ts, p) ↦ rw p (has_no_ops-snoc o.ops _ _)
  ]

  pub set_override-values :
      All (λ op. IsWf op.value) o.ops
      → IsWf v
      → All (λ op. IsWf op.value) (set_override o path v).0.ops
  unfolding set_override
  set_override-values hos hv = elim (Result-cases (parsed path)) [
    | inl (e, p) ↦ rw p hos
    | inr (ts, p) ↦
        rw p (All-append (λ op. IsWf op.value) o.ops (next_op o set_kind path v ∷ []) hos (hv, tt))
  ]
