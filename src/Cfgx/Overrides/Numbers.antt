-- ===== src/Cfgx/Overrides/Numbers.antt =====
-- The states of `RuntimeOverrides` that calls lead to, and the numbers of their operations.
use toolx_cpp.Prelude.{
  ℕ, suc, ◌+◌, ◌%◌, ◌^◌, ◌≡◌, refl, inl, inr, List, [], ◌∷◌, ◌++◌, Bytes, arith, length,
}
use toolx_cpp.Cfgx.Error.{Result-cases}
use toolx_cpp.Cfgx.Node.{Node}
use toolx_cpp.Cfgx.Access.{parsed}
use toolx_cpp.Cfgx.Overrides.{
  OpKind, Op, RuntimeOverrides, no_overrides, push_op, next_op, set_override, remove_override,
  replace_all, clear,
}

-- The states that sequences of calls lead to.
pub data Reachable : RuntimeOverrides → Type 0 where
  created : Reachable no_overrides
  after_set :
      {o : RuntimeOverrides} (path : Bytes) (v : Node)
      → Reachable o
      → Reachable (set_override o path v).0
  after_remove :
      {o : RuntimeOverrides} (path : Bytes) → Reachable o → Reachable (remove_override o path).0
  after_replace : {o : RuntimeOverrides} (v : Node) → Reachable o → Reachable (replace_all o v).0
  after_clear : {o : RuntimeOverrides} → Reachable o → Reachable (clear o)

-- The operations carry the numbers from `n` on, as a counter of 64 bits gives them.
abbrev pub AreNumbered : ℕ → List Op → Type 0
AreNumbered n [] = Unit {0}
AreNumbered n (op ∷ ops) = (op.sequence ≡ n % 2 ^ 64) × AreNumbered (suc n) ops

abbrev pub IsNumbered : RuntimeOverrides → Type 0
IsNumbered o = AreNumbered 1 o.ops × (o.next_sequence ≡ (length o.ops + 1) % 2 ^ 64)

AreNumbered-append :
    (n : ℕ) (ops : List Op) (op : Op)
    → AreNumbered n ops
    → op.sequence ≡ (length ops + n) % 2 ^ 64
    → AreNumbered n (ops ++ op ∷ [])
AreNumbered-append n [] op h e = (omega arith, tt)
AreNumbered-append n (o ∷ ops) op (h, hs) e =
    (h, AreNumbered-append (suc n) ops op hs (omega arith))

length-snoc : (ops : List Op) (op : Op) → length (ops ++ op ∷ []) ≡ suc (length ops)
length-snoc [] op = refl
length-snoc (o ∷ ops) op = omega (arith, length-snoc ops op)

push_op-IsNumbered :
    (o : RuntimeOverrides) (k : OpKind) (path : Bytes) (v : Node)
    → IsNumbered o
    → IsNumbered (push_op o k path v)
push_op-IsNumbered o k path v (h, e) = (
  AreNumbered-append 1 o.ops (next_op o k path v) h e,
  omega (arith, length-snoc o.ops (next_op o k path v)),
)

-- In every state that calls lead to, the operations are numbered from 1 on without a gap, and the
-- counter stands behind the last of them, both as 64 bits hold them.
pub Reachable-IsNumbered : (o : RuntimeOverrides) → Reachable o → IsNumbered o
unfolding no_overrides set_override remove_override replace_all clear
Reachable-IsNumbered _ created = (tt, refl)
Reachable-IsNumbered _ (after_set {o} path v r) = elim (Result-cases (parsed path)) [
  | inl (e, p) ↦ rw p (Reachable-IsNumbered o r)
  | inr (ts, p) ↦ rw p (push_op-IsNumbered o _ path v (Reachable-IsNumbered o r))
]
Reachable-IsNumbered _ (after_remove {o} path r) = elim (Result-cases (parsed path)) [
  | inl (e, p) ↦ rw p (Reachable-IsNumbered o r)
  | inr (ts, p) ↦ rw p (push_op-IsNumbered o _ path _ (Reachable-IsNumbered o r))
]
Reachable-IsNumbered _ (after_replace {o} v r) =
    push_op-IsNumbered o _ [] v (Reachable-IsNumbered o r)
Reachable-IsNumbered _ (after_clear r) = (tt, refl)
