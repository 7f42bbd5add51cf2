-- ===== src/Cfgx/Overrides.antt =====
-- `RuntimeOverrides` of include/cfgx.h and src/cfgx.cpp: a log of changes to a configuration that
-- starts as an empty object, and the configuration that the log gives.
pub mod Laws
pub mod Removed
pub mod Numbers
use toolx_cpp.Prelude.{
  ℕ, ◌+◌, ◌%◌, ◌^◌, Bool, true, false, not, List, [], ◌∷◌, ◌++◌, Bytes, if◌then◌else◌,
}
use toolx_cpp.Cfgx.Error.{
  Error, Result, ok, err, Status, done, ◌>>=◌, runtime_set_failed, runtime_remove_failed,
}
use toolx_cpp.Cfgx.Message.{message, is_missing_path_error}
use toolx_cpp.Cfgx.Path.{PathToken}
use toolx_cpp.Cfgx.Node.{Node, null, object, end}
use toolx_cpp.Cfgx.Access.{Change, parsed, set_node, remove_node}

pub data OpKind : Type 0 where
  set_kind remove_kind replace_kind : OpKind

pub record Op : Type 0 where
  pub sequence : ℕ
  pub op_kind : OpKind
  pub path : Bytes
  pub value : Node

pub record RuntimeOverrides : Type 0 where
  pub ops : List Op
  pub next_sequence : ℕ

unfoldable pub no_overrides : RuntimeOverrides
no_overrides = record { ops = []; next_sequence = 1 }

-- The operation that the next number is given to, and the log with it. The counter has 64 bits.
abbrev pub next_op : RuntimeOverrides → OpKind → Bytes → Node → Op
next_op o k path v = record { sequence = o.next_sequence; op_kind = k; path = path; value = v }

abbrev pub push_op : RuntimeOverrides → OpKind → Bytes → Node → RuntimeOverrides
push_op o k path v = record {
  ops = o.ops ++ next_op o k path v ∷ [];
  next_sequence = (o.next_sequence + 1) % 2 ^ 64;
}

-- What a member function that parses its path does next.
abbrev pub when_parsed :
    Result (List PathToken) → RuntimeOverrides → RuntimeOverrides → RuntimeOverrides × Status
when_parsed (err e) o pushed = (o, err e)
when_parsed (ok ts) o pushed = (pushed, done)

unfoldable pub set_override : RuntimeOverrides → Bytes → Node → RuntimeOverrides × Status
set_override o path v = when_parsed (parsed path) o (push_op o set_kind path v)

unfoldable pub remove_override : RuntimeOverrides → Bytes → RuntimeOverrides × Status
remove_override o path = when_parsed (parsed path) o (push_op o remove_kind path null)

pub replace_all : RuntimeOverrides → Node → RuntimeOverrides × Status
replace_all o v = (push_op o replace_kind [] v, done)

pub clear : RuntimeOverrides → RuntimeOverrides
clear o = record { ops = []; next_sequence = 1 }

unfoldable pub has_no_ops : RuntimeOverrides → Bool
has_no_ops o = elim o.ops [ [] ↦ true | op ∷ ops ↦ false ]

-- What the loop does with the status of a change.
abbrev pub after_set : Bytes → Change → Result Node
after_set path (out, ok u) = ok out
after_set path (out, err e) = err (runtime_set_failed path e)

abbrev pub after_remove : Bytes → Change → Result Node
after_remove path (out, ok u) = ok out
after_remove path (out, err e) =
    if not (is_missing_path_error (message e)) then err (runtime_remove_failed path e) else ok out

module _ (maximum : ℕ) where
  -- One round of the loop of `Materialize`, by the kind of the operation.
  unfoldable pub apply_kind : OpKind → Bytes → Node → Node → Result Node
  apply_kind replace_kind path v out = ok v
  apply_kind set_kind path v out = after_set path (set_node maximum out path v)
  apply_kind remove_kind path v out = after_remove path (remove_node out path)

  abbrev pub apply_op : Op → Node → Result Node
  apply_op op out = apply_kind op.op_kind op.path op.value out

  unfoldable pub apply_ops : List Op → Node → Result Node
  apply_ops [] out = ok out
  apply_ops (op ∷ ops) out = apply_op op out >>= apply_ops ops

  unfoldable pub materialize : RuntimeOverrides → Result Node
  materialize o = apply_ops o.ops (object end)
