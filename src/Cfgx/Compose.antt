-- ===== src/Cfgx/Compose.antt =====
-- `ComposeLayers` of src/cfgx.cpp with no source trace: the layers over a base, in their order.
pub mod Precedence
use toolx_cpp.Prelude.{ℕ, Bool, true, false, Option, none, some, if◌then◌else◌}
use toolx_cpp.Cfgx.Error.{Error, Result, ok, err, compose_runtime_failed}
use toolx_cpp.Cfgx.Node.{Node}
use toolx_cpp.Cfgx.Merge.{merge_into}
use toolx_cpp.Cfgx.Overrides.{RuntimeOverrides, has_no_ops, materialize}

-- The layers that may be given; `runtime` is the null pointer of the source where it is `none`.
pub record Layers : Type 0 where
  pub env : Option Node
  pub remote : Option Node
  pub local : Option Node
  pub runtime : Option RuntimeOverrides

module _ (append_arrays : Bool) where
  -- A merge of a layer where it is given; the merge does not fail.
  unfoldable pub over_layer : Option Node → Node → Node
  over_layer none out = out
  over_layer (some layer) out = merge_into append_arrays layer out

  -- The last layer, as the log of overrides materializes.
  abbrev pub over_resolved : Result Node → Node → Result Node
  over_resolved (err e) out = err (compose_runtime_failed e)
  over_resolved (ok layer) out = ok (merge_into append_arrays layer out)

  unfoldable pub over_runtime : ℕ → Option RuntimeOverrides → Node → Result Node
  over_runtime maximum none out = ok out
  over_runtime maximum (some o) out =
      if has_no_ops o then ok out else over_resolved (materialize maximum o) out

  unfoldable pub compose_layers : ℕ → Node → Layers → Result Node
  compose_layers maximum base l =
      over_runtime maximum l.runtime
        (over_layer l.local (over_layer l.remote (over_layer l.env base)))
