-- ===== src/Cfgx/Compose/Precedence.antt =====
-- Which layer `ComposeLayers` of src/cfgx.cpp reads a value from.
use toolx_cpp.Prelude.{
  ℕ, ◌≡◌, inl, inr, Bool, List, Bytes, All, false, Bool-cases, Option, none, some,
}
use toolx_cpp.Cfgx.Error.{ok, done, Result-cases}
use toolx_cpp.Cfgx.Path.{PathToken}
use toolx_cpp.Cfgx.Node.{Node, IsWf, is_object}
use toolx_cpp.Cfgx.Access.{parsed, get_node}
use toolx_cpp.Cfgx.Merge.{merge, merge_into}
use toolx_cpp.Cfgx.Merge.Layers.{Untouched, get_node-merge_overlay, get_node-merge_base}
use toolx_cpp.Cfgx.Overrides.{RuntimeOverrides, set_override, has_no_ops, materialize}
use toolx_cpp.Cfgx.Overrides.Laws.{
  get_node-set_override, has_no_ops-set_override, set_override-values,
}
use toolx_cpp.Cfgx.Overrides.Removed.{materialize-IsWf}
use toolx_cpp.Cfgx.Compose.{Layers, over_layer, over_runtime, compose_layers}

-- A layer that, where it is given, lacks a key on the path.
abbrev pub Passes : List PathToken → Option Node → Type 0
Passes ts none = Unit {0}
Passes ts (some layer) = IsWf layer × Untouched ts layer

-- A log that is absent, has no operations, or gives such a layer.
abbrev pub RuntimePasses : ℕ → List PathToken → Option RuntimeOverrides → Type 0
RuntimePasses maximum ts none = Unit {0}
RuntimePasses maximum ts (some o) =
    (layer : Node) × (materialize maximum o ≡ ok layer) × Passes ts (some layer)

module _ (a : Bool) (path : Bytes) {ts : List PathToken} {w : Node} (p : parsed path ≡ ok ts) where
  merge_into-Passes :
      (layer base : Node)
      → IsWf layer
      → Untouched ts layer
      → get_node base path ≡ ok w
      → get_node (merge_into a layer base) path ≡ ok w
  unfolding merge
  merge_into-Passes layer base hw hu h = get_node-merge_base base layer a path ts w hw p hu h

  over_layer-Passes :
      (l : Option Node) (base : Node)
      → Passes ts l
      → get_node base path ≡ ok w
      → get_node (over_layer a l base) path ≡ ok w
  unfolding over_layer
  over_layer-Passes none base _ h = h
  over_layer-Passes (some layer) base (hw, hu) h = merge_into-Passes layer base hw hu h

  over_runtime-Passes :
      (maximum : ℕ) (r : Option RuntimeOverrides) (base : Node) {root : Node}
      → RuntimePasses maximum ts r
      → get_node base path ≡ ok w
      → over_runtime a maximum r base ≡ ok root
      → get_node root path ≡ ok w
  unfolding over_runtime
  over_runtime-Passes maximum none base {root} _ h e =
      let same : base ≡ root = cc e in rw (← same) h
  over_runtime-Passes maximum (some o) base {root} (layer, m, (hw, hu)) h e =
      elim (Bool-cases (has_no_ops o)) [
        | inl empty ↦ let same : base ≡ root = cc (rw empty at e) in rw (← same) h
        | inr full ↦
            let same : merge_into a layer base ≡ root = cc (rw (full, m) at e) in
            rw (← same) (merge_into-Passes layer base hw hu h)
      ]

merge_into-leaf :
    (layer base : Node) (path : Bytes) (w : Node)
    → IsWf layer
    → is_object w ≡ false
    → get_node layer path ≡ ok w
    → get_node (merge_into false layer base) path ≡ ok w
unfolding merge
merge_into-leaf layer base path w hw leaf h = get_node-merge_overlay base layer path w hw leaf h

-- Where the composition succeeds, it keeps a value of the base at a path on which every layer that is
-- given is well formed and lacks a key.
pub get_node-compose_base :
    (a : Bool) (maximum : ℕ) (base : Node) (l : Layers) (path : Bytes) {ts : List PathToken}
    {w root : Node}
    → parsed path ≡ ok ts
    → Passes ts l.env
    → Passes ts l.remote
    → Passes ts l.local
    → RuntimePasses maximum ts l.runtime
    → get_node base path ≡ ok w
    → compose_layers a maximum base l ≡ ok root
    → get_node root path ≡ ok w
unfolding compose_layers
get_node-compose_base a maximum base l path p he hr hl ho h e =
    over_runtime-Passes a path p maximum l.runtime _ ho
      (over_layer-Passes a path p l.local _ hl
        (over_layer-Passes a path p l.remote _ hr (over_layer-Passes a path p l.env base he h)))
      e

-- Where the composition succeeds with arrays replaced, a value that is no object and is read from a
-- well formed local layer wins over the base, the environment and the remote layer, whatever these
-- hold, at a path on which the overrides are well formed and lack a key.
pub get_node-compose_local :
    (maximum : ℕ) (base : Node) (l : Layers) (layer : Node) (path : Bytes) {ts : List PathToken}
    {w root : Node}
    → parsed path ≡ ok ts
    → l.local ≡ some layer
    → IsWf layer
    → is_object w ≡ false
    → get_node layer path ≡ ok w
    → RuntimePasses maximum ts l.runtime
    → compose_layers false maximum base l ≡ ok root
    → get_node root path ≡ ok w
unfolding compose_layers over_layer
get_node-compose_local maximum base l layer path {w = w} p given hw leaf h ho e =
    over_runtime-Passes false path p maximum l.runtime _ ho
      (rw given (merge_into-leaf layer _ path w hw leaf h)) e

-- An override of a value that is no object wins over every layer: where the composition succeeds,
-- with arrays replaced and a log of well formed values that ends in a `Set` of a well formed value,
-- `GetNode` finds the value that was set.
pub get_node-compose_override :
    (maximum : ℕ) (base : Node) (l : Layers) (o : RuntimeOverrides) (path : Bytes) (v : Node)
    {root : Node}
    → (set_override o path v).1 ≡ done
    → l.runtime ≡ some (set_override o path v).0
    → All (λ op. IsWf op.value) o.ops
    → IsWf v
    → is_object v ≡ false
    → compose_layers false maximum base l ≡ ok root
    → get_node root path ≡ ok v
unfolding compose_layers over_runtime
get_node-compose_override maximum base l o path v {root} d given hos hv leaf e =
    let log = (set_override o path v).0 in
    elim (Result-cases (materialize maximum log)) [
      | inl (fails, m) ↦ absurd (cc (rw (given, has_no_ops-set_override o path v d, m) at e))
      | inr (layer, m) ↦
          let below =
            over_layer false l.local (over_layer false l.remote (over_layer false l.env base)) in
          let same : merge_into false layer below ≡ root =
            cc (rw (given, has_no_ops-set_override o path v d, m) at e) in
          let wf = materialize-IsWf maximum log (set_override-values o path v hos hv) m in
          rw (← same) (
            merge_into-leaf layer below path v wf leaf (get_node-set_override maximum o path v d m))
    ]
