-- ===== src/Cfgx/Access/Remove.antt =====
-- `RemoveNode` takes the value away, or changes nothing.
use toolx_cpp.Prelude.{ℕ, ◌≡◌, refl, ap, List, [], ◌∷◌, Bytes, some, inl, inr, Option-cases}
use toolx_cpp.Cfgx.Error.{Error, Result, ok, err}
use toolx_cpp.Cfgx.Path.{PathToken, key, index}
use toolx_cpp.Cfgx.Node.{Node, object, array, Entries, Elements, find, at?}
use toolx_cpp.Cfgx.Node.Fields.{put_same}
use toolx_cpp.Cfgx.Node.Items.{put_at_same}
use toolx_cpp.Cfgx.Access.{
  parsed, Change, in_entry, in_element, remove_tokens, remove_parsed, remove_node, try_object,
  try_array,
}
use toolx_cpp.Cfgx.Access.Set.{IsAtomic}

remove_entry-IsAtomic :
    (k : Bytes) (fs : Entries) {n : Node} (c : Change)
    → find k fs ≡ some n
    → IsAtomic n c
    → IsAtomic (object fs) (in_entry k fs c)
remove_entry-IsAtomic k fs c there atomic e h = rw (atomic e h) (ap object (put_same k _ fs there))

remove_element-IsAtomic :
    (i : ℕ) (xs : Elements) {n : Node} (c : Change)
    → at? i xs ≡ some n
    → IsAtomic n c
    → IsAtomic (array xs) (in_element i xs c)
remove_element-IsAtomic i xs c there atomic e h =
    rw (atomic e h) (ap array (put_at_same i _ xs there))

remove_tokens-IsAtomic : (ts : List PathToken) (n : Node) → IsAtomic n (remove_tokens ts n)
unfolding remove_tokens try_object try_array
remove_tokens-IsAtomic [] n e h = refl
remove_tokens-IsAtomic (key k ∷ []) (object fs) e h = elim (Option-cases (find k fs)) [
  | inl gone ↦ rw (gone, remove_tokens)
  | inr (c, there) ↦ cc (rw (there, remove_tokens) at h)
]
remove_tokens-IsAtomic (key k ∷ []) _ e h = refl
remove_tokens-IsAtomic (key k ∷ u ∷ ts) (object fs) e h = elim (Option-cases (find k fs)) [
  | inl gone ↦ rw (gone, remove_tokens)
  | inr (c, there) ↦
      rw (there, remove_tokens)
        (remove_entry-IsAtomic k fs (remove_tokens (u ∷ ts) c) there
          (remove_tokens-IsAtomic (u ∷ ts) c) e (rw (there, remove_tokens) at h))
]
remove_tokens-IsAtomic (key k ∷ u ∷ ts) _ e h = refl
remove_tokens-IsAtomic (index i ∷ []) (array xs) e h = elim (Option-cases (at? i xs)) [
  | inl gone ↦ rw (gone, remove_tokens)
  | inr (c, there) ↦ cc (rw (there, remove_tokens) at h)
]
remove_tokens-IsAtomic (index i ∷ []) _ e h = refl
remove_tokens-IsAtomic (index i ∷ u ∷ ts) (array xs) e h = elim (Option-cases (at? i xs)) [
  | inl gone ↦ rw (gone, remove_tokens)
  | inr (c, there) ↦
      rw (there, remove_tokens)
        (remove_element-IsAtomic i xs (remove_tokens (u ∷ ts) c) there
          (remove_tokens-IsAtomic (u ∷ ts) c) e (rw (there, remove_tokens) at h))
]
remove_tokens-IsAtomic (index i ∷ u ∷ ts) _ e h = refl

remove_parsed-IsAtomic :
    (root : Node) (r : Result (List PathToken)) → IsAtomic root (remove_parsed root r)
unfolding remove_parsed
remove_parsed-IsAtomic root (err e) x h = refl
remove_parsed-IsAtomic root (ok ts) x h = remove_tokens-IsAtomic ts root x h

-- A failed `RemoveNode` leaves the configuration as it was.
pub remove_node_atomic :
    (root : Node) (path : Bytes) {e : Error}
    → (remove_node root path).1 ≡ err e
    → (remove_node root path).0 ≡ root
unfolding remove_node
remove_node_atomic root path {e} h = remove_parsed-IsAtomic root (parsed path) e h
