-- ===== src/Cfgx/Access/Set.antt =====
-- `SetNode` writes the value at the path, or changes nothing.
use toolx_cpp.Prelude.{ℕ, ◌≡◌, refl, ap, List, [], ◌∷◌, Bytes, Bool-cases, Option-cases, inl, inr}
use toolx_cpp.Cfgx.Error.{Error, Result, ok, err, done}
use toolx_cpp.Cfgx.Path.{PathToken, key, index}
use toolx_cpp.Cfgx.Node.{Node, null, object, array, Entries, Elements, find, at?}
use toolx_cpp.Cfgx.Node.Fields.{find-end, put_same}
use toolx_cpp.Cfgx.Node.Items.{at?-nil, put_at_same}
use toolx_cpp.Cfgx.Access.{
  parsed, try_object, try_array, Change, get_or_null, object_for_set, array_for_set, in_entry,
  in_element, set_tokens, indices_supported, set_parsed, set_node,
}

-- On null, which a missing entry and a new element are, nothing can fail.
set_tokens-null :
    (t : PathToken) (ts : List PathToken) (v : Node) → (set_tokens (t ∷ ts) v null).1 ≡ done
unfolding set_tokens object_for_set array_for_set
set_tokens-null (key k) [] v = refl
set_tokens-null (key k) (u ∷ ts) v = rw (find-end k) (set_tokens-null u ts v)
set_tokens-null (index i) [] v = refl
set_tokens-null (index i) (u ∷ ts) v = rw (at?-nil i) (set_tokens-null u ts v)

-- A change whose failure leaves the node alone.
abbrev pub IsAtomic : Node → Change → Type 0
IsAtomic n c = (e : Error) → c.1 ≡ err e → c.0 ≡ n

entry-IsAtomic :
    (k : Bytes) (fs : Entries) (f : Node → Change)
    → (f null).1 ≡ done
    → ((n : Node) → IsAtomic n (f n))
    → IsAtomic (object fs) (in_entry k fs (f (get_or_null (find k fs))))
entry-IsAtomic k fs f on_null on_child e h = elim (Option-cases (find k fs)) [
  | inl none_there ↦ absurd (cc (on_null, rw none_there at h))
  | inr (n, there) ↦ rw (there, on_child n e (rw there at h)) (ap object (put_same k n fs there))
]

element-IsAtomic :
    (i : ℕ) (xs : Elements) (f : Node → Change)
    → (f null).1 ≡ done
    → ((n : Node) → IsAtomic n (f n))
    → IsAtomic (array xs) (in_element i xs (f (get_or_null (at? i xs))))
element-IsAtomic i xs f on_null on_child e h = elim (Option-cases (at? i xs)) [
  | inl none_there ↦ absurd (cc (on_null, rw none_there at h))
  | inr (n, there) ↦ rw (there, on_child n e (rw there at h)) (ap array (put_at_same i n xs there))
]

set_tokens-IsAtomic : (ts : List PathToken) (v n : Node) → IsAtomic n (set_tokens ts v n)
unfolding set_tokens object_for_set array_for_set try_object try_array
set_tokens-IsAtomic [] v n e h = refl
set_tokens-IsAtomic (key k ∷ []) v null e h = cc
set_tokens-IsAtomic (key k ∷ []) v (object fs) e h = cc
set_tokens-IsAtomic (key k ∷ []) v _ e h = refl
set_tokens-IsAtomic (key k ∷ u ∷ ts) v null e h =
    absurd (cc (set_tokens-null u ts v, rw (find-end k) at h))
set_tokens-IsAtomic (key k ∷ u ∷ ts) v (object fs) e h =
    entry-IsAtomic k fs (set_tokens (u ∷ ts) v) (set_tokens-null u ts v)
      (λ n. set_tokens-IsAtomic (u ∷ ts) v n) e h
set_tokens-IsAtomic (key k ∷ u ∷ ts) v _ e h = refl
set_tokens-IsAtomic (index i ∷ []) v null e h = cc
set_tokens-IsAtomic (index i ∷ []) v (array xs) e h = cc
set_tokens-IsAtomic (index i ∷ []) v _ e h = refl
set_tokens-IsAtomic (index i ∷ u ∷ ts) v null e h =
    absurd (cc (set_tokens-null u ts v, rw (at?-nil i) at h))
set_tokens-IsAtomic (index i ∷ u ∷ ts) v (array xs) e h =
    element-IsAtomic i xs (set_tokens (u ∷ ts) v) (set_tokens-null u ts v)
      (λ n. set_tokens-IsAtomic (u ∷ ts) v n) e h
set_tokens-IsAtomic (index i ∷ u ∷ ts) v _ e h = refl

set_parsed-IsAtomic :
    (maximum : ℕ) (root v : Node) (r : Result (List PathToken))
    → IsAtomic root (set_parsed maximum root v r)
unfolding set_parsed
set_parsed-IsAtomic maximum root v (err e) x h = refl
set_parsed-IsAtomic maximum root v (ok ts) x h = elim (Bool-cases (indices_supported maximum ts)) [
  | inl fits ↦ rw fits (set_tokens-IsAtomic ts v root x (rw fits at h))
  | inr not_fits ↦ rw not_fits refl
]

-- A failed `SetNode` leaves the configuration as it was, although it writes in place as it goes.
pub set_node_atomic :
    (maximum : ℕ) (root : Node) (path : Bytes) (v : Node) {e : Error}
    → (set_node maximum root path v).1 ≡ err e
    → (set_node maximum root path v).0 ≡ root
unfolding set_node
set_node_atomic maximum root path v {e} h = set_parsed-IsAtomic maximum root v (parsed path) e h
