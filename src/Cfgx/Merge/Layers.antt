-- ===== src/Cfgx/Merge/Layers.antt =====
-- What a read gives after a merge: the overlay's value where it has one, and the base's elsewhere.
use toolx_cpp.Prelude.{
  ◌≡◌, refl, ◌∙◌, Bool, false, List, [], ◌∷◌, Bytes, none, some, Option-cases, ◌⊎◌, inl, inr,
}
use toolx_cpp.Cfgx.Error.{Result, ok, err, ◌>>=◌}
use toolx_cpp.Cfgx.Path.{PathToken, key, index}
use toolx_cpp.Cfgx.Node.{
  Node, null, boolean, integer, double, string, object, array, Entries, find, IsWf, AreWf,
  is_object,
}
use toolx_cpp.Cfgx.Node.Fields.{find-AreWf}
use toolx_cpp.Cfgx.Access.{try_object, try_array, get_tokens, get_node, parsed}
use toolx_cpp.Cfgx.Access.Get.{get-cons, get_entry, child_of_key, child_of_index}
use toolx_cpp.Cfgx.Merge.{merge_into, merge_entries, merge}
use toolx_cpp.Cfgx.Merge.Lookup.{over, over-layered, find-merge_entries}

merge_leaf : (v n : Node) → is_object v ≡ false → merge_into false v n ≡ v
unfolding merge_into is_object try_array
merge_leaf (object fs) n h = cc
merge_leaf (array xs) (array ys) h = refl
merge_leaf (array xs) _ h = refl
merge_leaf null n h = refl
merge_leaf (boolean b) n h = refl
merge_leaf (integer b) n h = refl
merge_leaf (double b) n h = refl
merge_leaf (string b) n h = refl

-- The read of a key in a merge into any base.
module _ (a : Bool) (k : Bytes) (ts : List PathToken) (src : Entries) (w : Node)
    (wf : AreWf src) where
  merged_key :
      (n c : Node)
      → find k src ≡ some c
      → get_tokens ts c ≡ ok w
      → ((m : Node) → get_tokens ts (merge_into a c m) ≡ ok w)
      → get_tokens (key k ∷ ts) (merge_into a (object src) n) ≡ ok w
  unfolding merge_into try_object
  merged_key (object dst) c there g below =
      let m = merge_entries a src dst in
      let found : find k m ≡ some (over a c (find k dst)) =
        rw (find-merge_entries a k src dst wf, there) (over-layered a c (find k dst)) in
      get_entry ts k m found
      ∙ elim (Option-cases (find k dst)) [ inl gone ↦ rw gone g | inr (o, at) ↦ rw at (below o) ]
  merged_key _ c there g below = get_entry ts k src there ∙ g

overlay_tokens :
    (ts : List PathToken) (v n w : Node)
    → IsWf v
    → is_object w ≡ false
    → get_tokens ts v ≡ ok w
    → get_tokens ts (merge_into false v n) ≡ ok w
overlay_tokens [] v n w wf leaf h =
    let is : v ≡ w = unfold get_tokens in cc in
    rw (is, merge_leaf w n leaf) (unfold get_tokens in refl)
overlay_tokens (key k ∷ ts) v n w wf leaf h =
    let (c, e, g) = get-cons (key k) ts v h in
    let (src, is, there) = child_of_key k v e in
    let wf' : AreWf src = unfold IsWf in rw is at wf in
    rw is (
      merged_key false k ts src w wf' n c there g
        (λ m. overlay_tokens ts c m w (find-AreWf k src wf' there) leaf g))
overlay_tokens (index i ∷ ts) v n w wf leaf h =
    let (c, e, g) = get-cons (index i) ts v h in
    let (xs, is, there) = child_of_index i v e in
    rw (is, merge_leaf (array xs) n (unfold is_object in refl)) (rw is at h)

-- The overlay says nothing of the path: it is an object down to one that lacks the next key.
abbrev pub Untouched : List PathToken → Node → Type 0
Untouched [] v = ⊥
Untouched (key k ∷ ts) v =
    (src : Entries) × (v ≡ object src)
    × ((find k src ≡ none) ⊎ ((c : Node) × (find k src ≡ some c) × Untouched ts c))
Untouched (index i ∷ ts) v = ⊥

kept_tokens :
    (a : Bool) (ts : List PathToken) (v n w : Node)
    → IsWf v
    → Untouched ts v
    → get_tokens ts n ≡ ok w
    → get_tokens ts (merge_into a v n) ≡ ok w
unfolding IsWf merge_into try_object
kept_tokens a [] v n w wf u h = absurd u
kept_tokens a (index i ∷ ts) v n w wf u h = absurd u
kept_tokens a (key k ∷ ts) v n w wf (src, is, lacks) h =
    let (c, e, g) = get-cons (key k) ts n h in
    let (dst, is', there) = child_of_key k n e in
    let wf' : AreWf src = rw is at wf in
    let m = merge_entries a src dst in
    rw (is, is')
      (elim lacks [
        | inl gone ↦
            let found : find k m ≡ some c = rw (find-merge_entries a k src dst wf', gone) there in
            get_entry ts k m found ∙ g
        | inr (o, has, deeper) ↦
            let found : find k m ≡ some (merge_into a o c) =
              rw (find-merge_entries a k src dst wf', has, there) in
            get_entry ts k m found ∙ kept_tokens a ts o c w (find-AreWf k src wf' has) deeper g
      ])

-- Where `GetNode` finds in a well formed overlay a value that is no object, it finds that value after
-- a merge that replaces arrays, whatever the base holds.
pub get_node-merge_overlay :
    (base overlay : Node) (path : Bytes) (w : Node)
    → IsWf overlay
    → is_object w ≡ false
    → get_node overlay path ≡ ok w
    → get_node (merge base overlay false).0 path ≡ ok w
unfolding merge get_node
get_node-merge_overlay base overlay path w wf leaf h = overlay_case (parsed path) h
  where
    overlay_case :
        (r : Result (List PathToken))
        → (r >>= λ ts. get_tokens ts overlay) ≡ ok w
        → (r >>= λ ts. get_tokens ts (merge_into false overlay base)) ≡ ok w
    overlay_case (err e) g = cc
    overlay_case (ok ts) g = overlay_tokens ts overlay base w wf leaf g

-- Where a well formed overlay lacks a key on the path, below objects only, the merge keeps what
-- `GetNode` finds in the base, with arrays replaced or appended.
pub get_node-merge_base :
    (base overlay : Node) (append_arrays : Bool) (path : Bytes) (ts : List PathToken) (w : Node)
    → IsWf overlay
    → parsed path ≡ ok ts
    → Untouched ts overlay
    → get_node base path ≡ ok w
    → get_node (merge base overlay append_arrays).0 path ≡ ok w
unfolding merge get_node
get_node-merge_base base overlay append_arrays path ts w wf p u h =
    rw p (kept_tokens append_arrays ts overlay base w wf u (rw p at h))
