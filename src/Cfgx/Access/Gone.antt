-- ===== src/Cfgx/Access/Gone.antt =====
-- When `RemoveNode` succeeds, and what a read gives afterwards.
use toolx_cpp.Prelude.{◌≡◌, ◌≢◌, refl, ◌∙◌, List, [], ◌∷◌, Bytes, none, inl, inr, Option-cases}
use toolx_cpp.Cfgx.Error.{Result, ok, err, done, ◌>>=◌, key_not_found}
use toolx_cpp.Cfgx.Path.{PathToken, key, index}
use toolx_cpp.Cfgx.Node.{Node, object, array, Entries, find, put, at?, put_at, erase_entry, IsWf}
use toolx_cpp.Cfgx.Node.Fields.{find-put_self, find-erase_self, find-AreWf}
use toolx_cpp.Cfgx.Node.Items.{at?-put_self, at?-IsWf}
use toolx_cpp.Cfgx.Access.{
  parsed, get_tokens, get_node, child_of, remove_tokens, remove_parsed, remove_node, try_object,
  try_array,
}
use toolx_cpp.Cfgx.Access.Get.{get_entry, get_element, child_of_key, child_of_index, get-cons}

-- Where a read succeeds a removal does.
pub removable :
    (t : PathToken) (ts : List PathToken) (n w : Node)
    → get_tokens (t ∷ ts) n ≡ ok w
    → (remove_tokens (t ∷ ts) n).1 ≡ done
unfolding remove_tokens try_object try_array
removable (key k) [] n w h =
    let (c, e, g) = get-cons (key k) [] n h in
    let (fs, is, there) = child_of_key k n e in rw (is, there, remove_tokens)
removable (key k) (u ∷ ts) n w h =
    let (c, e, g) = get-cons (key k) (u ∷ ts) n h in
    let (fs, is, there) = child_of_key k n e in rw (is, there, remove_tokens) (removable u ts c w g)
removable (index i) [] n w h =
    let (c, e, g) = get-cons (index i) [] n h in
    let (xs, is, there) = child_of_index i n e in rw (is, there, remove_tokens)
removable (index i) (u ∷ ts) n w h =
    let (c, e, g) = get-cons (index i) (u ∷ ts) n h in
    let (xs, is, there) = child_of_index i n e in
    rw (is, there, remove_tokens) (removable u ts c w g)

-- Where a removal succeeds a read does.
readable :
    (ts : List PathToken) (n : Node)
    → (remove_tokens ts n).1 ≡ done
    → (w : Node) × (get_tokens ts n ≡ ok w)
unfolding remove_tokens try_object try_array
readable [] n h = absurd (cc)
readable (key k ∷ []) (object fs) h = elim (Option-cases (find k fs)) [
  | inl gone ↦ absurd (cc (rw (gone, remove_tokens) at h))
  | inr (c, there) ↦ (c, rw (get_entry [] k fs there) (unfold get_tokens in refl))
]
readable (key k ∷ []) _ h = absurd (cc)
readable (key k ∷ u ∷ ts) (object fs) h = elim (Option-cases (find k fs)) [
  | inl gone ↦ absurd (cc (rw (gone, remove_tokens) at h))
  | inr (c, there) ↦
      let (w, e) = readable (u ∷ ts) c (rw (there, remove_tokens) at h) in
      (w, get_entry (u ∷ ts) k fs there ∙ e)
]
readable (key k ∷ u ∷ ts) _ h = absurd (cc)
readable (index i ∷ []) (array xs) h = elim (Option-cases (at? i xs)) [
  | inl gone ↦ absurd (cc (rw (gone, remove_tokens) at h))
  | inr (c, there) ↦ (c, rw (get_element [] i xs there) (unfold get_tokens in refl))
]
readable (index i ∷ []) _ h = absurd (cc)
readable (index i ∷ u ∷ ts) (array xs) h = elim (Option-cases (at? i xs)) [
  | inl gone ↦ absurd (cc (rw (gone, remove_tokens) at h))
  | inr (c, there) ↦
      let (w, e) = readable (u ∷ ts) c (rw (there, remove_tokens) at h) in
      (w, get_element (u ∷ ts) i xs there ∙ e)
]
readable (index i ∷ u ∷ ts) _ h = absurd (cc)

pub remove_parsed_iff :
    (root : Node) (r : Result (List PathToken))
    → ((remove_parsed root r).1 ≡ done → (w : Node) × ((r >>= λ ts. get_tokens ts root) ≡ ok w))
      × ((w : Node)
          → (r ≢ ok [])
          → (r >>= λ ts. get_tokens ts root) ≡ ok w
          → (remove_parsed root r).1 ≡ done)
unfolding remove_parsed
remove_parsed_iff root (err e) = (λ h. absurd (cc), λ w ne h. cc)
remove_parsed_iff root (ok []) = (λ h. readable [] root h, λ w ne h. absurd (ne refl))
remove_parsed_iff root (ok (t ∷ ts)) =
    (λ h. readable (t ∷ ts) root h, λ w ne h. removable t ts root w h)

-- The path ends in a key. (At an index the elements behind it move up.)
abbrev pub EndsInKey : List PathToken → Type 0
EndsInKey [] = ⊥
EndsInKey (key k ∷ []) = Unit {0}
EndsInKey (index i ∷ []) = ⊥
EndsInKey (t ∷ u ∷ ts) = EndsInKey (u ∷ ts)

-- A read that finds no value.
abbrev pub IsMissing : Result Node → Type 0
IsMissing r = (k : Bytes) × (r ≡ err (key_not_found k))

IsMissing-entry :
    (k : Bytes) (fs : Entries) → find k fs ≡ none → IsMissing (get_tokens (key k ∷ []) (object fs))
unfolding get_tokens child_of try_object
IsMissing-entry k fs h = (k, rw h)

remove_tokens_gone :
    (ts : List PathToken) (n : Node)
    → EndsInKey ts
    → IsWf n
    → (remove_tokens ts n).1 ≡ done
    → IsMissing (get_tokens ts (remove_tokens ts n).0)
unfolding remove_tokens try_object try_array IsWf
remove_tokens_gone [] n ends w h = absurd ends
remove_tokens_gone (key k ∷ []) (object fs) ends w h = elim (Option-cases (find k fs)) [
  | inl gone ↦ absurd (cc (rw (gone, remove_tokens) at h))
  | inr (c, there) ↦
      rw (there, remove_tokens) (IsMissing-entry k (erase_entry k fs) (find-erase_self k fs w))
]
remove_tokens_gone (key k ∷ []) _ ends w h = absurd (cc)
remove_tokens_gone (index i ∷ []) n ends w h = absurd ends
remove_tokens_gone (key k ∷ u ∷ ts) (object fs) ends w h = elim (Option-cases (find k fs)) [
  | inl gone ↦ absurd (cc (rw (gone, remove_tokens) at h))
  | inr (c, there) ↦
      let c' = (remove_tokens (u ∷ ts) c).0 in
      let below =
        remove_tokens_gone (u ∷ ts) c ends (find-AreWf k fs w there)
          (rw (there, remove_tokens) at h) in
      rw (there, remove_tokens, get_entry (u ∷ ts) k (put k c' fs) (find-put_self k c' fs)) below
]
remove_tokens_gone (key k ∷ u ∷ ts) _ ends w h = absurd (cc)
remove_tokens_gone (index i ∷ u ∷ ts) (array xs) ends w h = elim (Option-cases (at? i xs)) [
  | inl gone ↦ absurd (cc (rw (gone, remove_tokens) at h))
  | inr (c, there) ↦
      let c' = (remove_tokens (u ∷ ts) c).0 in
      let below =
        remove_tokens_gone (u ∷ ts) c ends (at?-IsWf i xs w there)
          (rw (there, remove_tokens) at h) in
      rw (there, remove_tokens, get_element (u ∷ ts) i (put_at i c' xs) (at?-put_self i c' xs))
        below
]
remove_tokens_gone (index i ∷ u ∷ ts) _ ends w h = absurd (cc)

-- After a `RemoveNode` that succeeds on a configuration with different keys, at a path that ends in
-- a key, `GetNode` at the path reports a missing key.
pub get_node-remove_node :
    (root : Node) (path : Bytes) (ts : List PathToken)
    → parsed path ≡ ok ts
    → EndsInKey ts
    → IsWf root
    → (remove_node root path).1 ≡ done
    → IsMissing (get_node (remove_node root path).0 path)
unfolding remove_node get_node remove_parsed
get_node-remove_node root path ts p ends w h =
    rw (p, remove_parsed) (remove_tokens_gone ts root ends w (rw (p, remove_parsed) at h))
