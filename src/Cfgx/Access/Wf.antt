-- ===== src/Cfgx/Access/Wf.antt =====
-- Changes keep the keys of every object different, and on such configurations `RemoveNode` succeeds
-- where `GetNode` does and leaves nothing behind.
use toolx_cpp.Prelude.{ℕ, List, [], ◌∷◌, Bytes, inl, inr, Option-cases, Bool-cases}
use toolx_cpp.Cfgx.Error.{Result, ok, err}
use toolx_cpp.Cfgx.Path.{PathToken, key, index}
use toolx_cpp.Cfgx.Node.{
  Node, null, object, array, Entries, end, Elements, nil, find, at?, IsWf, AreWf, AllWf,
}
use toolx_cpp.Cfgx.Node.Fields.{find-AreWf, put-AreWf, erase-AreWf}
use toolx_cpp.Cfgx.Node.Items.{at?-IsWf, put_at-AllWf, erase-AllWf}
use toolx_cpp.Cfgx.Access.{
  parsed, set_tokens, set_parsed, set_node, indices_supported, object_for_set, array_for_set,
  get_or_null, remove_tokens, remove_parsed, remove_node, try_object, try_array,
}

get_or_null-entry : (k : Bytes) (fs : Entries) → AreWf fs → IsWf (get_or_null (find k fs))
get_or_null-entry k fs w = elim (Option-cases (find k fs)) [
  | inl gone ↦ rw gone (unfold IsWf in tt)
  | inr (c, there) ↦ rw there (find-AreWf k fs w there)
]

get_or_null-element : (i : ℕ) (xs : Elements) → AllWf xs → IsWf (get_or_null (at? i xs))
get_or_null-element i xs w = elim (Option-cases (at? i xs)) [
  | inl gone ↦ rw gone (unfold IsWf in tt)
  | inr (c, there) ↦ rw there (at?-IsWf i xs w there)
]

-- A write of a well formed value keeps the configuration well formed.
pub set_tokens-IsWf :
    (ts : List PathToken) (v n : Node) → IsWf v → IsWf n → IsWf (set_tokens ts v n).0
unfolding set_tokens object_for_set array_for_set try_object try_array IsWf
set_tokens-IsWf [] v n hv hn = hn
set_tokens-IsWf (key k ∷ []) v null hv hn = put-AreWf k v end hv tt
set_tokens-IsWf (key k ∷ []) v (object fs) hv hn = put-AreWf k v fs hv hn
set_tokens-IsWf (key k ∷ []) v _ hv hn = hn
set_tokens-IsWf (key k ∷ u ∷ ts) v null hv hn =
    put-AreWf k _ end (set_tokens-IsWf (u ∷ ts) v _ hv (get_or_null-entry k end tt)) tt
set_tokens-IsWf (key k ∷ u ∷ ts) v (object fs) hv hn =
    put-AreWf k _ fs (set_tokens-IsWf (u ∷ ts) v _ hv (get_or_null-entry k fs hn)) hn
set_tokens-IsWf (key k ∷ u ∷ ts) v _ hv hn = hn
set_tokens-IsWf (index i ∷ []) v null hv hn = put_at-AllWf i v nil hv tt
set_tokens-IsWf (index i ∷ []) v (array xs) hv hn = put_at-AllWf i v xs hv hn
set_tokens-IsWf (index i ∷ []) v _ hv hn = hn
set_tokens-IsWf (index i ∷ u ∷ ts) v null hv hn =
    put_at-AllWf i _ nil (set_tokens-IsWf (u ∷ ts) v _ hv (get_or_null-element i nil tt)) tt
set_tokens-IsWf (index i ∷ u ∷ ts) v (array xs) hv hn =
    put_at-AllWf i _ xs (set_tokens-IsWf (u ∷ ts) v _ hv (get_or_null-element i xs hn)) hn
set_tokens-IsWf (index i ∷ u ∷ ts) v _ hv hn = hn

pub remove_tokens-IsWf : (ts : List PathToken) (n : Node) → IsWf n → IsWf (remove_tokens ts n).0
unfolding remove_tokens try_object try_array IsWf
remove_tokens-IsWf [] n h = h
remove_tokens-IsWf (key k ∷ []) (object fs) h = elim (Option-cases (find k fs)) [
  | inl gone ↦ rw (gone, remove_tokens) h
  | inr (c, there) ↦ rw (there, remove_tokens) (erase-AreWf k fs h)
]
remove_tokens-IsWf (key k ∷ []) _ h = h
remove_tokens-IsWf (key k ∷ u ∷ ts) (object fs) h = elim (Option-cases (find k fs)) [
  | inl gone ↦ rw (gone, remove_tokens) h
  | inr (c, there) ↦
      rw (there, remove_tokens)
        (put-AreWf k _ fs (remove_tokens-IsWf (u ∷ ts) c (find-AreWf k fs h there)) h)
]
remove_tokens-IsWf (key k ∷ u ∷ ts) _ h = h
remove_tokens-IsWf (index i ∷ []) (array xs) h = elim (Option-cases (at? i xs)) [
  | inl gone ↦ rw (gone, remove_tokens) h
  | inr (c, there) ↦ rw (there, remove_tokens) (erase-AllWf i xs h)
]
remove_tokens-IsWf (index i ∷ []) _ h = h
remove_tokens-IsWf (index i ∷ u ∷ ts) (array xs) h = elim (Option-cases (at? i xs)) [
  | inl gone ↦ rw (gone, remove_tokens) h
  | inr (c, there) ↦
      rw (there, remove_tokens)
        (put_at-AllWf i _ xs (remove_tokens-IsWf (u ∷ ts) c (at?-IsWf i xs h there)) h)
]
remove_tokens-IsWf (index i ∷ u ∷ ts) _ h = h

-- `SetNode` of a well formed value and `RemoveNode` keep the keys of every object different.
pub changes-IsWf :
    (maximum : ℕ) (root : Node) (path : Bytes) (v : Node)
    → IsWf root
    → IsWf v
    → IsWf (set_node maximum root path v).0 × IsWf (remove_node root path).0
unfolding set_node remove_node
changes-IsWf maximum root path v h hv = (set_case (parsed path), remove_case (parsed path))
  where
    set_case : (r : Result (List PathToken)) → IsWf (set_parsed maximum root v r).0
    set_case (err e) = unfold set_parsed in h
    set_case (ok ts) = elim (Bool-cases (indices_supported maximum ts)) [
      | inl fits ↦ unfold set_parsed in rw fits (set_tokens-IsWf ts v root hv h)
      | inr not_fits ↦ unfold set_parsed in rw not_fits h
    ]

    remove_case : (r : Result (List PathToken)) → IsWf (remove_parsed root r).0
    remove_case (err e) = unfold remove_parsed in h
    remove_case (ok ts) = unfold remove_parsed in remove_tokens-IsWf ts root h
