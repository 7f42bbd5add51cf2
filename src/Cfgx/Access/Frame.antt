-- ===== src/Cfgx/Access/Frame.antt =====
-- Reading after a write: the value at the path, and every value at a path that parts from it.
use toolx_cpp.Prelude.{
  ℕ, ◌≡◌, ◌≢◌, refl, ap, ◌∙◌, List, [], ◌∷◌, Bytes, Option, some, ◌⊎◌, inl, inr, Bool-cases,
  Option-cases,
}
use toolx_cpp.Cfgx.Error.{Result, ok, err, done, ◌>>=◌}
use toolx_cpp.Cfgx.Path.{PathToken, key, index}
use toolx_cpp.Cfgx.Node.{Node, object, array, find, put, at?, put_at}
use toolx_cpp.Cfgx.Node.Fields.{find-put_self, find-put_ne}
use toolx_cpp.Cfgx.Node.Items.{at?-put_self, at?-put_ne}
use toolx_cpp.Cfgx.Access.{
  parsed, get_tokens, get_node, get_or_null, set_tokens, set_parsed, set_node, object_for_set,
  array_for_set, indices_supported,
}
use toolx_cpp.Cfgx.Access.Get.{
  child_of_key, child_of_index, get-cons, get_entry, get_element, child_change, set_key_some,
  set_key_none, set_index_some, set_index_none, object_for_set-object, object_for_set-array,
  array_for_set-array, array_for_set-object,
}

get_after_child :
    (t : PathToken) (ts : List PathToken) (v n : Node)
    → ((o : Option Node)
        → (child_change ts v o).1 ≡ done
        → get_tokens ts (child_change ts v o).0 ≡ ok v)
    → (set_tokens (t ∷ ts) v n).1 ≡ done
    → get_tokens (t ∷ ts) (set_tokens (t ∷ ts) v n).0 ≡ ok v
get_after_child (key k) ts v n child h = elim (Option-cases (object_for_set n)) [
  | inl o ↦ cc (rw (set_key_none k ts v n o) at h)
  | inr (fs, o) ↦
      let e = set_key_some k ts v n o in
      let c = child_change ts v (find k fs) in
      rw (e, get_entry ts k (put k c.0 fs) (find-put_self k c.0 fs)) (child (find k fs) (rw e at h))
]
get_after_child (index i) ts v n child h = elim (Option-cases (array_for_set n)) [
  | inl o ↦ cc (rw (set_index_none i ts v n o) at h)
  | inr (xs, o) ↦
      let e = set_index_some i ts v n o in
      let c = child_change ts v (at? i xs) in
      rw (e, get_element ts i (put_at i c.0 xs) (at?-put_self i c.0 xs))
        (child (at? i xs) (rw e at h))
]

get-set_tokens :
    (t : PathToken) (ts : List PathToken) (v n : Node)
    → (set_tokens (t ∷ ts) v n).1 ≡ done
    → get_tokens (t ∷ ts) (set_tokens (t ∷ ts) v n).0 ≡ ok v
get-set_tokens t [] v n = get_after_child t [] v n (λ o h. unfold get_tokens in refl)
get-set_tokens t (u ∷ ts) v n =
    get_after_child t (u ∷ ts) v n (λ o h. get-set_tokens u ts v (get_or_null o) h)

-- Two paths part: neither is a prefix of the other.
abbrev pub Diverges : List PathToken → List PathToken → Type 0
Diverges [] us = ⊥
Diverges (t ∷ ts) [] = ⊥
Diverges (t ∷ ts) (u ∷ us) = (t ≢ u) ⊎ ((t ≡ u) × Diverges ts us)

-- What a write keeps of a child, at a path from there on.
abbrev Keeps : List PathToken → Node → List PathToken → Type 0
Keeps ts v us =
    (c w : Node) → get_tokens us c ≡ ok w → get_tokens us (child_change ts v (some c)).0 ≡ ok w

keep_below :
    (t : PathToken) (ts us : List PathToken) (v n w : Node)
    → Keeps ts v us
    → get_tokens (t ∷ us) n ≡ ok w
    → get_tokens (t ∷ us) (set_tokens (t ∷ ts) v n).0 ≡ ok w
keep_below (key k) ts us v n w keeps h =
    let (c, e, g) = get-cons (key k) us n h in
    let (fs, is, there) = child_of_key k n e in
    let c' = (child_change ts v (some c)).0 in
    let step = set_key_some k ts v (object fs) (object_for_set-object fs) in
    rw (is, step, there, get_entry us k (put k c' fs) (find-put_self k c' fs)) (keeps c w g)
keep_below (index i) ts us v n w keeps h =
    let (c, e, g) = get-cons (index i) us n h in
    let (xs, is, there) = child_of_index i n e in
    let c' = (child_change ts v (some c)).0 in
    let step = set_index_some i ts v (array xs) (array_for_set-array xs) in
    rw (is, step, there, get_element us i (put_at i c' xs) (at?-put_self i c' xs)) (keeps c w g)

keep_beside :
    (t u : PathToken) (ts us : List PathToken) (v n w : Node)
    → t ≢ u
    → get_tokens (u ∷ us) n ≡ ok w
    → get_tokens (u ∷ us) (set_tokens (t ∷ ts) v n).0 ≡ ok w
keep_beside (key k) (key j) ts us v n w ne h =
    let (c, e, g) = get-cons (key j) us n h in
    let (fs, is, there) = child_of_key j n e in
    let c' = (child_change ts v (find k fs)).0 in
    let step = set_key_some k ts v (object fs) (object_for_set-object fs) in
    let kept = find-put_ne j k c' fs (λ q. ne (ap key q)) ∙ there in
    rw (is, step, get_entry us j (put k c' fs) kept) g
keep_beside (key k) (index i) ts us v n w ne h =
    let (c, e, g) = get-cons (index i) us n h in
    let (xs, is, there) = child_of_index i n e in
    rw (is, set_key_none k ts v (array xs) (object_for_set-array xs)) (rw is at h)
keep_beside (index i) (key k) ts us v n w ne h =
    let (c, e, g) = get-cons (key k) us n h in
    let (fs, is, there) = child_of_key k n e in
    rw (is, set_index_none i ts v (object fs) (array_for_set-object fs)) (rw is at h)
keep_beside (index i) (index j) ts us v n w ne h =
    let (c, e, g) = get-cons (index j) us n h in
    let (xs, is, there) = child_of_index j n e in
    let c' = (child_change ts v (at? i xs)).0 in
    let step = set_index_some i ts v (array xs) (array_for_set-array xs) in
    let kept = at?-put_ne i j c' xs (λ q. ne (ap index q)) there in
    rw (is, step, get_element us j (put_at i c' xs) kept) g

set_tokens_frame :
    (ts us : List PathToken) (v n w : Node)
    → Diverges ts us
    → get_tokens us n ≡ ok w
    → get_tokens us (set_tokens ts v n).0 ≡ ok w
set_tokens_frame [] us v n w d h = absurd d
set_tokens_frame (t ∷ ts) [] v n w d h = absurd d
set_tokens_frame (t ∷ ts) (u ∷ us) v n w (inl ne) h = keep_beside t u ts us v n w ne h
set_tokens_frame (t ∷ []) (u ∷ us) v n w (inr (e, d)) h = absurd d
set_tokens_frame (t ∷ a ∷ ts) (u ∷ us) v n w (inr (e, d)) h =
    let below =
      keep_below t (a ∷ ts) us v n w (λ c x g. set_tokens_frame (a ∷ ts) us v c x d g)
        (rw (← e) at h) in
    rw (← e) below

get-set_parsed :
    (maximum : ℕ) (root v : Node) (r : Result (List PathToken))
    → (set_parsed maximum root v r).1 ≡ done
    → (r >>= λ ts. get_tokens ts (set_parsed maximum root v r).0) ≡ ok v
unfolding set_parsed
get-set_parsed maximum root v (err e) h = cc
get-set_parsed maximum root v (ok []) h = unfold indices_supported set_tokens in cc
get-set_parsed maximum root v (ok (t ∷ ts)) h =
    elim (Bool-cases (indices_supported maximum (t ∷ ts))) [
      | inl fits ↦ rw fits (get-set_tokens t ts v root (rw fits at h))
      | inr not_fits ↦ cc (rw not_fits at h)
    ]

-- After a `SetNode` that succeeds, `GetNode` at the path gives the value that was written.
pub get_node-set_node :
    (maximum : ℕ) (root : Node) (path : Bytes) (v : Node)
    → (set_node maximum root path v).1 ≡ done
    → get_node (set_node maximum root path v).0 path ≡ ok v
unfolding set_node get_node
get_node-set_node maximum root path v h = get-set_parsed maximum root v (parsed path) h

-- `SetNode` keeps what `GetNode` gives at every path that parts from the written one, whether the
-- write succeeds or not.
pub get_node-set_node_ne :
    (maximum : ℕ) (root : Node) (path other : Bytes) (v w : Node) {ts us : List PathToken}
    → parsed path ≡ ok ts
    → parsed other ≡ ok us
    → Diverges ts us
    → get_node root other ≡ ok w
    → get_node (set_node maximum root path v).0 other ≡ ok w
unfolding set_node get_node set_parsed
get_node-set_node_ne maximum root path other v w {ts} {us} p q d h =
    elim (Bool-cases (indices_supported maximum ts)) [
      | inl fits ↦ rw (p, q, fits) (set_tokens_frame ts us v root w d (rw q at h))
      | inr not_fits ↦ rw (p, q, not_fits) (rw q at h)
    ]
