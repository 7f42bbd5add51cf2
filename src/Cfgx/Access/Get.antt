-- ===== src/Cfgx/Access/Get.antt =====
-- One step of a read, and of a change, at a node of known shape.
use toolx_cpp.Prelude.{ℕ, ◌≡◌, refl, List, [], ◌∷◌, Bytes, Option, none, some}
use toolx_cpp.Cfgx.Error.{Error, Result, ok, err, done, ◌>>=◌, set_no_object, set_no_array}
use toolx_cpp.Cfgx.Path.{PathToken, key, index}
use toolx_cpp.Cfgx.Node.{
  Node, null, object, array, boolean, integer, double, string, Entries, Elements, find, at?,
}
use toolx_cpp.Cfgx.Access.{
  try_object, try_array, require, child_of, get_tokens, Change, get_or_null, object_for_set,
  array_for_set, in_entry, in_element, set_tokens,
}

require-ok {ℓ} : {A : Type ℓ} (e : Error) (o : Option A) {a : A} → require e o ≡ ok a → o ≡ some a
require-ok e none h = cc
require-ok e (some b) h = cc

-- A read that succeeds has gone through an object at a key and through an array at an index.
pub child_of_key :
    (k : Bytes) (n : Node) {c : Node}
    → child_of (key k) n ≡ ok c
    → (fs : Entries) × (n ≡ object fs) × (find k fs ≡ some c)
unfolding child_of try_object
child_of_key k (object fs) h = (fs, refl, require-ok _ _ h)
child_of_key k null h = cc
child_of_key k (boolean b) h = cc
child_of_key k (integer b) h = cc
child_of_key k (double b) h = cc
child_of_key k (string b) h = cc
child_of_key k (array b) h = cc

pub child_of_index :
    (i : ℕ) (n : Node) {c : Node}
    → child_of (index i) n ≡ ok c
    → (xs : Elements) × (n ≡ array xs) × (at? i xs ≡ some c)
unfolding child_of try_array
child_of_index i (array xs) h = (xs, refl, require-ok _ _ h)
child_of_index i null h = cc
child_of_index i (boolean b) h = cc
child_of_index i (integer b) h = cc
child_of_index i (double b) h = cc
child_of_index i (string b) h = cc
child_of_index i (object b) h = cc

pub get-cons :
    (t : PathToken) (ts : List PathToken) (n : Node) {w : Node}
    → get_tokens (t ∷ ts) n ≡ ok w
    → (c : Node) × (child_of t n ≡ ok c) × (get_tokens ts c ≡ ok w)
unfolding get_tokens
get-cons t ts n {w} h = go (child_of t n) refl h
  where
    go :
        (r : Result Node)
        → child_of t n ≡ r
        → (r >>= get_tokens ts) ≡ ok w
        → (c : Node) × (child_of t n ≡ ok c) × (get_tokens ts c ≡ ok w)
    go (ok c) e g = (c, e, g)
    go (err x) e g = cc

module _ (ts : List PathToken) where
  pub get_entry :
      (k : Bytes) (fs : Entries) {c : Node}
      → find k fs ≡ some c
      → get_tokens (key k ∷ ts) (object fs) ≡ get_tokens ts c
  unfolding get_tokens child_of try_object
  get_entry k fs h = rw h

  pub get_element :
      (i : ℕ) (xs : Elements) {c : Node}
      → at? i xs ≡ some c
      → get_tokens (index i ∷ ts) (array xs) ≡ get_tokens ts c
  unfolding get_tokens child_of try_array
  get_element i xs h = rw h

-- What a write at the first token does to the child.
abbrev pub child_change : List PathToken → Node → Option Node → Change
child_change [] v o = (v, done)
child_change (u ∷ ts) v o = set_tokens (u ∷ ts) v (get_or_null o)

module _ (k : Bytes) (ts : List PathToken) (v n : Node) where
  pub set_key_some :
      {fs : Entries}
      → object_for_set n ≡ some fs
      → set_tokens (key k ∷ ts) v n ≡ in_entry k fs (child_change ts v (find k fs))
  set_key_some {fs} h = go ts
    where
      go :
          (us : List PathToken)
          → set_tokens (key k ∷ us) v n ≡ in_entry k fs (child_change us v (find k fs))
      go [] = unfold set_tokens in rw (h, set_tokens)
      go (u ∷ us) = unfold set_tokens in rw (h, set_tokens)

  pub set_key_none :
      object_for_set n ≡ none → set_tokens (key k ∷ ts) v n ≡ (n, err (set_no_object k))
  set_key_none h = go ts
    where
      go : (us : List PathToken) → set_tokens (key k ∷ us) v n ≡ (n, err (set_no_object k))
      go [] = unfold set_tokens in rw (h, set_tokens)
      go (u ∷ us) = unfold set_tokens in rw (h, set_tokens)

module _ (i : ℕ) (ts : List PathToken) (v n : Node) where
  pub set_index_some :
      {xs : Elements}
      → array_for_set n ≡ some xs
      → set_tokens (index i ∷ ts) v n ≡ in_element i xs (child_change ts v (at? i xs))
  set_index_some {xs} h = go ts
    where
      go :
          (us : List PathToken)
          → set_tokens (index i ∷ us) v n ≡ in_element i xs (child_change us v (at? i xs))
      go [] = unfold set_tokens in rw (h, set_tokens)
      go (u ∷ us) = unfold set_tokens in rw (h, set_tokens)

  pub set_index_none :
      array_for_set n ≡ none → set_tokens (index i ∷ ts) v n ≡ (n, err set_no_array)
  set_index_none h = go ts
    where
      go : (us : List PathToken) → set_tokens (index i ∷ us) v n ≡ (n, err set_no_array)
      go [] = unfold set_tokens in rw (h, set_tokens)
      go (u ∷ us) = unfold set_tokens in rw (h, set_tokens)

pub object_for_set-object : (fs : Entries) → object_for_set (object fs) ≡ some fs
unfolding object_for_set try_object
object_for_set-object fs = refl

pub object_for_set-array : (xs : Elements) → object_for_set (array xs) ≡ none
unfolding object_for_set try_object
object_for_set-array xs = refl

pub array_for_set-array : (xs : Elements) → array_for_set (array xs) ≡ some xs
unfolding array_for_set try_array
array_for_set-array xs = refl

pub array_for_set-object : (fs : Entries) → array_for_set (object fs) ≡ none
unfolding array_for_set try_array
array_for_set-object fs = refl
