-- ===== src/Cfgx/Node/Items.antt =====
-- The elements of an array: what a write, with its resize, and an erasure do to every index.
use toolx_cpp.Prelude.{ℕ, zero, suc, ◌<◌, ◌≡◌, ◌≢◌, refl, ap, arith, none, some, if◌then◌else◌, ltb}
use toolx_cpp.Cfgx.Node.{
  Node, Elements, nil, element, at?, put_at, erase_element, element_count, IsWf, AllWf,
}

pub at?-nil : (i : ℕ) → at? i nil ≡ none
unfolding at?
at?-nil i = refl

pub at?-put_self : (i : ℕ) (v : Node) (xs : Elements) → at? i (put_at i v xs) ≡ some v
unfolding at? put_at
at?-put_self zero v nil = refl
at?-put_self (suc i) v nil = at?-put_self i v nil
at?-put_self zero v (element n xs) = refl
at?-put_self (suc i) v (element n xs) = at?-put_self i v xs

-- A write keeps what stands at the other indices.
pub at?-put_ne :
    (i j : ℕ) (v : Node) (xs : Elements) {n : Node}
    → i ≢ j
    → at? j xs ≡ some n
    → at? j (put_at i v xs) ≡ some n
unfolding at? put_at
at?-put_ne i j v nil ne h = absurd (ground arith)
at?-put_ne zero zero v (element n xs) ne h = absurd (ne refl)
at?-put_ne zero (suc j) v (element n xs) ne h = h
at?-put_ne (suc i) zero v (element n xs) ne h = h
at?-put_ne (suc i) (suc j) v (element n xs) ne h = at?-put_ne i j v xs (λ e. ne (ap suc e)) h

pub put_at_same : (i : ℕ) (v : Node) (xs : Elements) → at? i xs ≡ some v → put_at i v xs ≡ xs
unfolding at? put_at
put_at_same i v nil h = absurd (ground arith)
put_at_same zero v (element n xs) h = ground arith
put_at_same (suc i) v (element n xs) h = ap (element n) (put_at_same i v xs h)

pub at?-lt : (i : ℕ) (xs : Elements) {v : Node} → at? i xs ≡ some v → i < element_count xs
unfolding at?
at?-lt i nil h = absurd (ground arith)
at?-lt zero (element n xs) h = omega arith
at?-lt (suc i) (element n xs) h = omega (arith, at?-lt i xs h)

pub at?-erase :
    (i j : ℕ) (xs : Elements)
    → at? j (erase_element i xs) ≡ (if ltb j i then at? j xs else at? (suc j) xs)
unfolding at? erase_element
at?-erase i j nil = ground arith
at?-erase zero j (element n xs) = ground arith
at?-erase (suc i) zero (element n xs) = ground arith
at?-erase (suc i) (suc j) (element n xs) = ground (arith, at?-erase i j xs)

pub at?-IsWf : (i : ℕ) (xs : Elements) {v : Node} → AllWf xs → at? i xs ≡ some v → IsWf v
unfolding at? AllWf
at?-IsWf i nil w h = absurd (ground arith)
at?-IsWf zero (element n xs) {v} w h = let e : n ≡ v = ground arith in rw (← e) w.0
at?-IsWf (suc i) (element n xs) w h = at?-IsWf i xs w.1 h

pub put_at-AllWf : (i : ℕ) (v : Node) (xs : Elements) → IsWf v → AllWf xs → AllWf (put_at i v xs)
unfolding put_at AllWf
put_at-AllWf zero v nil h w = (h, tt)
put_at-AllWf (suc i) v nil h w = (tt, put_at-AllWf i v nil h tt)
put_at-AllWf zero v (element n xs) h w = (h, w.1)
put_at-AllWf (suc i) v (element n xs) h w = (w.0, put_at-AllWf i v xs h w.1)

pub erase-AllWf : (i : ℕ) (xs : Elements) → AllWf xs → AllWf (erase_element i xs)
unfolding erase_element AllWf
erase-AllWf i nil w = w
erase-AllWf zero (element n xs) w = w.1
erase-AllWf (suc i) (element n xs) w = (w.0, erase-AllWf i xs w.1)
