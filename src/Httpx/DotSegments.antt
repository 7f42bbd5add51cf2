-- ===== src/Httpx/DotSegments.antt =====
-- `RemoveDotSegments` of src/httpx.cpp.
pub mod Clean
use toolx_cpp.Prelude.{
  ℕ, zero, suc, ◌+◌, ◌≤◌, ◌<◌, ◌≡◌, refl, ap, ◌∙◌, arith, Bool, true, false, ◌||◌, List, [], ◌∷◌,
  ◌++◌, Option, none, some, Bytes, bytes_eq, bytes_eq_iff, Bool-cases, inl, inr, codes, length,
  length-append, take, drop, ◌==◌, if◌then◌else◌,
}
use toolx_cpp.Httpx.Cookies.{slash, before_last_slash}

abbrev pub starts_with : Bytes → Bytes → Bool
starts_with s p = bytes_eq (take (length p) s) p

-- The text ahead of the first slash and the rest.
unfoldable pub split_slash : Bytes → Bytes × Bytes
split_slash [] = ([], [])
split_slash (c ∷ s) = let (a, b) = split_slash s in if c == slash then ([], c ∷ s) else (c ∷ a, b)

-- A segment with the slash ahead of it, if there is one, goes to the result.
unfoldable pub move_segment : Bytes → Bytes → Bytes × Bytes
move_segment out [] = (out, [])
move_segment out (c ∷ s) = let (a, b) = split_slash s in (out ++ c ∷ a, b)

-- One round of the loop: the result and the path that is left.
unfoldable pub dot_step : Bytes → Bytes → Bytes × Bytes
dot_step out path =
    if starts_with path (codes "../")
    then (out, drop 3 path)
    else if starts_with path (codes "./") || starts_with path (codes "/./")
    then (out, drop 2 path)
    else if bytes_eq path (codes "/.")
    then (out, slash ∷ [])
    else if starts_with path (codes "/../") || bytes_eq path (codes "/..")
    then (before_last_slash out, if bytes_eq path (codes "/..") then slash ∷ [] else drop 3 path)
    else if bytes_eq path (codes ".") || bytes_eq path (codes "..")
    then (out, [])
    else move_segment out path

unfoldable pub dot_loop : (fuel : ℕ) → (out path : Bytes) → Option Bytes
dot_loop fuel out [] = some out
dot_loop zero out (c ∷ s) = none
dot_loop (suc fuel) out (c ∷ s) = let (o, p) = dot_step out (c ∷ s) in dot_loop fuel o p

-- A round takes a character at least.
unfoldable pub remove_dot_segments : Bytes → Option Bytes
remove_dot_segments path = dot_loop (length path) [] path

drop-le {ℓ} : {A : Type ℓ} → (n : ℕ) (xs : List A) → length (drop n xs) ≤ length xs
drop-le zero xs = omega arith
drop-le (suc n) [] = omega arith
drop-le (suc n) (x ∷ xs) = let rest = drop-le n xs in omega arith

length-before_last_slash : (s : Bytes) → length (before_last_slash s) ≤ length s
unfolding before_last_slash
length-before_last_slash [] = omega arith
length-before_last_slash (c ∷ s) = let rest = length-before_last_slash s in ground arith

length-split_slash : (s : Bytes) → length (split_slash s).0 + length (split_slash s).1 ≡ length s
unfolding split_slash
length-split_slash [] = refl
length-split_slash (c ∷ s) = let rest = length-split_slash s in ground arith

length-move_segment :
    (out : Bytes) (c : ℕ) (s : Bytes)
    → (length (move_segment out (c ∷ s)).1 < length (c ∷ s))
      × (length (move_segment out (c ∷ s)).0 + length (move_segment out (c ∷ s)).1
          ≤ length out + length (c ∷ s))
unfolding move_segment
length-move_segment out c s =
    let split = length-split_slash s in
    let joined = length-append out (c ∷ (split_slash s).0) in (omega arith, omega arith)

length-bytes_eq : (s t : Bytes) → bytes_eq s t ≡ true → length s ≡ length t
length-bytes_eq s t h = ap length ((bytes_eq_iff s t).0 h)

length-dot_step :
    (out : Bytes) (c : ℕ) (s : Bytes)
    → (length (dot_step out (c ∷ s)).1 < length (c ∷ s))
      × (length (dot_step out (c ∷ s)).0 + length (dot_step out (c ∷ s)).1
          ≤ length out + length (c ∷ s))
unfolding dot_step
length-dot_step out c s =
    let three : length (drop 3 (c ∷ s)) ≤ length s = drop-le 2 s in
    let two : length (drop 2 (c ∷ s)) ≤ length s = drop-le 1 s in
    let back = length-before_last_slash out in
    let (moved, sum) = length-move_segment out c s in
    let dot = length-bytes_eq (c ∷ s) (codes "/.") in
    let dots = length-bytes_eq (c ∷ s) (codes "/..") in (ground arith, ground arith)

dot_loop-some :
    (fuel : ℕ) (out path : Bytes)
    → length path ≤ fuel
    → (r : Bytes) × (dot_loop fuel out path ≡ some r) × (length r ≤ length out + length path)
unfolding dot_loop
dot_loop-some fuel out [] h = (out, refl, omega arith)
dot_loop-some zero out (c ∷ s) h = absurd (omega arith)
dot_loop-some (suc fuel) out (c ∷ s) h =
    let (less, sum) = length-dot_step out c s in
    let next = dot_step out (c ∷ s) in
    let (r, found, short) = dot_loop-some fuel next.0 next.1 (omega arith) in
    (r, found, omega arith)

-- The loop over the path ends with a result, which is no longer than the path.
pub remove_dot_segments-some :
    (path : Bytes) → (r : Bytes) × (remove_dot_segments path ≡ some r) × (length r ≤ length path)
unfolding remove_dot_segments
remove_dot_segments-some path =
    let (r, found, short) = dot_loop-some (length path) [] path (omega arith) in
    (r, found, omega arith)
