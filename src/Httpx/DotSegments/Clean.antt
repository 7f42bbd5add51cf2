-- ===== src/Httpx/DotSegments/Clean.antt =====
-- What `RemoveDotSegments` of src/httpx.cpp leaves of a path that begins with a slash.
use toolx_cpp.Prelude.{
  ℕ, zero, suc, ◌≡◌, ◌≢◌, refl, sym, ap, ◌∙◌, arith, Bool, true, false, ◌||◌, [], ◌∷◌, ◌++◌, some,
  Bytes, bytes_eq, Bool-cases, inl, inr, ◌⊎◌, codes, length, drop, ◌==◌, if◌then◌else◌,
}
use mathlib.Core.Path.{subst}
use toolx_cpp.Httpx.Cookies.{slash, has_slash, before_last_slash}
use toolx_cpp.Httpx.DotSegments.{
  starts_with, split_slash, move_segment, dot_step, dot_loop, remove_dot_segments,
  remove_dot_segments-some,
}

-- Segments, each with its slash ahead of it, none of which is one dot or two.
pub data Segments : Bytes → Type 0 where
  nothing : Segments []
  segment :
      {out : Bytes} (body : Bytes)
      → Segments out
      → has_slash body ≡ false
      → body ≢ codes "."
      → body ≢ codes ".."
      → Segments (out ++ slash ∷ body)

abbrev Begins : Bytes → Type 0
Begins p = (p ≡ []) ⊎ ((t : Bytes) × (p ≡ slash ∷ t))

has_slash-append : (out body : Bytes) → has_slash (out ++ slash ∷ body) ≡ true
unfolding has_slash
has_slash-append [] body = refl
has_slash-append (x ∷ out) body = let rest = has_slash-append out body in ground arith

before_last_slash-append :
    (out body : Bytes) → has_slash body ≡ false → before_last_slash (out ++ slash ∷ body) ≡ out
unfolding before_last_slash
before_last_slash-append [] body h = rw h refl
before_last_slash-append (x ∷ out) body h =
    rw (has_slash-append out body) (ap (λ s. x ∷ s) (before_last_slash-append out body h))

before_last_slash-Segments : (out : Bytes) → Segments out → Segments (before_last_slash out)
unfolding before_last_slash
before_last_slash-Segments _ nothing = nothing
before_last_slash-Segments _ (segment {out} body s h d dd) =
    rw (before_last_slash-append out body h) s

split_slash-has_slash : (s : Bytes) → has_slash (split_slash s).0 ≡ false
unfolding has_slash split_slash
split_slash-has_slash [] = refl
split_slash-has_slash (c ∷ s) = let rest = split_slash-has_slash s in ground arith

split_slash-append : (s : Bytes) → (split_slash s).0 ++ (split_slash s).1 ≡ s
unfolding split_slash
split_slash-append [] = refl
split_slash-append (c ∷ s) = elim (Bool-cases (c == slash)) [
  | inl here ↦ rw here refl
  | inr later ↦ rw later (ap (λ t. c ∷ t) (split_slash-append s))
]

split_slash-Begins : (s : Bytes) → Begins (split_slash s).1
unfolding split_slash
split_slash-Begins [] = inl refl
split_slash-Begins (c ∷ s) = elim (Bool-cases (c == slash)) [
  | inl here ↦ rw here (inr (s, (let same : c ≡ slash = ground arith in ap (λ d. d ∷ s) same)))
  | inr later ↦ rw later (split_slash-Begins s)
]

one_dot-Begins :
    (s : Bytes) → starts_with (slash ∷ s) (codes "/./") ≡ true → Begins (drop 2 (slash ∷ s))
unfolding bytes_eq
one_dot-Begins [] h = absurd (cc h)
one_dot-Begins (x ∷ []) h = absurd (ground arith)
one_dot-Begins (x ∷ y ∷ t) h =
    inr (t, (let same : y ≡ slash = ground arith in ap (λ d. d ∷ t) same))

two_dots-Begins :
    (s : Bytes) → starts_with (slash ∷ s) (codes "/../") ≡ true → Begins (drop 3 (slash ∷ s))
unfolding bytes_eq
two_dots-Begins [] h = absurd (cc h)
two_dots-Begins (x ∷ []) h = absurd (ground arith)
two_dots-Begins (x ∷ y ∷ []) h = absurd (ground arith)
two_dots-Begins (x ∷ y ∷ z ∷ t) h =
    inr (t, (let same : z ≡ slash = ground arith in ap (λ d. d ∷ t) same))

-- A segment of dots is seen by the tests.
no_dot :
    (a b : Bytes)
    → Begins b
    → starts_with (slash ∷ (a ++ b)) (codes "/./") ≡ false
    → bytes_eq (slash ∷ (a ++ b)) (codes "/.") ≡ false
    → a ≢ codes "."
unfolding bytes_eq
no_dot a b (inl empty) h k dot = absurd (
    cc (
      k,
      ap (λ s. bytes_eq (slash ∷ s) (codes "/."))
          (ap (λ s. s ++ b) dot ∙ ap (λ s. codes "." ++ s) empty),
    ))
no_dot a b (inr (t, begins)) h k dot = absurd (
    cc (
      h,
      ap (λ s. starts_with (slash ∷ s) (codes "/./"))
          (ap (λ s. s ++ b) dot ∙ ap (λ s. codes "." ++ s) begins),
    ))

no_dots :
    (a b : Bytes)
    → Begins b
    → starts_with (slash ∷ (a ++ b)) (codes "/../") ≡ false
    → bytes_eq (slash ∷ (a ++ b)) (codes "/..") ≡ false
    → a ≢ codes ".."
unfolding bytes_eq
no_dots a b (inl empty) h k dot = absurd (
    cc (
      k,
      ap (λ s. bytes_eq (slash ∷ s) (codes "/.."))
          (ap (λ s. s ++ b) dot ∙ ap (λ s. codes ".." ++ s) empty),
    ))
no_dots a b (inr (t, begins)) h k dot = absurd (
    cc (
      h,
      ap (λ s. starts_with (slash ∷ s) (codes "/../"))
          (ap (λ s. s ++ b) dot ∙ ap (λ s. codes ".." ++ s) begins),
    ))

abbrev Good : Bytes × Bytes → Type 0
Good r = Segments r.0 × Begins r.1

or-false : (a b : Bool) → (a || b) ≡ false → (a ≡ false) × (b ≡ false)
or-false true b h = absurd (cc h)
or-false false b h = (refl, h)

move_segment-Good :
    (out s : Bytes)
    → Segments out
    → starts_with (slash ∷ s) (codes "/./") ≡ false
    → bytes_eq (slash ∷ s) (codes "/.") ≡ false
    → starts_with (slash ∷ s) (codes "/../") ≡ false
    → bytes_eq (slash ∷ s) (codes "/..") ≡ false
    → Good (move_segment out (slash ∷ s))
unfolding move_segment
move_segment-Good out s g h1 h2 h3 h4 =
    let a = (split_slash s).0 in
    let b = (split_slash s).1 in
    let same = sym (split_slash-append s) in
    let begins = split_slash-Begins s in
    (
      segment a g (split_slash-has_slash s)
          (no_dot a b begins (subst (λ t. starts_with (slash ∷ t) (codes "/./") ≡ false) same h1)
            (subst (λ t. bytes_eq (slash ∷ t) (codes "/.") ≡ false) same h2))
          (no_dots a b begins (subst (λ t. starts_with (slash ∷ t) (codes "/../") ≡ false) same h3)
            (subst (λ t. bytes_eq (slash ∷ t) (codes "/..") ≡ false) same h4)),
      begins,
    )

-- The tests of a round on a path that begins with a slash.
abbrev slash_step : (out s : Bytes) → (one two three four : Bool) → Bytes × Bytes
slash_step out s one two three four =
    if one
    then (out, drop 2 (slash ∷ s))
    else if two
    then (out, slash ∷ [])
    else if three || four
    then (before_last_slash out, if four then slash ∷ [] else drop 3 (slash ∷ s))
    else move_segment out (slash ∷ s)

dot_step-slash :
    (out s : Bytes)
    → dot_step out (slash ∷ s)
      ≡ slash_step out s
          (starts_with (slash ∷ s) (codes "/./"))
          (bytes_eq (slash ∷ s) (codes "/."))
          (starts_with (slash ∷ s) (codes "/../"))
          (bytes_eq (slash ∷ s) (codes "/.."))
unfolding dot_step bytes_eq
dot_step-slash out s = refl

slash_step-Good :
    (out s : Bytes) (one two three four : Bool)
    → Segments out
    → starts_with (slash ∷ s) (codes "/./") ≡ one
    → bytes_eq (slash ∷ s) (codes "/.") ≡ two
    → starts_with (slash ∷ s) (codes "/../") ≡ three
    → bytes_eq (slash ∷ s) (codes "/..") ≡ four
    → Good (slash_step out s one two three four)
slash_step-Good out s true two three four g h1 h2 h3 h4 = (g, one_dot-Begins s h1)
slash_step-Good out s false true three four g h1 h2 h3 h4 = (g, inr ([], refl))
slash_step-Good out s false false true true g h1 h2 h3 h4 =
    (before_last_slash-Segments out g, inr ([], refl))
slash_step-Good out s false false true false g h1 h2 h3 h4 =
    (before_last_slash-Segments out g, two_dots-Begins s h3)
slash_step-Good out s false false false true g h1 h2 h3 h4 =
    (before_last_slash-Segments out g, inr ([], refl))
slash_step-Good out s false false false false g h1 h2 h3 h4 = move_segment-Good out s g h1 h2 h3 h4

dot_step-Good : (out s : Bytes) → Segments out → Good (dot_step out (slash ∷ s))
dot_step-Good out s g =
    subst Good (sym (dot_step-slash out s)) (slash_step-Good out s _ _ _ _ g refl refl refl refl)

dot_loop-Segments :
    (fuel : ℕ) (out path r : Bytes)
    → Segments out
    → Begins path
    → dot_loop fuel out path ≡ some r
    → Segments r
unfolding dot_loop
dot_loop-Segments fuel out [] r g b h = let same : out ≡ r = ground arith in subst Segments same g
dot_loop-Segments zero out (c ∷ s) r g b h = absurd (cc h)
dot_loop-Segments (suc fuel) out (c ∷ s) r g (inl empty) h = absurd (cc empty)
dot_loop-Segments (suc fuel) out (c ∷ s) r g (inr (t, begins)) h =
    let good : Good (dot_step out (c ∷ s)) =
      subst (λ p. Good (dot_step out p)) (sym begins) (dot_step-Good out t g) in
    dot_loop-Segments fuel (dot_step out (c ∷ s)).0 (dot_step out (c ∷ s)).1 r good.0 good.1 h

-- The loop over a path that begins with a slash ends with a result, which is a sequence of segments,
-- each behind a slash, none of which holds a slash or is one dot or two.
pub remove_dot_segments-Segments :
    (s : Bytes) → (r : Bytes) × (remove_dot_segments (slash ∷ s) ≡ some r) × Segments r
unfolding remove_dot_segments
remove_dot_segments-Segments s =
    let (r, found, short) = remove_dot_segments-some (slash ∷ s) in
    (
      r,
      found,
      dot_loop-Segments (length (slash ∷ s)) [] (slash ∷ s) r nothing (inr (s, refl)) found,
    )
