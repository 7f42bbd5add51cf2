-- ===== src/Cfgx/Path/Sound.antt =====
-- The tokens that `ParsePath` of src/cfgx.cpp can give, and `CanonicalIniPath`, which formats them.
use toolx_cpp.Prelude.{
  ℕ, zero, suc, ◌+◌, ◌-◌, ◌/◌, ◌≤◌, ◌≡◌, ◌≢◌, inl, inr, arith, Bool, true, false, not, ◌&&◌, List,
  [], ◌∷◌, Bytes, All, All-append, ltb, leb, ◌==◌, if◌then◌else◌, Bool-cases,
}
use toolx_cpp.Cfgx.Error.{ok, err}
use mathlib.Core.List.{cons-ne-nil}
use toolx_cpp.Cfgx.Path.{
  PathToken, size_max, Step, stop, more, flush, at_boundary, ends_bracketed, Scan, scanned,
  too_large, scan_digits, close_index, open_bracket, after_escape, after_dot, finish, step, Answer,
  answer, loop, parse_path, format_path_tokens,
}
use toolx_cpp.Cfgx.Path.RoundTrip.{Fits, parse_path-format_path_tokens}

-- What holds of the outcome of a round: its tokens fit, and tokens that are returned are some.
abbrev Sound : Step → Type 0
Sound (stop (ok ts)) = (ts ≢ []) × All Fits ts
Sound (stop (err e)) = Unit {0}
Sound (more rest j out current) = All Fits out

-- A choice between two rounds.
if-Sound : (b : Bool) (x y : Step) → Sound x → Sound y → Sound (if b then x else y)
if-Sound true x y hx hy = hx
if-Sound false x y hx hy = hy

flush-Fits : (out : List PathToken) (cur : Bytes) → All Fits out → All Fits (flush out cur)
unfolding flush
flush-Fits out [] h = h
flush-Fits out (c ∷ s) h = All-append Fits out _ h (tt, tt)

finish-Sound : (out : List PathToken) → All Fits out → Sound (stop (finish out))
unfolding finish
finish-Sound [] h = tt
finish-Sound (t ∷ ts) h = (cons-ne-nil t ts, h)

-- The value that the digits give fits into a size_t.
abbrev ScanFits : Scan → Type 0
ScanFits (scanned rest j v) = v ≤ size_max
ScanFits (too_large j) = Unit {0}

scan_digits-Fits : (s : Bytes) (i v : ℕ) → v ≤ size_max → ScanFits (scan_digits s i v)
unfolding scan_digits
scan_digits-Fits [] i v h = h
scan_digits-Fits (c ∷ s) i v h = elim (Bool-cases (leb b'0' c && leb c b'9')) [
  | inl digit ↦ elim (Bool-cases (ltb ((size_max - (c - b'0')) / 10) v)) [
    | inl large ↦ rw (digit, large) tt
    | inr small ↦ rw (digit, small) (scan_digits-Fits s (i + 1) _ (omega arith))
  ]
  | inr other ↦ rw other h
]

close_index-Sound :
    (out : List PathToken) (start : ℕ) (r : Scan)
    → All Fits out
    → ScanFits r
    → Sound (close_index out start r)
unfolding close_index
close_index-Sound out start (too_large i) h k = tt
close_index-Sound out start (scanned [] i v) h k = if-Sound (i == start) _ _ tt tt
close_index-Sound out start (scanned (c ∷ s) i v) h k = if-Sound (i == start) _ _ tt (
    if-Sound (not (c == b']')) _ _ tt
      (if-Sound (not (at_boundary s)) _ _ tt (All-append Fits out _ h (k, tt))))

open_bracket-Sound :
    (s : Bytes) (i : ℕ) (out : List PathToken) → All Fits out → Sound (open_bracket s i out)
unfolding open_bracket
open_bracket-Sound [] i out h = tt
open_bracket-Sound (c ∷ s) i out h =
    if-Sound (c == b']') _ _
      (if-Sound (not (at_boundary s)) _ _ tt (All-append Fits out _ h (tt, tt)))
      (close_index-Sound out i _ h (scan_digits-Fits (c ∷ s) i 0 (omega arith)))

after_dot-Sound :
    (s : Bytes) (i : ℕ) (out : List PathToken) (cur : Bytes)
    → All Fits out
    → Sound (after_dot s i out cur)
unfolding after_dot
after_dot-Sound [] i out cur h = tt
after_dot-Sound (d ∷ s) i out [] h = if-Sound (not (ends_bracketed out)) _ _ tt h
after_dot-Sound (d ∷ s) i out (b ∷ t) h = flush-Fits out (b ∷ t) h

after_escape-Sound :
    (s : Bytes) (i : ℕ) (out : List PathToken) (cur : Bytes)
    → All Fits out
    → Sound (after_escape s i out cur)
unfolding after_escape
after_escape-Sound [] i out cur h = tt
after_escape-Sound (d ∷ s) i out cur h = h

step-Sound :
    (s : Bytes) (i : ℕ) (out : List PathToken) (cur : Bytes)
    → All Fits out
    → Sound (step s i out cur)
unfolding step
step-Sound [] i out cur h = finish-Sound _ (flush-Fits out cur h)
step-Sound (c ∷ s) i out cur h = if-Sound (c == b'\\') _ _ (after_escape-Sound s i out cur h) (
    if-Sound (c == b'.') _ _ (after_dot-Sound s i out cur h)
      (if-Sound (c == b'[') _ _ (open_bracket-Sound s (i + 1) _ (flush-Fits out cur h)) h))

step-next :
    (fuel : ℕ) (r : Step) {ts : List PathToken}
    → Sound r
    → ((rest : Bytes) (j : ℕ) (out : List PathToken) (cur : Bytes)
        → All Fits out
        → loop fuel rest j out cur ≡ answer (ok ts)
        → (ts ≢ []) × All Fits ts)
    → elim r as (λ x. Answer) [ stop q ↦ answer q | more rest j out cur ↦ loop fuel rest j out cur ]
      ≡ answer (ok ts)
    → (ts ≢ []) × All Fits ts
step-next fuel (stop (ok us)) {ts} w k h = let same : us ≡ ts = cc h in rw (← same) w
step-next fuel (stop (err e)) w k h = cc
step-next fuel (more rest j out cur) w k h = k rest j out cur w h

loop_sound :
    (fuel : ℕ) (s : Bytes) (i : ℕ) (out : List PathToken) (cur : Bytes) {ts : List PathToken}
    → All Fits out
    → loop fuel s i out cur ≡ answer (ok ts)
    → (ts ≢ []) × All Fits ts
unfolding loop
loop_sound zero s i out cur w h = cc
loop_sound (suc fuel) s i out cur w h =
    step-next fuel (step s i out cur) (step-Sound s i out cur w)
      (λ rest j out' cur' w' h'. loop_sound fuel rest j out' cur' w' h') h

pub parse_path_sound :
    (s : Bytes) {ts : List PathToken} → parse_path s ≡ answer (ok ts) → (ts ≢ []) × All Fits ts
unfolding parse_path
parse_path_sound [] h = cc
parse_path_sound (c ∷ s) h = loop_sound _ (c ∷ s) 0 [] [] tt h

-- Parsing a path, formatting its tokens and parsing again gives the same tokens: the canonical text of
-- a path names what the path names.
pub parse_path-canonical :
    (s : Bytes) {ts : List PathToken}
    → parse_path s ≡ answer (ok ts)
    → parse_path (format_path_tokens ts) ≡ answer (ok ts)
parse_path-canonical s {ts} h =
    let (ne, fits) = parse_path_sound s h in parse_path-format_path_tokens ts ne fits
