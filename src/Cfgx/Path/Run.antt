-- ===== src/Cfgx/Path/Run.antt =====
-- The loop of `ParsePath` without its fuel.
use toolx_cpp.Prelude.{
  ℕ, zero, suc, ◌+◌, ◌-◌, ◌*◌, ◌%◌, ◌^◌, ◌<◌, ◌≤◌, ◌≡◌, refl, sym, ◌∙◌, arith, List, [], ◌∷◌, Bytes,
  length, inl, inr, ◌⊎◌,
}
use toolx_cpp.Cfgx.Error.{Result}
use toolx_cpp.Cfgx.Path.{
  PathToken, Step, stop, more, flush, Scan, scanned, too_large, scan_digits, close_index,
  open_bracket, after_escape, after_dot, step, Answer, answer, loop, parse_path,
}

-- What a round leaves to be read; nothing where it ends the loop.
abbrev remaining : Step → ℕ
remaining (stop r) = 0
remaining (more rest i out current) = length rest

abbrev unscanned : Scan → ℕ
unscanned (too_large i) = 0
unscanned (scanned rest i value) = length rest

scan_digits-le : (s : Bytes) (i value : ℕ) → unscanned (scan_digits s i value) ≤ length s
unfolding scan_digits
scan_digits-le [] i value = omega arith
scan_digits-le (c ∷ s) i value =
    ground (arith, scan_digits-le s (i + 1) ((value * 10 + (c - b'0')) % 2 ^ 64))

close_index-le :
    (out : List PathToken) (start : ℕ) (r : Scan)
    → remaining (close_index out start r) ≤ unscanned r
unfolding close_index
close_index-le out start (too_large i) = omega arith
close_index-le out start (scanned [] i value) = ground arith
close_index-le out start (scanned (c ∷ s) i value) = ground arith

open_bracket-le :
    (s : Bytes) (i : ℕ) (out : List PathToken) → remaining (open_bracket s i out) ≤ length s
unfolding open_bracket
open_bracket-le [] i out = omega arith
open_bracket-le (c ∷ s) i out =
    ground (arith, close_index-le out i (scan_digits (c ∷ s) i 0), scan_digits-le (c ∷ s) i 0)

after_escape-le :
    (s : Bytes) (i : ℕ) (out : List PathToken) (cur : Bytes)
    → remaining (after_escape s i out cur) ≤ length s
unfolding after_escape
after_escape-le [] i out cur = omega arith
after_escape-le (d ∷ s) i out cur = omega arith

after_dot-le :
    (s : Bytes) (i : ℕ) (out : List PathToken) (cur : Bytes)
    → remaining (after_dot s i out cur) ≤ length s
unfolding after_dot
after_dot-le [] i out cur = omega arith
after_dot-le (d ∷ s) i out [] = ground arith
after_dot-le (d ∷ s) i out (b ∷ t) = omega arith

step-le :
    (c : ℕ) (s : Bytes) (i : ℕ) (out : List PathToken) (cur : Bytes)
    → remaining (step (c ∷ s) i out cur) ≤ length s
unfolding step
step-le c s i out cur = ground (
  arith,
  after_escape-le s i out cur,
  after_dot-le s i out cur,
  open_bracket-le s (i + 1) (flush out cur),
)

Step-cases :
    (r : Step)
    → ((a : Result (List PathToken)) × (r ≡ stop a))
      ⊎ ((rest : Bytes) × (j : ℕ) × (out : List PathToken) × (cur : Bytes) × (r
            ≡ more rest j out cur))
Step-cases (stop a) = inl (a, refl)
Step-cases (more rest j out cur) = inr (rest, j, out, cur, refl)

module _ (f : ℕ) (s : Bytes) (i : ℕ) (out : List PathToken) (cur : Bytes) where
  loop-stop :
      {a : Result (List PathToken)}
      → step s i out cur ≡ stop a
      → loop (suc f) s i out cur ≡ answer a
  unfolding loop
  loop-stop e = rw (e, loop)

  loop-more :
      {rest : Bytes} {j : ℕ} {out' : List PathToken} {cur' : Bytes}
      → step s i out cur ≡ more rest j out' cur'
      → loop (suc f) s i out cur ≡ loop f rest j out' cur'
  unfolding loop
  loop-more e = rw (e, loop)

step-lt :
    (s : Bytes) (i : ℕ) (out : List PathToken) (cur : Bytes) {rest : Bytes} {j : ℕ}
    {out' : List PathToken} {cur' : Bytes}
    → step s i out cur ≡ more rest j out' cur'
    → length rest < length s
step-lt [] i out cur e = unfold step in cc
step-lt (c ∷ s) i out cur e = omega (arith, rw e at (step-le c s i out cur))

-- Any fuel above the length of the text gives the answer that the least such fuel gives.
loop_fuel :
    (f g : ℕ) (s : Bytes) (i : ℕ) (out : List PathToken) (cur : Bytes)
    → length s < f
    → length s < g
    → loop f s i out cur ≡ loop g s i out cur
loop_fuel zero g s i out cur p q = absurd (omega arith)
loop_fuel (suc f) zero s i out cur p q = absurd (omega arith)
loop_fuel (suc f) (suc g) s i out cur p q = elim (Step-cases (step s i out cur)) [
  | inl (a, e) ↦ loop-stop f s i out cur e ∙ sym (loop-stop g s i out cur e)
  | inr (rest, j, out', cur', e) ↦
      let shorter = step-lt s i out cur e in
      loop-more f s i out cur e
      ∙ loop_fuel f g rest j out' cur' (omega arith) (omega arith)
      ∙ sym (loop-more g s i out cur e)
]

loop_total :
    (f : ℕ) (s : Bytes) (i : ℕ) (out : List PathToken) (cur : Bytes)
    → length s < f
    → (r : Result (List PathToken)) × (loop f s i out cur ≡ answer r)
loop_total zero s i out cur p = absurd (omega arith)
loop_total (suc f) s i out cur p = elim (Step-cases (step s i out cur)) [
  | inl (a, e) ↦ (a, loop-stop f s i out cur e)
  | inr (rest, j, out', cur', e) ↦
      let shorter = step-lt s i out cur e in
      let (r, h) = loop_total f rest j out' cur' (omega arith) in (r, loop-more f s i out cur e ∙ h)
]

-- The loop from a point on, with just enough fuel.
abbrev pub run : Bytes → ℕ → List PathToken → Bytes → Answer
run s = loop (suc (length s)) s

pub run-stop :
    (s : Bytes) (i : ℕ) (out : List PathToken) (cur : Bytes) {a : Result (List PathToken)}
    → step s i out cur ≡ stop a
    → run s i out cur ≡ answer a
run-stop s i out cur e = loop-stop _ s i out cur e

pub run-more :
    (s : Bytes) (i : ℕ) (out : List PathToken) (cur : Bytes) {rest : Bytes} {j : ℕ}
    {out' : List PathToken} {cur' : Bytes}
    → step s i out cur ≡ more rest j out' cur'
    → run s i out cur ≡ run rest j out' cur'
run-more s i out cur {rest} {j} {out'} {cur'} e =
    let shorter = step-lt s i out cur e in
    loop-more _ s i out cur e ∙ loop_fuel _ _ rest j out' cur' (omega arith) (omega arith)

-- `ParsePath` answers on every text: the fuel is enough.
pub parse_path_total : (s : Bytes) → (r : Result (List PathToken)) × (parse_path s ≡ answer r)
unfolding parse_path
parse_path_total [] = (_, refl)
parse_path_total (c ∷ s) = loop_total _ (c ∷ s) 0 [] [] (omega arith)
