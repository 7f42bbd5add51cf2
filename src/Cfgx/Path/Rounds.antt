-- ===== src/Cfgx/Path/Rounds.antt =====
-- The rounds of the loop of `ParsePath` on well formed pieces of a path.
use toolx_cpp.Prelude.{
  ℕ, ◌+◌, ◌<◌, ◌≤◌, ◌≡◌, ◌≢◌, refl, sym, arith, Bool, true, false, ◌||◌, List, [], ◌∷◌, ◌++◌, Bytes,
  ◌==◌, Bool-cases, inl, inr, append_assoc, append-nil,
}
use toolx_cpp.Cfgx.Error.{ok}
use toolx_cpp.Cfgx.Path.{
  PathToken, key, index, size_max, more, flush, at_boundary, is_bracketed, ends_bracketed, scanned,
  scan_digits, close_index, open_bracket, after_escape, after_dot, finish, step, decimal, to_string,
  escape_chars,
}
use toolx_cpp.Cfgx.Path.Decimal.{scan_digits-decimal, decimal-head, decimal-append}
use toolx_cpp.Cfgx.Path.Run.{run, run-more}

pub ends_bracketed-append :
    (out : List PathToken) (t : PathToken)
    → is_bracketed t ≡ true
    → ends_bracketed (out ++ t ∷ []) ≡ true
unfolding ends_bracketed
ends_bracketed-append [] t h = h
ends_bracketed-append (u ∷ []) t h = h
ends_bracketed-append (u ∷ v ∷ out) t h = ends_bracketed-append (v ∷ out) t h

pub finish-ok : (ts : List PathToken) → ts ≢ [] → finish ts ≡ ok ts
unfolding finish
finish-ok [] h = absurd (h refl)
finish-ok (t ∷ ts) h = refl

after_dot_lem :
    (i : ℕ) (out : List PathToken) (cur : Bytes) (d : ℕ) (s : Bytes)
    → (cur ≡ [] → ends_bracketed out ≡ true)
    → after_dot (d ∷ s) i out cur ≡ more (d ∷ s) (i + 1) (flush out cur) []
unfolding after_dot
after_dot_lem i out [] d s h = unfold flush in rw (h refl)
after_dot_lem i out (b ∷ t) d s h = refl

open_bracket-digit :
    (c : ℕ) (r : Bytes) (i : ℕ) (out : List PathToken)
    → c ≤ b'9'
    → open_bracket (c ∷ r) i out ≡ close_index out i (scan_digits (c ∷ r) i 0)
unfolding open_bracket
open_bracket-digit c r i out h = ground arith

scan_digits-bracket : (s : Bytes) (i n : ℕ) → scan_digits (b']' ∷ s) i n ≡ scanned (b']' ∷ s) i n
unfolding scan_digits
scan_digits-bracket s i n = refl

close_index_lem :
    (i k n : ℕ) (s : Bytes) (out : List PathToken)
    → 0 < k
    → at_boundary s ≡ true
    → close_index out i (scanned (b']' ∷ s) (i + k) n) ≡ more s (i + k + 1) (out ++ index n ∷ []) []
unfolding close_index
close_index_lem i k n s out p b = ground arith

to_string-append : (n : ℕ) (s : Bytes) → to_string n ++ s ≡ decimal 20 n s
unfolding to_string
to_string-append n s = sym (decimal-append 20 n s)

-- A number in brackets.
open_bracket-index :
    (i : ℕ) (out : List PathToken) (n : ℕ) (s : Bytes)
    → n ≤ size_max
    → at_boundary s ≡ true
    → (j : ℕ) × (open_bracket (to_string n ++ b']' ∷ s) i out ≡ more s j (out ++ index n ∷ []) [])
open_bracket-index i out n s h b =
    let (k, p, e) = scan_digits-decimal 19 n (b']' ∷ s) i (omega arith) h in
    let (c, r, q, lo, hi) = decimal-head 19 n (b']' ∷ s) in
    (
      i + k + 1,
      rw (to_string-append, q, open_bracket-digit c r i out hi, ← q, e, scan_digits-bracket)
          (close_index_lem i k n s out p b),
    )

-- The rounds of the loop on well formed pieces of a path.
module _ (i : ℕ) (out : List PathToken) (cur : Bytes) where
  run_char :
      (c : ℕ) (s : Bytes)
      → (c == b'\\' || (c == b'.' || (c == b'[' || c == b']'))) ≡ false
      → run (c ∷ s) i out cur ≡ run s (i + 1) out (cur ++ c ∷ [])
  run_char c s h = run-more (c ∷ s) i out cur (unfold step in ground arith)

  run_escaped :
      (d : ℕ) (s : Bytes) → run (b'\\' ∷ d ∷ s) i out cur ≡ run s (i + 2) out (cur ++ d ∷ [])
  run_escaped d s = run-more _ i out cur (unfold step after_escape in refl)

  pub run_empty_key :
      (s : Bytes)
      → at_boundary s ≡ true
      → run (b'[' ∷ b']' ∷ s) i out cur ≡ run s (i + 1 + 1) (flush out cur ++ key [] ∷ []) []
  run_empty_key s h = run-more _ i out cur (unfold step open_bracket in rw h)

  pub run_dot :
      (s : Bytes)
      → s ≢ []
      → (cur ≡ [] → ends_bracketed out ≡ true)
      → run (b'.' ∷ s) i out cur ≡ run s (i + 1) (flush out cur) []
  run_dot [] ne h = absurd (ne refl)
  run_dot (d ∷ s) ne h = run-more _ i out cur (unfold step in after_dot_lem i out cur d s h)

  pub run_index :
      (n : ℕ) (s : Bytes)
      → n ≤ size_max
      → at_boundary s ≡ true
      → (j : ℕ) × (run (b'[' ∷ to_string n ++ b']' ∷ s) i out cur
          ≡ run s j (flush out cur ++ index n ∷ []) [])
  run_index n s h b =
      let (j, e) = open_bracket-index (i + 1) (flush out cur) n s h b in
      (j, run-more _ i out cur (unfold step in e))

module _ (c : ℕ) (k s : Bytes) where
  abbrev pub special : Bool
  special = c == b'\\' || (c == b'.' || (c == b'[' || c == b']'))

  pub escape_special : special ≡ true → escape_chars (c ∷ k) ++ s ≡ b'\\' ∷ c ∷ escape_chars k ++ s
  unfolding escape_chars
  escape_special h = rw h

  pub escape_plain : special ≡ false → escape_chars (c ∷ k) ++ s ≡ c ∷ escape_chars k ++ s
  unfolding escape_chars
  escape_plain h = rw h

-- The characters of a key, each behind a backslash if it has a meaning in a path.
pub run-escape_chars :
    (k s : Bytes) (i : ℕ) (out : List PathToken) (cur : Bytes)
    → (j : ℕ) × (run (escape_chars k ++ s) i out cur ≡ run s j out (cur ++ k))
run-escape_chars [] s i out cur = (i, unfold escape_chars in rw append-nil)
run-escape_chars (c ∷ k) s i out cur = elim (Bool-cases (special c k s)) [
  | inl h ↦
      let (j, e) = run-escape_chars k s (i + 2) out (cur ++ c ∷ []) in
      (j, rw (escape_special c k s h, run_escaped i out cur c _, e, append_assoc))
  | inr h ↦
      let (j, e) = run-escape_chars k s (i + 1) out (cur ++ c ∷ []) in
      (j, rw (escape_plain c k s h, run_char i out cur c _ h, e, append_assoc))
]
