-- ===== src/Cfgx/Path/Decimal.antt =====
-- The digits of an index: `scan_digits` reads what `to_string` writes.
use toolx_cpp.Prelude.{
  ℕ, zero, suc, ◌+◌, ◌*◌, ◌/◌, ◌%◌, ◌^◌, ◌<◌, ◌≤◌, ◌≡◌, refl, sym, ap, ◌∙◌, arith, [], ◌∷◌, ◌++◌,
  Bytes, ltb, Bool-cases, inl, inr, append_assoc,
}
use toolx_cpp.Cfgx.Path.{size_max, scan_digits, decimal}
use native.Mathlib.Nat.{pow-suc}

-- One digit behind `value`.
scan_digit :
    (d : ℕ) (s : Bytes) (i value n : ℕ)
    → d < 10
    → value * 10 + d ≡ n
    → n ≤ size_max
    → scan_digits ((b'0' + d) ∷ s) i value ≡ scan_digits s (i + 1) n
unfolding scan_digits
scan_digit d s i value n h e fits = ground arith

module _ (f n : ℕ) (out : Bytes) where
  pub decimal_last : n < 10 → decimal (suc f) n out ≡ (b'0' + n) ∷ out
  unfolding decimal
  decimal_last h = ground arith

  pub decimal_more : 10 ≤ n → decimal (suc f) n out ≡ decimal f (n / 10) ((b'0' + n % 10) ∷ out)
  unfolding decimal
  decimal_more h = ground arith

-- The digits in front of `out` are read as `n`.
pub scan_digits-decimal :
    (f n : ℕ) (out : Bytes) (i : ℕ)
    → n < 10 ^ suc f
    → n ≤ size_max
    → (k : ℕ) × (0 < k) × (scan_digits (decimal (suc f) n out) i 0 ≡ scan_digits out (i + k) n)
scan_digits-decimal zero n out i h fits =
    (1, omega arith, rw (decimal_last 0 n out h) (scan_digit n out i 0 n h (omega arith) fits))
scan_digits-decimal (suc f) n out i h fits = elim (Bool-cases (ltb n 10)) [
  | inl small ↦
      let lt : n < 10 = ground arith in
      (
        1,
        omega arith,
        rw (decimal_last (suc f) n out lt) (scan_digit n out i 0 n lt (omega arith) fits),
      )
  | inr big ↦
      let ge : 10 ≤ n = ground arith in
      let (k, p, e) =
        scan_digits-decimal f (n / 10) ((b'0' + n % 10) ∷ out) i (omega (arith, pow-suc 10 (suc f)))
          (omega arith) in
      let shift : i + k + 1 ≡ i + (k + 1) = omega arith in
      (
        k + 1,
        omega arith,
        rw (
          decimal_more (suc f) n out ge,
          e,
          scan_digit (n % 10) out (i + k) (n / 10) n (omega arith) (omega arith) fits,
          shift,
        ),
      )
]

-- The first byte of a number is a digit.
pub decimal-head :
    (f n : ℕ) (out : Bytes)
    → (c : ℕ) × (s : Bytes) × (decimal (suc f) n out ≡ c ∷ s) × (b'0' ≤ c) × (c ≤ b'9')
decimal-head zero n out = elim (Bool-cases (ltb n 10)) [
  | inl small ↦ (b'0' + n, out, decimal_last 0 n out (ground arith), omega arith, ground arith)
  | inr big ↦ (
    b'0' + n % 10,
    out,
    rw (decimal_more 0 n out (ground arith)) (unfold decimal in refl),
    omega arith,
    omega arith,
  )
]
decimal-head (suc f) n out = elim (Bool-cases (ltb n 10)) [
  | inl small ↦
      (b'0' + n, out, decimal_last (suc f) n out (ground arith), omega arith, ground arith)
  | inr big ↦
      let (c, s, e, lo, hi) = decimal-head f (n / 10) ((b'0' + n % 10) ∷ out) in
      (c, s, rw (decimal_more (suc f) n out (ground arith)) e, lo, hi)
]

-- The digits are put in front of what is there.
pub decimal-append : (f n : ℕ) (out : Bytes) → decimal f n out ≡ decimal f n [] ++ out
decimal-append zero n out = unfold decimal in refl
decimal-append (suc f) n out = elim (Bool-cases (ltb n 10)) [
  | inl small ↦
      let lt : n < 10 = ground arith in rw (decimal_last f n out lt, decimal_last f n [] lt)
  | inr big ↦
      let ge : 10 ≤ n = ground arith in
      let d : Bytes = (b'0' + n % 10) ∷ [] in
      rw (decimal_more f n out ge, decimal_more f n [] ge)
        (decimal-append f (n / 10) (d ++ out)
          ∙ sym (append_assoc _ d out)
          ∙ ap (λ (t : Bytes). t ++ out) (sym (decimal-append f (n / 10) d)))
]
