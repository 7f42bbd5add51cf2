-- ===== src/Cfgx/Json/Number/RoundTrip.antt =====
-- `ParseNumber` reads the text of a 64-bit integer.
use toolx_cpp.Prelude.{
  ℕ, zero, suc, ◌+◌, ◌-◌, ◌*◌, ◌/◌, ◌%◌, ◌^◌, ◌<◌, ◌≤◌, ◌≡◌, refl, ◌∙◌, arith, true, false, ◌||◌,
  [], ◌∷◌, ◌++◌, Bytes, All, Option, none, some, inl, inr, Bool-cases, ltb, leb, ◌==◌,
}
use toolx_cpp.Prelude.Int.{ℤ, pos, negsuc}
use toolx_cpp.Cfgx.Path.{decimal, to_string}
use toolx_cpp.Cfgx.Path.Decimal.{decimal_last, decimal_more}
use toolx_cpp.Cfgx.Node.{integer}
use toolx_cpp.Cfgx.Json.Cursor.{Place, move, parsed}
use toolx_cpp.Cfgx.Json.Number.{
  is_digit, is_number_char, number_token, skip_digits, consume_digits, after_integer,
  after_fraction, after_exponent, continue, is_json_number, is_integer_token, digits_value,
  int64_of_token, number_of_token, parse_number, int64_text,
}
use native.Mathlib.Nat.{pow-suc}

abbrev IsDigit : ℕ → Type 0
IsDigit c = is_digit c ≡ true

-- One digit more.
digits_value_step :
    (out : Bytes) (d v : ℕ)
    → d < 10
    → digits_value ((b'0' + d) ∷ out) v ≡ digits_value out (v * 10 + d)
unfolding digits_value
digits_value_step out d v h =
    let digit : is_digit (b'0' + d) ≡ true = ground arith in
    let value : b'0' + d - b'0' ≡ d = omega arith in rw (digit, value)

digits_value-last :
    (f n : ℕ) (out : Bytes) → n < 10 → digits_value (decimal (suc f) n out) 0 ≡ digits_value out n
digits_value-last f n out h =
    let value : 0 * 10 + n ≡ n = omega arith in
    rw (decimal_last f n out h, digits_value_step out n 0 h, value)

digits_value-decimal :
    (f n : ℕ) (out : Bytes)
    → n < 10 ^ suc f
    → digits_value (decimal (suc f) n out) 0 ≡ digits_value out n
digits_value-decimal zero n out h = digits_value-last 0 n out (omega arith)
digits_value-decimal (suc f) n out h = elim (Bool-cases (ltb n 10)) [
  | inl small ↦ digits_value-last (suc f) n out (ground arith)
  | inr big ↦
      let value : n / 10 * 10 + n % 10 ≡ n = omega arith in
      rw (
        decimal_more (suc f) n out (ground arith),
        digits_value-decimal f (n / 10) ((b'0' + n % 10) ∷ out) (omega (arith, pow-suc 10 (suc f))),
        digits_value_step out (n % 10) (n / 10) (omega arith),
        value,
      )
]

decimal-digits : (f n : ℕ) (out : Bytes) → All IsDigit out → All IsDigit (decimal f n out)
decimal-digits zero n out h = unfold decimal in h
decimal-digits (suc f) n out h = elim (Bool-cases (ltb n 10)) [
  | inl small ↦ rw (decimal_last f n out (ground arith)) (ground arith, h)
  | inr big ↦
      rw (decimal_more f n out (ground arith)) (decimal-digits f (n / 10) _ (ground arith, h))
]

-- A positive number starts with no zero.
decimal-leading :
    (f n : ℕ) (out : Bytes)
    → 0 < n
    → n < 10 ^ suc f
    → (c : ℕ) × (s : Bytes) × (decimal (suc f) n out ≡ c ∷ s) × (b'1' ≤ c) × (c ≤ b'9')
decimal-leading zero n out lo hi =
    (b'0' + n, out, decimal_last 0 n out (omega arith), omega arith, omega arith)
decimal-leading (suc f) n out lo hi = elim (Bool-cases (ltb n 10)) [
  | inl small ↦
      (b'0' + n, out, decimal_last (suc f) n out (ground arith), omega arith, ground arith)
  | inr big ↦
      let (c, s, e, a, b) =
        decimal-leading f (n / 10) ((b'0' + n % 10) ∷ out) (ground arith)
          (omega (arith, pow-suc 10 (suc f))) in
      (c, s, decimal_more (suc f) n out (ground arith) ∙ e, a, b)
]

-- The text of a number within the range of an int64_t, behind its sign.
record IsNatural (t : Bytes) (n : ℕ) : Type 0 where
  digits : All IsDigit t
  value : digits_value t 0 ≡ some n
  grammar : after_integer t ≡ some []

skip_digits-all : (t : Bytes) → All IsDigit t → skip_digits t ≡ []
unfolding skip_digits
skip_digits-all [] h = refl
skip_digits-all (c ∷ t) (hc, ht) = rw (hc, skip_digits-all t ht)

after_integer-leading :
    (c : ℕ) (s : Bytes) → All IsDigit (c ∷ s) → b'1' ≤ c → after_integer (c ∷ s) ≡ some []
unfolding after_integer consume_digits
after_integer-leading c s (hc, hs) lo =
    let not_zero : (c == b'0') ≡ false = ground arith in
    let in_range : (ltb c b'1' || ltb b'9' c) ≡ false = ground arith in
    rw (not_zero, in_range, hc, skip_digits-all s hs)

to_string-IsNatural : (n : ℕ) → n ≤ 2 ^ 63 → IsNatural (to_string n) n
unfolding to_string
to_string-IsNatural n h = record {
  digits = decimal-digits 20 n [] tt;
  value = digits_value-decimal 19 n [] (omega arith) ∙ (unfold digits_value in refl);
  grammar = grammar_of n h;
}
  where
    grammar_of : (m : ℕ) → m ≤ 2 ^ 63 → after_integer (decimal 20 m []) ≡ some []
    grammar_of zero k = unfold decimal after_integer in refl
    grammar_of (suc m) k =
        let (c, s, e, lo, hi) = decimal-leading 19 (suc m) [] (omega arith) (omega arith) in
        let digits = decimal-digits 20 (suc m) [] tt in
        rw e (after_integer-leading c s (rw e at digits) lo)

-- Text that goes on with no character of a number.
abbrev pub Ends : Bytes → Type 0
Ends [] = Unit {0}
Ends (c ∷ s) = is_number_char c ≡ false

pub number_token-split :
    (t rest : Bytes) (p : Place)
    → All (λ c. is_number_char c ≡ true) t
    → Ends rest
    → (q : Place) × (number_token (t ++ rest) p ≡ record { text = t; rest = rest; place = q })
unfolding number_token
number_token-split [] [] p h e = (p, refl)
number_token-split [] (c ∷ s) p h e = (p, rw e)
number_token-split (c ∷ t) rest p (hc, ht) e =
    let (q, f) = number_token-split t rest (move p c) ht e in (q, rw (hc, f))

digit_is_number_char : (t : Bytes) → All IsDigit t → All (λ c. is_number_char c ≡ true) t
unfolding is_number_char
digit_is_number_char [] h = tt
digit_is_number_char (c ∷ t) (hc, ht) = (rw hc, digit_is_number_char t ht)

is_integer_token-digits : (t : Bytes) → All IsDigit t → is_integer_token t ≡ true
unfolding is_integer_token
is_integer_token-digits [] h = refl
is_integer_token-digits (c ∷ t) (hc, ht) =
    let not_mark : (c == b'.' || (c == b'e' || c == b'E')) ≡ false = ground arith in
    rw (not_mark, is_integer_token-digits t ht)

digit-ne_minus : (c : ℕ) → IsDigit c → (c == b'-') ≡ false
digit-ne_minus c h = ground arith

not_empty : after_integer [] ≡ none
unfolding after_integer
not_empty = refl

-- The grammar accepts the digits, with a minus in front and without.
natural-is_json_number :
    (c : ℕ) (t : Bytes)
    → IsDigit c
    → after_integer (c ∷ t) ≡ some []
    → (is_json_number (c ∷ t) ≡ true) × (is_json_number (b'-' ∷ c ∷ t) ≡ true)
unfolding is_json_number
natural-is_json_number c t hc g =
    let end : continue (some []) after_fraction ≡ some [] = unfold after_fraction in refl in
    let stop : continue (some []) after_exponent ≡ some [] = unfold after_exponent in refl in
    (rw (digit-ne_minus c hc, g, end, stop), rw (g, end, stop))

-- An int64_t.
abbrev pub InRange : ℤ → Type 0
InRange (pos n) = n ≤ 2 ^ 63 - 1
InRange (negsuc n) = suc n ≤ 2 ^ 63

module _ (read_double : Bytes → Option ℕ) where
  natural_token :
      (t : Bytes) (n : ℕ) (rest : Bytes) (p : Place)
      → IsNatural t n
      → n ≤ 2 ^ 63 - 1
      → number_of_token read_double t rest p ≡ parsed (integer (pos n)) rest p
  unfolding number_of_token int64_of_token
  natural_token [] n rest p i h = cc (not_empty, i.grammar)
  natural_token (c ∷ t) n rest p i h =
      let (hc, ht) = i.digits in
      let fits : leb n (2 ^ 63 - 1) ≡ true = ground arith in
      rw (
        (natural-is_json_number c t hc i.grammar).0,
        is_integer_token-digits (c ∷ t) (hc, ht),
        digit-ne_minus c hc,
        i.value,
        fits,
      )

  negative_token :
      (t : Bytes) (n : ℕ) (rest : Bytes) (p : Place)
      → IsNatural t (suc n)
      → suc n ≤ 2 ^ 63
      → number_of_token read_double (b'-' ∷ t) rest p ≡ parsed (integer (negsuc n)) rest p
  unfolding number_of_token int64_of_token
  negative_token [] n rest p i h = cc (not_empty, i.grammar)
  negative_token (c ∷ t) n rest p i h =
      let (hc, ht) = i.digits in
      let fits : leb (suc n) (2 ^ 63) ≡ true = ground arith in
      let token : is_integer_token (b'-' ∷ c ∷ t) ≡ true =
        unfold is_integer_token in is_integer_token-digits (c ∷ t) (hc, ht) in
      rw ((natural-is_json_number c t hc i.grammar).1, token, i.value, fits)

  pub parse_number-int64_text :
      (z : ℤ) (rest : Bytes) (p : Place)
      → InRange z
      → Ends rest
      → (q : Place) × (parse_number read_double (int64_text z ++ rest) p
          ≡ parsed (integer z) rest q)
  unfolding parse_number int64_text
  parse_number-int64_text (pos n) rest p h e =
      let i = to_string-IsNatural n (omega arith) in
      let (q, f) = number_token-split (to_string n) rest p (digit_is_number_char _ i.digits) e in
      (q, rw f (natural_token (to_string n) n rest q i h))
  parse_number-int64_text (negsuc n) rest p h e =
      let i = to_string-IsNatural (suc n) h in
      let minus : is_number_char b'-' ≡ true = unfold is_number_char in refl in
      let (q, f) =
        number_token-split (b'-' ∷ to_string (suc n)) rest p
          (minus, digit_is_number_char _ i.digits) e in
      (q, rw f (negative_token (to_string (suc n)) n rest q i h))
