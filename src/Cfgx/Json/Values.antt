-- ===== src/Cfgx/Json/Values.antt =====
-- One JSON value as `ToJson` of src/cfgx.cpp writes it: how its text starts, and how the values that
-- hold no others are read.
use toolx_cpp.Prelude.{
  ℕ, suc, ◌≡◌, refl, sym, ap, ◌∙◌, arith, true, false, not, ◌||◌, [], ◌∷◌, ◌++◌, append-nil, Bytes,
  All, Option, some, Bool-cases, inl, inr, ◌==◌,
}
use toolx_cpp.Prelude.Int.{ℤ, pos, negsuc}
use toolx_cpp.Cfgx.Path.{to_string}
use toolx_cpp.Cfgx.Path.Decimal.{decimal-head}
use toolx_cpp.Cfgx.Node.{
  Node, null, boolean, integer, double, string, object, array, Entries, end, entry, Elements, nil,
  element,
}
use toolx_cpp.Cfgx.Json.Cursor.{Place, is_space, Parsed, parsed}
use toolx_cpp.Cfgx.Json.Number.{
  is_number_char, is_json_number, after_integer, is_integer_token, number_of_token, parse_number,
  int64_text,
}
use toolx_cpp.Cfgx.Json.Number.RoundTrip.{InRange, Ends, number_token-split}
use toolx_cpp.Cfgx.Json.Parser.{start_at, scalar, parse_value}
use toolx_cpp.Cfgx.Json.Printer.{is_finite, has_point, double_text}
use toolx_cpp.Cfgx.Json.Spaces.{Starts, skip_space-Starts}

is_integer_token-point : (s : Bytes) → is_integer_token s ≡ not (has_point s)
unfolding is_integer_token has_point
is_integer_token-point [] = refl
is_integer_token-point (c ∷ s) = ground (arith, is_integer_token-point s)

has_point-append : (s t : Bytes) → has_point (s ++ t) ≡ (has_point s || has_point t)
unfolding has_point
has_point-append [] t = refl
has_point-append (c ∷ s) t = ground (arith, has_point-append s t)

-- The texts of numbers.
pub record IsNumberText (t : Bytes) : Type 0 where
  pub head : ℕ
  pub tail : Bytes
  pub is_cons : t ≡ head ∷ tail
  pub number_char : is_number_char head ≡ true

pub int64_text-IsNumberText : (z : ℤ) → IsNumberText (int64_text z)
unfolding int64_text is_number_char
int64_text-IsNumberText (pos n) =
    let (c, s, e, lo, hi) = decimal-head 19 n [] in
    record { head = c; tail = s; is_cons = unfold to_string in e; number_char = ground arith }
int64_text-IsNumberText (negsuc n) = record {
  head = b'-';
  tail = to_string (suc n);
  is_cons = refl;
  number_char = refl;
}

no_number : is_json_number [] ≡ false
unfolding is_json_number after_integer
no_number = refl

module _ (read_double : Bytes → Option ℕ) where
  -- A character of a number starts nothing else.
  pub number_char-plain :
      (c : ℕ) (s : Bytes) (p : Place)
      → is_number_char c ≡ true
      → (is_space c ≡ false)
        × ((c == b']') ≡ false)
        × (start_at read_double (c ∷ s, p) ≡ scalar (parse_number read_double (c ∷ s) p))
  unfolding is_number_char is_space start_at
  number_char-plain c s p h = (ground arith, ground arith, ground arith)

  pub parse_value-scalar :
      (fuel : ℕ) (s : Bytes) (p : Place) {r : Parsed Node}
      → Starts s
      → start_at read_double (s, p) ≡ scalar r
      → parse_value read_double (suc fuel) (s, p) ≡ r
  unfolding parse_value
  parse_value-scalar fuel s p w h = rw (skip_space-Starts s p w, parse_value, h)

  pub parse_value-number :
      (fuel : ℕ) (t rest : Bytes) (p : Place)
      → IsNumberText t
      → parse_value read_double (suc fuel) (t ++ rest, p) ≡ parse_number read_double (t ++ rest) p
  parse_value-number fuel t rest p i =
      let (no_space, _, start) = number_char-plain i.head (i.tail ++ rest) p i.number_char in
      let same : t ++ rest ≡ i.head ∷ (i.tail ++ rest) = ap (λ u. u ++ rest) i.is_cons in
      let w : Starts (t ++ rest) = record {
        head = i.head;
        tail = i.tail ++ rest;
        is_cons = same;
        no_space = no_space;
      } in
      parse_value-scalar fuel (t ++ rest) p w (
        ap (λ u. start_at read_double (u, p)) same
        ∙ start
        ∙ ap (λ u. scalar (parse_number read_double u p)) (sym same))

module _ (show_double : ℕ → Bytes) (read_double : Bytes → Option ℕ) where
  -- What the conversions of the C++ library give for a finite double at 17 digits: a number of the
  -- JSON grammar, which is read as the same double.
  pub record ReadsBack (d : ℕ) : Type 0 where
    pub finite : is_finite d ≡ true
    pub chars : All (λ c. is_number_char c ≡ true) (double_text show_double d)
    pub grammar : is_json_number (double_text show_double d) ≡ true
    pub reads : read_double (double_text show_double d) ≡ some d

  -- Integers that an int64_t holds, and such doubles.
  unfoldable mutual
    pub IsPrintable : Node → Type 0
    IsPrintable null = Unit {0}
    IsPrintable (boolean b) = Unit {0}
    IsPrintable (integer z) = InRange z
    IsPrintable (double d) = ReadsBack d
    IsPrintable (string s) = Unit {0}
    IsPrintable (object fs) = ArePrintable fs
    IsPrintable (array xs) = AllPrintable xs

    pub ArePrintable : Entries → Type 0
    ArePrintable end = Unit {0}
    ArePrintable (entry k n fs) = IsPrintable n × ArePrintable fs

    pub AllPrintable : Elements → Type 0
    AllPrintable nil = Unit {0}
    AllPrintable (element n xs) = IsPrintable n × AllPrintable xs

  -- A double keeps a point or an exponent, so that it is not read as an integer.
  double_text-point : (d : ℕ) → is_finite d ≡ true → has_point (double_text show_double d) ≡ true
  unfolding double_text
  double_text-point d h = elim (Bool-cases (has_point (show_double d))) [
    | inl point ↦ rw (h, point, append-nil) point
    | inr no_point ↦ rw (h, no_point, has_point-append, no_point) (unfold has_point in refl)
  ]

  pub double_text-IsNumberText : (d : ℕ) → ReadsBack d → IsNumberText (double_text show_double d)
  double_text-IsNumberText d r = from_text (double_text show_double d) r.chars r.grammar
    where
      from_text :
          (t : Bytes)
          → All (λ c. is_number_char c ≡ true) t
          → is_json_number t ≡ true
          → IsNumberText t
      from_text [] h g = absurd (cc (no_number, g))
      from_text (c ∷ s) (hc, hs) g = record { head = c; tail = s; is_cons = refl; number_char = hc }

  pub parse_number-double_text :
      (d : ℕ) (rest : Bytes) (p : Place)
      → ReadsBack d
      → Ends rest
      → (q : Place) × (parse_number read_double (double_text show_double d ++ rest) p
          ≡ parsed (double d) rest q)
  unfolding parse_number number_of_token
  parse_number-double_text d rest p r e =
      let (q, f) = number_token-split (double_text show_double d) rest p r.chars e in
      let marked : is_integer_token (double_text show_double d) ≡ false =
        is_integer_token-point _ ∙ ap not (double_text-point d r.finite) in
      (q, rw f (token_read (double_text show_double d) q r.grammar marked r.reads))
    where
      token_read :
          (t : Bytes) (q : Place)
          → is_json_number t ≡ true
          → is_integer_token t ≡ false
          → read_double t ≡ some d
          → number_of_token read_double t rest q ≡ parsed (double d) rest q
      token_read [] q g m h = absurd (cc (no_number, g))
      token_read (c ∷ s) q g m h = rw (number_of_token, g, m, h)
