-- ===== src/Cfgx/Json/Number.antt =====
-- Numbers: `ParseNumber` of `JsonParser`, with `std::from_chars` into a 64-bit integer, and the text
-- of an integer.
pub mod RoundTrip
use toolx_cpp.Prelude.{
  ℕ, zero, suc, ◌+◌, ◌-◌, ◌*◌, ◌^◌, Bool, true, false, not, ◌&&◌, ◌||◌, [], ◌∷◌, ◌++◌, Bytes,
  Option, none, some, ltb, leb, ◌==◌, if◌then◌else◌,
}
use toolx_cpp.Prelude.Int.{ℤ, pos, negsuc}
use toolx_cpp.Cfgx.Path.{to_string}
use toolx_cpp.Cfgx.Node.{Node, integer, double}
use toolx_cpp.Cfgx.Json.Cursor.{
  Place, move, Parsed, parsed, failed, invalid_number, invalid_integer, unrepresentable,
}

abbrev pub is_digit : ℕ → Bool
is_digit c = leb b'0' c && leb c b'9'

unfoldable pub is_number_char : ℕ → Bool
is_number_char c =
    is_digit c || (c == b'-' || (c == b'+' || (c == b'.' || (c == b'e' || c == b'E'))))

-- The loop over the characters of a number: the token, and where it ends.
pub record Token : Type 0 where
  pub text : Bytes
  pub rest : Bytes
  pub place : Place

unfoldable pub number_token : Bytes → Place → Token
number_token [] p = record { text = []; rest = []; place = p }
number_token (c ∷ s) p =
    let t = number_token s (move p c) in
    if is_number_char c
    then record { text = c ∷ t.text; rest = t.rest; place = t.place }
    else record { text = []; rest = c ∷ s; place = p }

-- `consume_digits`: the loop, and the test that it went on.
unfoldable pub skip_digits : Bytes → Bytes
skip_digits [] = []
skip_digits (c ∷ s) = if is_digit c then skip_digits s else c ∷ s

unfoldable pub consume_digits : Bytes → Option Bytes
consume_digits [] = none
consume_digits (c ∷ s) = if is_digit c then some (skip_digits s) else none

-- The token from its cursor on, behind each part of the grammar; `none` where the number is refused.
unfoldable pub after_integer : Bytes → Option Bytes
after_integer [] = none
after_integer (c ∷ s) =
    if c == b'0' then some s else if ltb c b'1' || ltb b'9' c then none else consume_digits (c ∷ s)

unfoldable pub after_fraction : Bytes → Option Bytes
after_fraction [] = some []
after_fraction (c ∷ s) = if c == b'.' then consume_digits s else some (c ∷ s)

abbrev pub skip_sign : Bytes → Bytes
skip_sign [] = []
skip_sign (c ∷ s) = if c == b'+' || c == b'-' then s else c ∷ s

unfoldable pub after_exponent : Bytes → Option Bytes
after_exponent [] = some []
after_exponent (c ∷ s) =
    if c == b'e' || c == b'E' then consume_digits (skip_sign s) else some (c ∷ s)

abbrev pub skip_minus : Bytes → Bytes
skip_minus [] = []
skip_minus (c ∷ s) = if c == b'-' then s else c ∷ s

abbrev pub continue {ℓ} : {A : Type ℓ} → Option A → (A → Option A) → Option A
continue none f = none
continue (some a) f = f a

-- `cursor == token.size()` behind the parts.
abbrev pub is_whole : Option Bytes → Bool
is_whole none = false
is_whole (some []) = true
is_whole (some (c ∷ s)) = false

unfoldable pub is_json_number : Bytes → Bool
is_json_number token =
    is_whole (continue (continue (after_integer (skip_minus token)) after_fraction) after_exponent)

-- No `.`, `e` or `E` is found in the token.
unfoldable pub is_integer_token : Bytes → Bool
is_integer_token [] = true
is_integer_token (c ∷ s) = not (c == b'.' || (c == b'e' || c == b'E')) && is_integer_token s

-- `std::from_chars` into an int64_t on the whole token: digits behind an optional minus, in range.
unfoldable pub digits_value : Bytes → ℕ → Option ℕ
digits_value [] value = some value
digits_value (c ∷ s) value = if is_digit c then digits_value s (value * 10 + (c - b'0')) else none

abbrev pub bounded : ℕ → Option ℕ → Option ℕ
bounded bound none = none
bounded bound (some n) = if leb n bound then some n else none

abbrev pub negate : ℕ → ℤ
negate zero = pos 0
negate (suc n) = negsuc n

abbrev pub as_positive : Option ℕ → Option ℤ
as_positive none = none
as_positive (some n) = some (pos n)

abbrev pub as_negative : Option ℕ → Option ℤ
as_negative none = none
as_negative (some n) = some (negate n)

unfoldable pub int64_of_token : Bytes → Option ℤ
int64_of_token [] = none
int64_of_token (c ∷ s) =
    if c == b'-'
    then as_negative (bounded (2 ^ 63) (digits_value s 0))
    else as_positive (bounded (2 ^ 63 - 1) (digits_value (c ∷ s) 0))

-- `std::from_chars` into a double on the whole token with the test that the result is finite is the
-- argument `read_double`; a double is its 64 bits.
module _ (read_double : Bytes → Option ℕ) where
  unfoldable pub number_of_token : Bytes → Bytes → Place → Parsed Node
  number_of_token [] rest p = failed invalid_number p
  number_of_token (c ∷ s) rest p =
      if not (is_json_number (c ∷ s))
      then failed invalid_number p
      else if is_integer_token (c ∷ s)
      then elim (int64_of_token (c ∷ s)) [
        | none ↦ failed invalid_integer p
        | some z ↦ parsed (integer z) rest p
      ]
      else elim (read_double (c ∷ s)) [
        | none ↦ failed unrepresentable p
        | some d ↦ parsed (double d) rest p
      ]

  unfoldable pub parse_number : Bytes → Place → Parsed Node
  parse_number s p = let t = number_token s p in number_of_token t.text t.rest t.place

-- `oss << value` on an int64_t.
unfoldable pub int64_text : ℤ → Bytes
int64_text (pos n) = to_string n
int64_text (negsuc n) = b'-' ∷ to_string (suc n)
