-- ===== src/Cfgx/Json/Text/Fuel.antt =====
-- The loop of `ParseStringLiteral` of src/cfgx.cpp, on every text.
use toolx_cpp.Prelude.{
  ℕ, zero, suc, ◌+◌, ◌-◌, ◌*◌, ◌%◌, ◌^◌, ◌<◌, ◌≤◌, arith, Bool, true, false, not, ◌&&◌, ◌||◌, [],
  ◌∷◌, ◌++◌, Bytes, Option, none, some, Bool-cases, inl, inr, ◌==◌, ltb, leb, if◌then◌else◌, length,
}
use toolx_cpp.Cfgx.Json.Cursor.{
  Place, move, parsed, failed, ◌>>=◌, invalid_low, unexpected_low, invalid_unicode,
  unsupported_escape, unescaped_control,
}
use toolx_cpp.Cfgx.Json.Text.{
  quad_digit, Quad, quad, no_quad, read_digits, read_quad, low_surrogate, unicode_escape,
  simple_escape, escape_bytes, StringStep, closed, appends, string_step, string_loop, parse_string,
}
use toolx_cpp.Cfgx.Json.Within.{Within, Within-if, Within-bind}

abbrev QuadWithin : ℕ → Quad → Type 0
QuadWithin n (quad code t q) = length t ≤ n
QuadWithin n (no_quad q) = Unit {0}

read_digits-Within :
    (k code : ℕ) (s : Bytes) (p : Place) (n : ℕ)
    → length s ≤ n
    → QuadWithin n (read_digits k code s p)
unfolding read_digits
read_digits-Within zero code s p n h = h
read_digits-Within (suc k) code [] p n h = tt
read_digits-Within (suc k) code (c ∷ s) p n h =
    digit (quad_digit c) (λ d. read_digits-Within k _ s (move p c) n (omega arith))
  where
    digit :
        (o : Option ℕ)
        → ((d : ℕ) → QuadWithin n (read_digits k ((code * 2 ^ 4 + d) % 2 ^ 32) s (move p c)))
        → QuadWithin n (elim o [
          | none ↦ no_quad (move p c)
          | some d ↦ read_digits k ((code * 2 ^ 4 + d) % 2 ^ 32) s (move p c)
        ])
    digit none again = tt
    digit (some d) again = again d

read_quad-Within : (s : Bytes) (p : Place) → QuadWithin (length s) (read_quad s p)
unfolding read_quad
read_quad-Within s p = elim (Bool-cases (ltb (length s) 4)) [
  | inl short ↦ rw short tt
  | inr long ↦ rw long (read_digits-Within 4 0 s p (length s) (omega arith))
]

low_surrogate-Within :
    (code : ℕ) (s : Bytes) (p : Place) (n : ℕ) → length s ≤ n → Within n (low_surrogate code s p)
unfolding low_surrogate
low_surrogate-Within code [] p n h = tt
low_surrogate-Within code (c ∷ []) p n h = tt
low_surrogate-Within code (c ∷ d ∷ s) p n h =
    Within-if n (not (c == b'\\') || not (d == b'u')) _ _ tt (low _ (read_quad-Within s _))
  where
    low :
        (k : Quad)
        → QuadWithin (length s) k
        → Within n (elim k [
          | no_quad q ↦ failed invalid_low q
          | quad low t q ↦
              if ltb low 0xdc00 || ltb 0xdfff low
              then failed invalid_low q
              else parsed (0x10000 + (code - 0xd800) * 2 ^ 10 + (low - 0xdc00)) t q
        ])
    low (no_quad q) w = tt
    low (quad v t q) w = Within-if n (ltb v 0xdc00 || ltb 0xdfff v) _ _ tt (omega arith)

unicode_escape-Within : (s : Bytes) (p : Place) → Within (length s) (unicode_escape s p)
unfolding unicode_escape
unicode_escape-Within s p = high (read_quad s p) (read_quad-Within s p)
  where
    high :
        (k : Quad)
        → QuadWithin (length s) k
        → Within (length s) (elim k [
          | no_quad q ↦ failed invalid_unicode q
          | quad code t q ↦
              if leb 0xd800 code && leb code 0xdbff
              then low_surrogate code t q
              else if leb 0xdc00 code && leb code 0xdfff
              then failed unexpected_low q
              else parsed code t q
        ])
    high (no_quad q) w = tt
    high (quad v t q) w =
        Within-if (length s) (leb 0xd800 v && leb v 0xdbff) _ _ (low_surrogate-Within v t q _ w)
          (Within-if (length s) (leb 0xdc00 v && leb v 0xdfff) _ _ tt w)

escape_bytes-Within : (s : Bytes) (p : Place) → Within (length s) (escape_bytes s p)
unfolding escape_bytes
escape_bytes-Within [] p = tt
escape_bytes-Within (e ∷ s) p =
    Within-if (suc (length s)) (e == b'u') _ _
      (Within-bind (length s) _ (unicode_escape s (move p e)) _ (unicode_escape-Within s _)
        (λ code t q h. omega arith))
      (simple (simple_escape e))
  where
    simple :
        (o : Option ℕ)
        → Within (suc (length s)) (elim o [
          | none ↦ failed unsupported_escape (move p e)
          | some b ↦ parsed (b ∷ []) s (move p e)
        ])
    simple none = tt
    simple (some b) = omega arith

abbrev StepWithin : ℕ → StringStep → Type 0
StepWithin n (closed t q) = length t ≤ n
StepWithin n (appends r) = Within n r

string_step-Within : (c : ℕ) (s : Bytes) (p : Place) → StepWithin (length s) (string_step c s p)
unfolding string_step
string_step-Within c s p = step (c == b'"') (not (c == b'\\')) (ltb c 0x20)
  where
    step :
        (quote plain control : Bool)
        → StepWithin (length s) (
            if quote
            then closed s p
            else if plain
            then (if control
                then appends (failed unescaped_control p)
                else appends (parsed (c ∷ []) s p))
            else appends (escape_bytes s p))
    step true plain control = omega arith
    step false true true = tt
    step false true false = omega arith
    step false false control = escape_bytes-Within s p

string_loop-Within :
    (fuel : ℕ) (s : Bytes) (p : Place) (out : Bytes) (n : ℕ)
    → length s < fuel
    → length s ≤ n
    → Within n (string_loop fuel s p out)
unfolding string_loop
string_loop-Within zero s p out n f h = absurd (omega arith)
string_loop-Within (suc fuel) [] p out n f h = tt
string_loop-Within (suc fuel) (c ∷ s) p out n f h =
    round (string_step c s (move p c)) (string_step-Within c s (move p c))
      (λ b t q k. string_loop-Within fuel t q (out ++ b) n (omega arith) (omega arith))
  where
    round :
        (step : StringStep)
        → StepWithin (length s) step
        → ((b t : Bytes) (q : Place)
            → length t ≤ length s
            → Within n (string_loop fuel t q (out ++ b)))
        → Within n (elim step [
          | closed t q ↦ parsed out t q
          | appends r ↦ r >>= (λ b t q. string_loop fuel t q (out ++ b))
        ])
    round (closed t q) w again = omega arith
    round (appends r) w again = Within-bind (length s) n r _ w again

pub parse_string-Within : (s : Bytes) (p : Place) → Within (length s - 1) (parse_string s p)
unfolding parse_string
parse_string-Within [] p = tt
parse_string-Within (c ∷ s) p =
    Within-if _ (not (c == b'"')) _ _ tt
      (string_loop-Within (suc (length s)) s (move p c) [] _ (omega arith) (omega arith))
