-- ===== src/Cfgx/Json/Text.antt =====
-- String literals: `ParseStringLiteral` with `ReadUnicodeQuad`, and `EscapeJsonString`.
pub mod RoundTrip
pub mod Fuel
use toolx_cpp.Prelude.{
  ℕ, zero, suc, ◌+◌, ◌-◌, ◌*◌, ◌/◌, ◌%◌, ◌^◌, Bool, not, ◌&&◌, ◌||◌, [], ◌∷◌, ◌++◌, Bytes, Option,
  none, some, ltb, leb, ◌==◌, if◌then◌else◌, length, codes, bit_and, bit_or,
}
use toolx_cpp.Cfgx.Json.Cursor.{
  Place, move, Parsed, parsed, failed, spent, ◌>>=◌, JsonReason, expected_string,
  unterminated_string, unescaped_control, unterminated_escape, unsupported_escape, invalid_unicode,
  missing_low, invalid_low, unexpected_low,
}

unfoldable pub quad_digit : ℕ → Option ℕ
quad_digit c =
    if leb b'0' c && leb c b'9'
    then some (c - b'0')
    else if leb b'a' c && leb c b'f'
    then some (10 + c - b'a')
    else if leb b'A' c && leb c b'F'
    then some (10 + c - b'A')
    else none

-- `ReadUnicodeQuad`, and its loop with the rounds left and the code so far.
pub data Quad : Type 0 where
  quad : ℕ → (rest : Bytes) → Place → Quad
  no_quad : Place → Quad

unfoldable pub read_digits : ℕ → ℕ → Bytes → Place → Quad
read_digits zero code s p = quad code s p
read_digits (suc n) code [] p = no_quad p
read_digits (suc n) code (c ∷ s) p = elim (quad_digit c) [
  | none ↦ no_quad (move p c)
  | some d ↦ read_digits n ((code * 2 ^ 4 + d) % 2 ^ 32) s (move p c)
]

unfoldable pub read_quad : Bytes → Place → Quad
read_quad s p = if ltb (length s) 4 then no_quad p else read_digits 4 0 s p

-- Behind the quad of a high surrogate.
unfoldable pub low_surrogate : ℕ → Bytes → Place → Parsed ℕ
low_surrogate code [] p = failed missing_low p
low_surrogate code (c ∷ []) p = failed missing_low p
low_surrogate code (c ∷ d ∷ s) p =
    if not (c == b'\\') || not (d == b'u')
    then failed missing_low p
    else elim (read_quad s (move (move p c) d)) [
      | no_quad q ↦ failed invalid_low q
      | quad low t q ↦
          if ltb low 0xdc00 || ltb 0xdfff low
          then failed invalid_low q
          else parsed (0x10000 + (code - 0xd800) * 2 ^ 10 + (low - 0xdc00)) t q
    ]

-- Behind a `\u`.
unfoldable pub unicode_escape : Bytes → Place → Parsed ℕ
unicode_escape s p = elim (read_quad s p) [
  | no_quad q ↦ failed invalid_unicode q
  | quad code t q ↦
      if leb 0xd800 code && leb code 0xdbff
      then low_surrogate code t q
      else if leb 0xdc00 code && leb code 0xdfff
      then failed unexpected_low q
      else parsed code t q
]

-- `static_cast<char>(mark | ((code >> k) & 0x3f))`.
abbrev pub continuation : ℕ → ℕ → ℕ
continuation code k = bit_or 0x80 (bit_and (code / 2 ^ k) 0x3f) % 2 ^ 8

unfoldable pub utf8_bytes : ℕ → Bytes
utf8_bytes code =
    if leb code 0x7f
    then code % 2 ^ 8 ∷ []
    else if leb code 0x7ff
    then bit_or 0xc0 (code / 2 ^ 6) % 2 ^ 8 ∷ continuation code 0 ∷ []
    else if leb code 0xffff
    then bit_or 0xe0 (code / 2 ^ 12) % 2 ^ 8 ∷ continuation code 6 ∷ continuation code 0 ∷ []
    else bit_or 0xf0 (code / 2 ^ 18) % 2 ^ 8
      ∷ continuation code 12
      ∷ continuation code 6
      ∷ continuation code 0
      ∷ []

unfoldable pub simple_escape : ℕ → Option ℕ
simple_escape e =
    if e == b'"' || (e == b'\\' || e == b'/')
    then some e
    else if e == b'b'
    then some 8
    else if e == b'f'
    then some 12
    else if e == b'n'
    then some 10
    else if e == b'r'
    then some 13
    else if e == b't'
    then some 9
    else none

-- What an escape appends, behind its backslash.
unfoldable pub escape_bytes : Bytes → Place → Parsed Bytes
escape_bytes [] p = failed unterminated_escape p
escape_bytes (e ∷ s) p =
    if e == b'u'
    then unicode_escape s (move p e) >>= (λ code t q. parsed (utf8_bytes code) t q)
    else elim (simple_escape e) [
      | none ↦ failed unsupported_escape (move p e)
      | some b ↦ parsed (b ∷ []) s (move p e)
    ]

-- One round of the loop of `ParseStringLiteral`.
pub data StringStep : Type 0 where
  closed : (rest : Bytes) → Place → StringStep
  appends : Parsed Bytes → StringStep

unfoldable pub string_step : ℕ → Bytes → Place → StringStep
string_step c s p =
    if c == b'"'
    then closed s p
    else if not (c == b'\\')
    then (if ltb c 0x20
        then appends (failed unescaped_control p)
        else appends (parsed (c ∷ []) s p))
    else appends (escape_bytes s p)

unfoldable pub string_loop : ℕ → Bytes → Place → Bytes → Parsed Bytes
string_loop zero s p out = spent
string_loop (suc fuel) [] p out = failed unterminated_string p
string_loop (suc fuel) (c ∷ s) p out = elim (string_step c s (move p c)) [
  | closed t q ↦ parsed out t q
  | appends r ↦ r >>= (λ b t q. string_loop fuel t q (out ++ b))
]

unfoldable pub parse_string : Bytes → Place → Parsed Bytes
parse_string [] p = failed expected_string p
parse_string (c ∷ s) p =
    if not (c == b'"')
    then failed expected_string p
    else string_loop (suc (length s)) s (move p c) []

-- `EscapeJsonString`, with the character table of its hexadecimal digits.
unfoldable pub hex_digit : ℕ → ℕ
hex_digit d = if ltb d 10 then b'0' + d else b'a' + (d - 10)

unfoldable pub escape_char : ℕ → Bytes
escape_char c =
    if c == b'"'
    then b'\\' ∷ b'"' ∷ []
    else if c == b'\\'
    then b'\\' ∷ b'\\' ∷ []
    else if c == 10
    then b'\\' ∷ b'n' ∷ []
    else if c == 13
    then b'\\' ∷ b'r' ∷ []
    else if c == 9
    then b'\\' ∷ b't' ∷ []
    else if c == 8
    then b'\\' ∷ b'b' ∷ []
    else if c == 12
    then b'\\' ∷ b'f' ∷ []
    else if ltb c 0x20
    then b'\\' ∷ b'u' ∷ b'0' ∷ b'0' ∷ hex_digit (c / 2 ^ 4) ∷ hex_digit (bit_and c 0x0f) ∷ []
    else c ∷ []

unfoldable pub escape_json : Bytes → Bytes
escape_json [] = []
escape_json (c ∷ s) = escape_char c ++ escape_json s
