-- ===== src/TextCodec/Defs.antt =====
-- The types of include/textcodec.h, and the helpers at the top of src/textcodec.cpp.
use toolx_cpp.Prelude.{
  ℕ, ◌+◌, ◌-◌, ◌*◌, ◌/◌, ◌%◌, ◌^◌, ◌<◌, ◌≡◌, arith, Bool, true, ◌&&◌, ◌||◌, Option, none, some,
  ◌++◌, Bytes, IsByte, codes, String, ltb, leb, ◌==◌, if◌then◌else◌, bit_and, bit_or,
}
use toolx_cpp.Prelude.Bits.{bit_and_0f, bit_or_shift}

pub data DecodeError : Type 0 where
  no_error invalid_character invalid_padding truncated_input : DecodeError
  invalid_percent_encoding policy_conflict out_of_range : DecodeError

-- A result with `ok` set holds the value; one without holds the code and the error's text.
pub data DecodeResult {ℓ} (A : Type ℓ) : Type ℓ where
  decoded : A → DecodeResult A
  failed : DecodeError → Bytes → DecodeResult A

-- `utils::err::join_context`.
pub join_context : Bytes → Bytes → Bytes → Bytes
join_context scope key reason =
    codes "[scope=" ++ (scope ++ (codes "] [key=" ++ (key ++ (codes "] " ++ reason))))

-- The text of the error that `make_error` builds.
unfoldable pub error_text : String → String → Bytes
unfolding join_context
error_text key reason = join_context (codes "textcodec") (codes key) (codes reason)

abbrev pub make_error {ℓ} : {A : Type ℓ} → DecodeError → String → String → DecodeResult A
make_error code key reason = failed code (error_text key reason)

-- The code that a caller reads; `None` on success.
abbrev pub code {ℓ} : {A : Type ℓ} → DecodeResult A → DecodeError
code (decoded v) = no_error
code (failed e t) = e

unfoldable pub is_unreserved : ℕ → Bool
is_unreserved c =
    if leb b'A' c && leb c b'Z'
    then true
    else if leb b'a' c && leb c b'z'
    then true
    else if leb b'0' c && leb c b'9'
    then true
    else c == b'-' || (c == b'_' || (c == b'.' || c == b'~'))

-- The -1 of the source is `none`.
unfoldable pub hex_value : ℕ → Option ℕ
hex_value c =
    if leb b'0' c && leb c b'9'
    then some (c - b'0')
    else if leb b'a' c && leb c b'f'
    then some (10 + (c - b'a'))
    else if leb b'A' c && leb c b'F'
    then some (10 + (c - b'A'))
    else none

unfoldable pub hex_char : ℕ → Bool → ℕ
hex_char v uppercase = if ltb v 10 then b'0' + v else (if uppercase then b'A' else b'a') + (v - 10)

-- The two digits of a byte: `(b >> 4u) & 0x0Fu` and `b & 0x0Fu`.
abbrev pub high_nibble : ℕ → ℕ
high_nibble b = bit_and (b / 2 ^ 4) 0x0f

abbrev pub low_nibble : ℕ → ℕ
low_nibble b = bit_and b 0x0f

-- `static_cast<char>((hi << 4) | lo)`.
unfoldable pub join_nibbles : ℕ → ℕ → ℕ
join_nibbles hi lo = bit_or (hi * 2 ^ 4) lo % 2 ^ 8

pub to_string : DecodeError → String
to_string no_error = "None"
to_string invalid_character = "InvalidCharacter"
to_string invalid_padding = "InvalidPadding"
to_string truncated_input = "TruncatedInput"
to_string invalid_percent_encoding = "InvalidPercentEncoding"
to_string policy_conflict = "PolicyConflict"
to_string out_of_range = "OutOfRange"

-- Reading a digit that was written gives its value.
pub hex_value-hex_char : (v : ℕ) (u : Bool) → v < 16 → hex_value (hex_char v u) ≡ some v
unfolding hex_value hex_char
hex_value-hex_char v u h = ground arith

pub hex_value-lt : (c v : ℕ) → hex_value c ≡ some v → v < 16
unfolding hex_value
hex_value-lt c v h = ground arith

pub nibbles_lt : (b : ℕ) → (high_nibble b < 16) × (low_nibble b < 16)
nibbles_lt b = omega (arith, bit_and_0f (b / 16), bit_and_0f b)

pub join_nibbles_value : (hi lo : ℕ) → hi < 16 → lo < 16 → join_nibbles hi lo ≡ hi * 16 + lo
unfolding join_nibbles
join_nibbles_value hi lo h k = omega (arith, bit_or_shift 4 hi lo k)

-- Splitting a byte and joining the parts gives the byte back.
pub join_nibbles_split : (b : ℕ) → IsByte b → join_nibbles (high_nibble b) (low_nibble b) ≡ b
join_nibbles_split b h =
    let (p, q) = nibbles_lt b in
    omega (arith, join_nibbles_value _ _ p q, bit_and_0f (b / 16), bit_and_0f b)
