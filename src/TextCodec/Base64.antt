-- ===== src/TextCodec/Base64.antt =====
-- Base64: `base64_encode_impl` and `base64_decode_impl` of src/textcodec.cpp.
pub mod Table
pub mod Words
pub mod RoundTrip
use toolx_cpp.Prelude.{
  ℕ, zero, suc, ◌+◌, ◌-◌, ◌*◌, ◌/◌, ◌%◌, ◌^◌, ◌==◌, Bool, true, false, ◌&&◌, ◌||◌, not, Option,
  none, some, List, [], ◌∷◌, ◌++◌, Bytes, if◌then◌else◌, codes, get_or, replicate, length, bit_and,
  bit_or, set, String,
}
use toolx_cpp.TextCodec.Defs.{
  DecodeResult, decoded, failed, DecodeError, invalid_padding, invalid_character, make_error,
}

pub data Base64Variant : Type 0 where
  standard url_safe : Base64Variant

pub record Base64Options : Type 0 where
  pub variant : Base64Variant
  pub padding : Bool

-- The default options.
abbrev pub default_options : Base64Options
default_options = record { variant = standard; padding = true }

-- The characters of the 64 digits.
pub alphabet : Base64Variant → Bytes
alphabet standard = codes "ABCDEFGHIJKLMNOPQRSTUVWXYZabcdefghijklmnopqrstuvwxyz0123456789+/"
alphabet url_safe = codes "ABCDEFGHIJKLMNOPQRSTUVWXYZabcdefghijklmnopqrstuvwxyz0123456789-_"

-- `t[chars[i]] = i` for each character; -1 is `none`.
pub fill_table : Bytes → ℕ → List (Option ℕ) → List (Option ℕ)
fill_table [] i t = t
fill_table (c ∷ chars) i t = fill_table chars (i + 1) (set t c (some i))

pub decode_table : Base64Variant → List (Option ℕ)
decode_table v = fill_table (alphabet v) 0 (replicate 256 none)

-- `table[i]` of the encoder and of the decoder.
pub digit_char : Base64Variant → ℕ → ℕ
digit_char v i = get_or (alphabet v) i 0

pub digit_value : Base64Variant → ℕ → Option ℕ
digit_value v c = get_or (decode_table v) c none

-- `x << k` on a uint32_t.
abbrev pub shl : ℕ → ℕ → ℕ
shl x k = x * 2 ^ k % 2 ^ 32

-- `(x >> k) & 0x3Fu`, a digit of the word, and `(x >> k) & 0xFFu`, a byte of it.
abbrev pub sextet : ℕ → ℕ → ℕ
sextet x k = bit_and (x / 2 ^ k) 0x3f

abbrev pub octet : ℕ → ℕ → ℕ
octet x k = bit_and (x / 2 ^ k) 0xff

-- The words of three, two and one bytes.
abbrev pub word3 : ℕ → ℕ → ℕ → ℕ
word3 b0 b1 b2 = bit_or (bit_or (shl b0 16) (shl b1 8)) b2

abbrev pub word2 : ℕ → ℕ → ℕ
word2 b0 b1 = bit_or (shl b0 16) (shl b1 8)

module _ (o : Base64Options) where
  abbrev pub char_at : ℕ → ℕ → ℕ
  char_at x k = digit_char o.variant (sextet x k)

  -- `=` where the options ask for padding.
  abbrev pub pad : Bytes → Bytes
  pad s = if o.padding then s else []

  -- The loop over full groups, and what stands behind it for the one or two bytes left.
  pub base64_encode : Bytes → Bytes
  base64_encode [] = []
  base64_encode (b0 ∷ []) =
      let x = shl b0 16 in char_at x 18 ∷ char_at x 12 ∷ pad (b'=' ∷ b'=' ∷ [])
  base64_encode (b0 ∷ b1 ∷ []) =
      let x = word2 b0 b1 in char_at x 18 ∷ char_at x 12 ∷ char_at x 6 ∷ pad (b'=' ∷ [])
  base64_encode (b0 ∷ b1 ∷ b2 ∷ s) =
      let x = word3 b0 b1 b2 in
      char_at x 18 ∷ char_at x 12 ∷ char_at x 6 ∷ char_at x 0 ∷ base64_encode s

abbrev pub bad_padding : String → DecodeResult Bytes
bad_padding reason = make_error invalid_padding "base64_decode" reason

abbrev pub bad_character : DecodeResult Bytes
bad_character = make_error invalid_character "base64_decode" "invalid base64 character"

-- One round of the decoder on a group of four characters; `last` tells whether the input ends
-- behind it. `third` and `second` are the round from the third character on, once the digits before
-- it are known.
module _ (v : Base64Variant) where
  pub third : ℕ → ℕ → ℕ → ℕ → Bool → DecodeResult Bytes
  third v0 v1 v2 c3 last =
      let x = bit_or (bit_or (shl v0 18) (shl v1 12)) (shl v2 6) in
      if c3 == b'='
      then (if not last
          then bad_padding "padding only allowed in final block"
          else decoded (octet x 16 ∷ octet x 8 ∷ []))
      else elim (digit_value v c3) [
        | none ↦ bad_character
        | some v3 ↦ let y = bit_or x v3 in decoded (octet y 16 ∷ octet y 8 ∷ octet y 0 ∷ [])
      ]

  pub second : ℕ → ℕ → ℕ → ℕ → Bool → DecodeResult Bytes
  second v0 v1 c2 c3 last =
      if c2 == b'='
      then (if not (c3 == b'=') || not last
          then bad_padding "invalid final block padding"
          else decoded (octet (bit_or (shl v0 18) (shl v1 12)) 16 ∷ []))
      else elim (digit_value v c2) [ none ↦ bad_character | some v2 ↦ third v0 v1 v2 c3 last ]

  pub decode_group : ℕ → ℕ → ℕ → ℕ → Bool → DecodeResult Bytes
  decode_group c0 c1 c2 c3 last =
      if c0 == b'=' || c1 == b'='
      then bad_padding "invalid padding position"
      else elim (digit_value v c0) [
        | none ↦ bad_character
        | some v0 ↦ elim (digit_value v c1) [
          | none ↦ bad_character
          | some v1 ↦ second v0 v1 c2 c3 last
        ]
      ]

  -- The loop; `out` is what is written so far. The caller has made the length a multiple of 4, so
  -- the clauses for fewer characters are not reached.
  pub base64_loop : Bytes → Bytes → DecodeResult Bytes
  base64_loop [] out = decoded out
  base64_loop (c0 ∷ []) out = decoded out
  base64_loop (c0 ∷ c1 ∷ []) out = decoded out
  base64_loop (c0 ∷ c1 ∷ c2 ∷ []) out = decoded out
  base64_loop (c0 ∷ c1 ∷ c2 ∷ c3 ∷ s) out = elim (decode_group c0 c1 c2 c3 (length s == 0)) [
    | failed e t ↦ failed e t
    | decoded bytes ↦ base64_loop s (out ++ bytes)
  ]

-- The padding that a text without it lacks.
abbrev pub normalize : Bytes → Bytes
normalize input =
    if length input % 4 == 0 then input else input ++ replicate (4 - length input % 4) b'='

pub base64_decode : Base64Options → Bytes → DecodeResult Bytes
base64_decode o input =
    if not o.padding
    then (if length input % 4 == 1
        then bad_padding "invalid base64 length for no-padding mode"
        else base64_loop o.variant (normalize input) [])
    else if not (length input % 4 == 0)
    then bad_padding "base64 length must be a multiple of 4"
    else base64_loop o.variant input []
