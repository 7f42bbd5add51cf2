-- ===== src/TextCodec/Hex.antt =====
-- Hexadecimal: `hex_encode`, `hex_decode` and `hex_decode_to_buffer` of src/textcodec.cpp.
pub mod Laws
use toolx_cpp.Prelude.{
  ℕ, ◌+◌, ◌*◌, ◌%◌, ◌/◌, ◌^◌, ◌≤◌, ◌<◌, ◌≡◌, refl, arith, Bool, true, false, Option, none, some,
  List, [], ◌∷◌, ◌++◌, Bytes, IsByte, All, length, drop, ltb, ◌==◌, if◌then◌else◌, not,
}
use toolx_cpp.TextCodec.Defs.{
  DecodeResult, decoded, failed, truncated_input, invalid_character, out_of_range, make_error, code,
  error_text, hex_value, hex_char, high_nibble, low_nibble, join_nibbles,
}

-- The loop writes two characters for each byte.
pub hex_encode : Bytes → Bool → Bytes
hex_encode [] uppercase = []
hex_encode (b ∷ s) uppercase =
    hex_char (high_nibble b) uppercase ∷ hex_char (low_nibble b) uppercase ∷ hex_encode s uppercase

-- What one round writes to the output, from the values of the two characters.
abbrev pub decode_pair : Option ℕ → Option ℕ → Option ℕ
decode_pair (some hi) (some lo) = some (join_nibbles hi lo)
decode_pair (some hi) none = none
decode_pair none lo = none

-- The loop of `hex_decode` over pairs of characters; `out` is what is written so far. The caller
-- has refused an odd length, so no character is left alone.
unfoldable pub hex_loop : Bytes → Bytes → DecodeResult Bytes
hex_loop [] out = decoded out
hex_loop (c ∷ []) out = decoded out
hex_loop (c ∷ d ∷ s) out = elim (decode_pair (hex_value c) (hex_value d)) [
  | none ↦ make_error invalid_character "hex_decode" "invalid hex character"
  | some b ↦ hex_loop s (out ++ b ∷ [])
]

unfoldable pub hex_decode : Bytes → DecodeResult Bytes
hex_decode input =
    if not (length input % 2 == 0)
    then make_error truncated_input "hex_decode" "hex input length must be even"
    else hex_loop input []

-- What the call does with the result of the decoder.
pub store : DecodeResult Bytes → Bytes → DecodeResult ℕ × Bytes
store (failed e t) buffer = (failed e t, buffer)
store (decoded value) buffer =
    if ltb (length buffer) (length value)
    then (make_error out_of_range "hex_decode_to_buffer" "output buffer too small", buffer)
    else (decoded (length value), value ++ drop (length value) buffer)

-- The result is the count of bytes written, beside the buffer as the call leaves it. `buffer` holds
-- the `out_capacity` bytes that the caller passes.
pub hex_decode_to_buffer : Bytes → Bytes → DecodeResult ℕ × Bytes
hex_decode_to_buffer input buffer = store (hex_decode input) buffer
