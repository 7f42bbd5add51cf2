-- ===== src/TextCodec/Url.antt =====
-- Percent encoding: `url_encode` and `url_decode` of src/textcodec.cpp, with the policies of
-- include/textcodec.h for spaces.
pub mod Laws
use toolx_cpp.Prelude.{
  ℕ, ◌==◌, Bool, true, false, ◌&&◌, Option, none, some, [], ◌∷◌, ◌++◌, Bytes, if◌then◌else◌,
}
use toolx_cpp.TextCodec.Defs.{
  DecodeResult, decoded, truncated_input, invalid_percent_encoding, make_error, is_unreserved,
  hex_value, hex_char, high_nibble, low_nibble,
}
use toolx_cpp.TextCodec.Hex.{decode_pair}

pub data UrlSpacePolicy : Type 0 where
  percent20 plus : UrlSpacePolicy

pub data UrlDecodePlusPolicy : Type 0 where
  preserve_plus plus_as_space : UrlDecodePlusPolicy

abbrev pub is_plus : UrlSpacePolicy → Bool
is_plus percent20 = false
is_plus plus = true

abbrev pub is_plus_as_space : UrlDecodePlusPolicy → Bool
is_plus_as_space preserve_plus = false
is_plus_as_space plus_as_space = true

-- What one round of the encoder appends.
pub encode_byte : UrlSpacePolicy → ℕ → Bytes
encode_byte policy c =
    if c == b' ' && is_plus policy
    then b'+' ∷ []
    else if is_unreserved c
    then c ∷ []
    else b'%' ∷ hex_char (high_nibble c) true ∷ hex_char (low_nibble c) true ∷ []

pub url_encode : Bytes → UrlSpacePolicy → Bytes
url_encode [] policy = []
url_encode (c ∷ s) policy = encode_byte policy c ++ url_encode s policy

-- What a character other than `%` stands for.
pub plain : UrlDecodePlusPolicy → ℕ → ℕ
plain policy c = if c == b'+' && is_plus_as_space policy then b' ' else c

abbrev pub truncated : DecodeResult Bytes
truncated = make_error truncated_input "url_decode" "truncated percent-encoding sequence"

-- The loop of the decoder; `out` is what is written so far. The last two characters cannot start
-- an escape.
pub url_loop : UrlDecodePlusPolicy → Bytes → Bytes → DecodeResult Bytes
url_loop policy [] out = decoded out
url_loop policy (c ∷ []) out = elim (c == b'%') [
  | true ↦ truncated
  | false ↦ url_loop policy [] (out ++ plain policy c ∷ [])
]
url_loop policy (c ∷ d ∷ []) out = elim (c == b'%') [
  | true ↦ truncated
  | false ↦ url_loop policy (d ∷ []) (out ++ plain policy c ∷ [])
]
url_loop policy (c ∷ d ∷ e ∷ s) out = elim (c == b'%') [
  | true ↦ elim (decode_pair (hex_value d) (hex_value e)) [
    | none ↦ make_error invalid_percent_encoding "url_decode" "invalid percent-encoding sequence"
    | some b ↦ url_loop policy s (out ++ b ∷ [])
  ]
  | false ↦ url_loop policy (d ∷ e ∷ s) (out ++ plain policy c ∷ [])
]

pub url_decode : Bytes → UrlDecodePlusPolicy → DecodeResult Bytes
url_decode input policy = url_loop policy input []
