-- ===== src/TextCodec/Tests.antt =====
-- The codecs of src/textcodec.cpp on concrete bytes and texts.
use toolx_cpp.Prelude.{
  ◌≤◌, ◌≡◌, map, refl, true, false, [], ◌∷◌, Bytes, IsByte, All, codes, length, arith,
}
use toolx_cpp.TextCodec.{decoded, hex_value, join_nibbles}
use toolx_cpp.TextCodec.Hex.{hex_encode, hex_decode, hex_loop, hex_decode_to_buffer}
use toolx_cpp.TextCodec.Hex.Laws.{hex_decode-hex_encode, hex_decode_to_buffer-Written, Written}
use toolx_cpp.TextCodec.Base64.{url_safe, Base64Options, base64_encode, base64_decode}
use toolx_cpp.TextCodec.Base64.RoundTrip.{base64_decode-base64_encode}
use toolx_cpp.TextCodec.Url.{plus, plus_as_space, preserve_plus, url_encode, url_decode}
use toolx_cpp.TextCodec.Url.Laws.{url_decode-url_encode, url_decode_iff, WellEncoded, seen}

abbrev bytes : Bytes
bytes = 0 ∷ b' ' ∷ b'+' ∷ 255 ∷ []

bytes-IsByte : All IsByte bytes
bytes-IsByte = (omega arith, (omega arith, (omega arith, (omega arith, tt))))

abbrev unpadded : Base64Options
unpadded = record { variant = url_safe; padding = false }

hex_decode-hex_encode_example : hex_decode (hex_encode bytes true) ≡ decoded bytes
hex_decode-hex_encode_example = hex_decode-hex_encode bytes true bytes-IsByte

base64_decode-base64_encode_example :
    base64_decode unpadded (base64_encode unpadded bytes) ≡ decoded bytes
base64_decode-base64_encode_example = base64_decode-base64_encode unpadded bytes bytes-IsByte

url_decode-url_encode_example :
    url_decode (url_encode bytes plus) plus_as_space ≡ decoded (map (seen plus plus_as_space) bytes)
url_decode-url_encode_example = url_decode-url_encode bytes plus plus_as_space bytes-IsByte

abbrev escape : Bytes
escape = codes "a%2B"

url_decode_iff_example :
    (((w : Bytes) × (url_decode escape preserve_plus ≡ decoded w)) → WellEncoded escape)
    × (WellEncoded escape
        → (w : Bytes) × (url_decode escape preserve_plus ≡ decoded w) × (length w ≤ length escape))
url_decode_iff_example = url_decode_iff escape preserve_plus

hex_decode_ab : hex_decode (codes "aB") ≡ decoded (0xab ∷ [])
unfolding hex_decode hex_loop hex_value join_nibbles
hex_decode_ab = refl

hex_decode_to_buffer-Written_example :
    Written (codes "aB") bytes (hex_decode_to_buffer (codes "aB") bytes)
hex_decode_to_buffer-Written_example = hex_decode_to_buffer-Written (codes "aB") bytes
