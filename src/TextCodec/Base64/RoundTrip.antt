-- ===== src/TextCodec/Base64/RoundTrip.antt =====
-- Decoding what the Base64 encoder wrote gives the bytes back.
use toolx_cpp.Prelude.{
  ℕ, suc, ◌+◌, ◌*◌, ◌/◌, ◌%◌, ◌<◌, ◌≡◌, refl, ◌∙◌, arith, Bool, true, [], ◌∷◌, ◌++◌, append_assoc,
  append-nil, Bytes, IsByte, All, length, ◌==◌, if◌then◌else◌, Bool-cases, inl, inr,
}
use toolx_cpp.TextCodec.Defs.{decoded}
use toolx_cpp.TextCodec.Base64.{
  Base64Variant, Base64Options, digit_char, shl, sextet, octet, word2, word3, base64_encode, third,
  second, decode_group, base64_loop, normalize, base64_decode,
}
use toolx_cpp.TextCodec.Base64.Table.{digit_value-digit_char, digit_char-ne_pad}
use toolx_cpp.TextCodec.Base64.Words.{
  word2_value, word3_value, digits2_value, digits3_value, digits4_value, octet_value, sextet_value,
  sextet-lt,
}

module _ (v : Base64Variant) where
  -- A round on four digits, on three and one `=`, and on two and two `=`.
  decode_group4 :
      (v0 v1 v2 v3 : ℕ) (last : Bool)
      → v0 < 64
      → v1 < 64
      → v2 < 64
      → v3 < 64
      → let x : ℕ = (v0 * 4096 + v1 * 64 + v2) * 64 + v3 in
        decode_group v (digit_char v v0) (digit_char v v1) (digit_char v v2) (digit_char v v3) last
        ≡ decoded (octet x 16 ∷ octet x 8 ∷ octet x 0 ∷ [])
  unfolding decode_group second third
  decode_group4 v0 v1 v2 v3 last h0 h1 h2 h3 = ground (
    arith,
    digit_char-ne_pad v v0 h0,
    digit_char-ne_pad v v1 h1,
    digit_char-ne_pad v v2 h2,
    digit_char-ne_pad v v3 h3,
    digit_value-digit_char v v0 h0,
    digit_value-digit_char v v1 h1,
    digit_value-digit_char v v2 h2,
    digit_value-digit_char v v3 h3,
    digits4_value v0 v1 v2 v3 h0 h1 h2 h3,
  )

  decode_group3 :
      (v0 v1 v2 : ℕ)
      → v0 < 64
      → v1 < 64
      → v2 < 64
      → let x : ℕ = (v0 * 4096 + v1 * 64 + v2) * 64 in
        decode_group v (digit_char v v0) (digit_char v v1) (digit_char v v2) b'=' true
        ≡ decoded (octet x 16 ∷ octet x 8 ∷ [])
  unfolding decode_group second third
  decode_group3 v0 v1 v2 h0 h1 h2 = ground (
    arith,
    digit_char-ne_pad v v0 h0,
    digit_char-ne_pad v v1 h1,
    digit_char-ne_pad v v2 h2,
    digit_value-digit_char v v0 h0,
    digit_value-digit_char v v1 h1,
    digit_value-digit_char v v2 h2,
    digits3_value v0 v1 v2 h0 h1 h2,
  )

  decode_group2 :
      (v0 v1 : ℕ)
      → v0 < 64
      → v1 < 64
      → let x : ℕ = (v0 * 4096 + v1 * 64) * 64 in
        decode_group v (digit_char v v0) (digit_char v v1) b'=' b'=' true
        ≡ decoded (octet x 16 ∷ [])
  unfolding decode_group second
  decode_group2 v0 v1 h0 h1 = ground (
    arith,
    digit_char-ne_pad v v0 h0,
    digit_char-ne_pad v v1 h1,
    digit_value-digit_char v v0 h0,
    digit_value-digit_char v v1 h1,
    digits2_value v0 v1 h0 h1,
  )

  -- The groups that the encoder writes for three, two and one bytes.
  group_of_three :
      (b0 b1 b2 : ℕ) (last : Bool)
      → IsByte b0
      → IsByte b1
      → IsByte b2
      → let x : ℕ = word3 b0 b1 b2 in
        decode_group v
          (digit_char v (sextet x 18))
          (digit_char v (sextet x 12))
          (digit_char v (sextet x 6))
          (digit_char v (sextet x 0))
          last
        ≡ decoded (b0 ∷ b1 ∷ b2 ∷ [])
  group_of_three b0 b1 b2 last h0 h1 h2 =
      let x : ℕ = word3 b0 b1 b2 in
      let y : ℕ = (sextet x 18 * 4096 + sextet x 12 * 64 + sextet x 6) * 64 + sextet x 0 in
      let e : y ≡ b0 * 65536 + b1 * 256 + b2 = omega (
        arith,
        word3_value b0 b1 b2 h0 h1 h2,
        sextet_value x 18,
        sextet_value x 12,
        sextet_value x 6,
        sextet_value x 0,
      ) in
      decode_group4 _ _ _ _ last (sextet-lt x 18) (sextet-lt x 12) (sextet-lt x 6) (sextet-lt x 0)
      ∙ ground (arith, octet_value y 16, octet_value y 8, octet_value y 0)

  group_of_two :
      (b0 b1 : ℕ)
      → IsByte b0
      → IsByte b1
      → let x : ℕ = word2 b0 b1 in
        decode_group v
          (digit_char v (sextet x 18))
          (digit_char v (sextet x 12))
          (digit_char v (sextet x 6))
          b'='
          true
        ≡ decoded (b0 ∷ b1 ∷ [])
  group_of_two b0 b1 h0 h1 =
      let x : ℕ = word2 b0 b1 in
      let y : ℕ = (sextet x 18 * 4096 + sextet x 12 * 64 + sextet x 6) * 64 in
      let e : y ≡ b0 * 65536 + b1 * 256 =
        omega (
          arith,
          word2_value b0 b1 h0 h1,
          sextet_value x 18,
          sextet_value x 12,
          sextet_value x 6,
        ) in
      decode_group3 _ _ _ (sextet-lt x 18) (sextet-lt x 12) (sextet-lt x 6)
      ∙ ground (arith, octet_value y 16, octet_value y 8)

  group_of_one :
      (b0 : ℕ)
      → IsByte b0
      → let x : ℕ = shl b0 16 in
        decode_group v (digit_char v (sextet x 18)) (digit_char v (sextet x 12)) b'=' b'=' true
        ≡ decoded (b0 ∷ [])
  group_of_one b0 h0 =
      let x : ℕ = shl b0 16 in
      let y : ℕ = (sextet x 18 * 4096 + sextet x 12 * 64) * 64 in
      let e : y ≡ b0 * 65536 = omega (arith, sextet_value x 18, sextet_value x 12) in
      decode_group2 _ _ (sextet-lt x 18) (sextet-lt x 12) ∙ ground (arith, octet_value y 16)

  group_step :
      (c0 c1 c2 c3 : ℕ) (s out : Bytes) {bytes : Bytes}
      → decode_group v c0 c1 c2 c3 (length s == 0) ≡ decoded bytes
      → base64_loop v (c0 ∷ c1 ∷ c2 ∷ c3 ∷ s) out ≡ base64_loop v s (out ++ bytes)
  unfolding base64_loop
  group_step c0 c1 c2 c3 s out h = rw (h, base64_loop)

  -- The encoder with the padding that the decoder works on.
  abbrev padded : Base64Options
  padded = record { variant = v; padding = true }

  base64_loop-encode :
      (s out : Bytes)
      → All IsByte s
      → base64_loop v (base64_encode padded s) out ≡ decoded (out ++ s)
  unfolding base64_encode
  base64_loop-encode [] out h = unfold base64_loop in rw append-nil
  base64_loop-encode (b0 ∷ []) out (h0, _) =
      group_step _ _ _ _ [] out (group_of_one b0 h0) ∙ unfold base64_loop in refl
  base64_loop-encode (b0 ∷ b1 ∷ []) out (h0, (h1, _)) =
      group_step _ _ _ _ [] out (group_of_two b0 b1 h0 h1) ∙ unfold base64_loop in refl
  base64_loop-encode (b0 ∷ b1 ∷ b2 ∷ s) out h = rw (
    group_step _ _ _ _ _ out (group_of_three b0 b1 b2 _ h.0 h.1.0 h.1.1.0),
    base64_loop-encode s _ h.1.1.1,
    append_assoc,
  )

-- The length of the text: four characters for each group of three bytes, and without padding only
-- as many as the bytes that are left need.
pub encoded_length : Base64Options → ℕ → ℕ
encoded_length o n = if o.padding then (n + 2) / 3 * 4 else (n * 4 + 2) / 3

encoded_length_step :
    (o : Base64Options) (n : ℕ) → encoded_length o (suc (suc (suc n))) ≡ encoded_length o n + 4
unfolding encoded_length
encoded_length_step o n = ground arith

-- The encoder writes a text of exactly that length, in both alphabets, with padding and without it.
pub length-base64_encode :
    (o : Base64Options) (s : Bytes) → length (base64_encode o s) ≡ encoded_length o (length s)
unfolding base64_encode
length-base64_encode o [] = unfold encoded_length in ground arith
length-base64_encode o (b0 ∷ []) = unfold encoded_length in ground arith
length-base64_encode o (b0 ∷ b1 ∷ []) = unfold encoded_length in ground arith
length-base64_encode o (b0 ∷ b1 ∷ b2 ∷ s) =
    omega (arith, encoded_length_step o (length s), length-base64_encode o s)

normalize_step :
    (a b c d : ℕ) (s : Bytes) → normalize (a ∷ b ∷ c ∷ d ∷ s) ≡ a ∷ b ∷ c ∷ d ∷ normalize s
normalize_step a b c d s =
    let e : suc (suc (suc (suc (length s)))) % 4 ≡ length s % 4 = omega arith in
    elim (Bool-cases (length s % 4 == 0)) [ inl h ↦ rw (e, h) | inr h ↦ rw (e, h) ]

-- Padding the text of an encoder without padding gives the text of the one with it.
normalize-encode :
    (o : Base64Options) (s : Bytes)
    → normalize (base64_encode o s) ≡ base64_encode (padded o.variant) s
unfolding base64_encode
normalize-encode o [] = refl
normalize-encode o (b0 ∷ []) = elim (Bool-cases o.padding) [ inl h ↦ rw h | inr h ↦ rw h ]
normalize-encode o (b0 ∷ b1 ∷ []) = elim (Bool-cases o.padding) [ inl h ↦ rw h | inr h ↦ rw h ]
normalize-encode o (b0 ∷ b1 ∷ b2 ∷ s) = rw (normalize_step, normalize-encode o s)

-- Decoding with the options of the encoder gives the bytes back, in both alphabets, with padding
-- and without it.
pub base64_decode-base64_encode :
    (o : Base64Options) (s : Bytes) → All IsByte s → base64_decode o (base64_encode o s) ≡ decoded s
unfolding base64_decode encoded_length
base64_decode-base64_encode o s h =
    ground
      (arith, length-base64_encode o s, normalize-encode o s, base64_loop-encode o.variant s [] h)
