-- ===== src/TextCodec/Base64/Words.antt =====
-- The words that the encoder and the decoder build, as plain numbers.
use toolx_cpp.Prelude.{ℕ, ◌+◌, ◌*◌, ◌/◌, ◌%◌, ◌^◌, ◌<◌, ◌≡◌, arith, bit_or, IsByte}
use toolx_cpp.Prelude.Bits.{bit_or_shift, bit_and_3f, bit_and_ff}
use toolx_cpp.TextCodec.Base64.{shl, word2, word3, sextet, octet}

pub word3_value :
    (b0 b1 b2 : ℕ) → IsByte b0 → IsByte b1 → IsByte b2 → word3 b0 b1 b2 ≡ b0 * 65536 + b1 * 256 + b2
word3_value b0 b1 b2 h0 h1 h2 =
    let e1 : shl b1 8 ≡ b1 * 256 = omega arith in
    let e0 : shl b0 16 ≡ b0 * 2 ^ 16 = omega arith in
    let s : b0 * 2 ^ 16 + b1 * 256 ≡ (b0 * 256 + b1) * 2 ^ 8 = omega arith in
    rw
      (e0, e1, bit_or_shift 16 b0 (b1 * 256) (omega arith), s, bit_or_shift 8 (b0 * 256 + b1) b2 h2)
      (omega arith)

pub word2_value : (b0 b1 : ℕ) → IsByte b0 → IsByte b1 → word2 b0 b1 ≡ b0 * 65536 + b1 * 256
word2_value b0 b1 h0 h1 =
    let e1 : shl b1 8 ≡ b1 * 256 = omega arith in
    let e0 : shl b0 16 ≡ b0 * 2 ^ 16 = omega arith in
    rw (e0, e1, bit_or_shift 16 b0 (b1 * 256) (omega arith)) (omega arith)

pub digits2_value :
    (v0 v1 : ℕ) → v0 < 64 → v1 < 64 → bit_or (shl v0 18) (shl v1 12) ≡ (v0 * 64 + v1) * 2 ^ 12
digits2_value v0 v1 h0 h1 =
    let e1 : shl v1 12 ≡ v1 * 4096 = omega arith in
    let e0 : shl v0 18 ≡ v0 * 2 ^ 18 = omega arith in
    rw (e0, e1, bit_or_shift 18 v0 (v1 * 4096) (omega arith)) (omega arith)

pub digits3_value :
    (v0 v1 v2 : ℕ)
    → v0 < 64
    → v1 < 64
    → v2 < 64
    → bit_or (bit_or (shl v0 18) (shl v1 12)) (shl v2 6) ≡ (v0 * 4096 + v1 * 64 + v2) * 2 ^ 6
digits3_value v0 v1 v2 h0 h1 h2 =
    let e2 : shl v2 6 ≡ v2 * 64 = omega arith in
    rw (e2, digits2_value v0 v1 h0 h1, bit_or_shift 12 (v0 * 64 + v1) (v2 * 64) (omega arith))
      (omega arith)

pub digits4_value :
    (v0 v1 v2 v3 : ℕ)
    → v0 < 64
    → v1 < 64
    → v2 < 64
    → v3 < 64
    → bit_or (bit_or (bit_or (shl v0 18) (shl v1 12)) (shl v2 6)) v3
      ≡ (v0 * 4096 + v1 * 64 + v2) * 64 + v3
digits4_value v0 v1 v2 v3 h0 h1 h2 h3 =
    rw (digits3_value v0 v1 v2 h0 h1 h2, bit_or_shift 6 (v0 * 4096 + v1 * 64 + v2) v3 h3)
      (omega arith)

pub sextet_value : (x k : ℕ) → sextet x k ≡ x / 2 ^ k % 64
sextet_value x k = bit_and_3f (x / 2 ^ k)

pub octet_value : (x k : ℕ) → octet x k ≡ x / 2 ^ k % 256
octet_value x k = bit_and_ff (x / 2 ^ k)

pub sextet-lt : (x k : ℕ) → sextet x k < 64
sextet-lt x k = rw sextet_value (omega arith)
