-- ===== src/Hash/Adler.antt =====
-- Adler-32 of src/utils.cpp against the sums that define it.
use toolx_cpp.Prelude.{
  ℕ, suc, ◌+◌, ◌*◌, ◌/◌, ◌%◌, ◌^◌, ◌<◌, ◌≡◌, arith, [], ◌∷◌, Bytes, length, ap, ◌∙◌,
}
use toolx_cpp.Prelude.Bits.{bit_or_shift}
use native.Mathlib.Nat.{mul_comm, mul_assoc, add-mul, mul-suc, suc-mul}
use toolx_cpp.Hash.{adler_mod, Adler32State, adler32_update, adler32_final, adler32}

-- The sum of the bytes, and the sum in which each byte counts as often as there are bytes from it on.
pub sum : Bytes → ℕ
sum [] = 0
sum (x ∷ s) = x + sum s

pub weighted_sum : Bytes → ℕ
weighted_sum [] = 0
weighted_sum (x ∷ s) = suc (length s) * x + weighted_sum s

-- A product may be reduced before it is taken.
reduced_product : (n l : ℕ) → n * l ≡ n % adler_mod * l + adler_mod * (n / adler_mod * l)
reduced_product n l =
    let split : n ≡ n % adler_mod + adler_mod * (n / adler_mod) = omega arith in
    ap (λ m. m * l) split
    ∙ add-mul (n % adler_mod) (adler_mod * (n / adler_mod)) l
    ∙ ap (λ m. n % adler_mod * l + m) (mul_assoc adler_mod (n / adler_mod) l)

update_sums :
    (s : Bytes) (st : Adler32State)
    → ((adler32_update st s).a % adler_mod ≡ (st.a + sum s) % adler_mod)
      × ((adler32_update st s).b % adler_mod
          ≡ (st.b + (st.a * length s + weighted_sum s)) % adler_mod)
unfolding adler32_update sum weighted_sum
update_sums [] st = (omega arith, omega (arith))
update_sums (x ∷ s) st =
    let n = st.a + x in
    let (p, q) =
      update_sums s (record { a = n % adler_mod; b = (st.b + n % adler_mod) % adler_mod }) in
    (
      omega (arith, p),
      omega (
        arith,
        q,
        reduced_product n (length s),
        add-mul st.a x (length s),
        mul-suc st.a (length s),
        suc-mul (length s) x,
        mul_comm x (length s),
      ),
    )

update_bounds :
    (s : Bytes) (st : Adler32State)
    → st.a < adler_mod
    → st.b < adler_mod
    → ((adler32_update st s).a < adler_mod) × ((adler32_update st s).b < adler_mod)
unfolding adler32_update
update_bounds [] st p q = (p, q)
update_bounds (x ∷ s) st p q = update_bounds s _ (omega arith) (omega arith)

-- Adler-32 is the sum of one and the bytes modulo 65521 in its low half, and in its high half the
-- sum over all prefixes of that sum, which counts each byte once for each byte from it on.
pub adler32_sums :
    (s : Bytes)
    → adler32 s ≡ (length s + weighted_sum s) % adler_mod * 2 ^ 16 + (1 + sum s) % adler_mod
unfolding adler32 adler32_final
adler32_sums s =
    let start : Adler32State = record { a = 1; b = 0 } in
    let last = adler32_update start s in
    let (low, high) = update_bounds s start (omega arith) (omega arith) in
    let (p, q) = update_sums s start in
    let small : last.b * 2 ^ 16 % 2 ^ 32 ≡ last.b * 2 ^ 16 = omega arith in
    rw small (omega (arith, bit_or_shift 16 last.b last.a (omega arith), p, q, low, high))
