-- ===== src/TextCodec/Base64/Table.antt =====
-- The two tables of each variant are inverse to one another.
use toolx_cpp.Prelude.{
  ℕ, zero, suc, ◌+◌, ◌≤◌, ◌<◌, Bool-cases, ==_iff, inl, inr, ◌≡◌, ◌≢◌, refl, arith, Bool, true,
  false, ◌&&◌, Option, none, some, ◌==◌, ltb, not, IsByte,
}
use toolx_cpp.TextCodec.Base64.{
  Base64Variant, standard, url_safe, alphabet, fill_table, decode_table, digit_char, digit_value,
}

-- A test that runs over `count` numbers from `start` on.
range_passes : (start count : ℕ) → (ℕ → Bool) → Bool
range_passes start zero test = true
range_passes start (suc count) test = test start && range_passes (suc start) count test

passes_in_range :
    (start count x : ℕ) (test : ℕ → Bool)
    → range_passes start count test ≡ true
    → start ≤ x
    → x < start + count
    → test x ≡ true
unfolding range_passes
passes_in_range start zero x test all lo hi = absurd (omega arith)
passes_in_range start (suc count) x test all lo hi = elim (Bool-cases (start == x)) [
  | inl here ↦ let same : start ≡ x = (==_iff start x).0 here in ground (arith, rw same at all)
  | inr later ↦ passes_in_range (suc start) count x test (ground arith) (ground arith) (omega arith)
]

is_some : Option ℕ → ℕ → Bool
is_some none n = false
is_some (some m) n = m == n

is_some-eq : (o : Option ℕ) (n : ℕ) → is_some o n ≡ true → o ≡ some n
unfolding is_some
is_some-eq none n h = cc
is_some-eq (some m) n h = ground arith

-- The character of a digit has that digit's value, and is not the padding.
digit_test : Base64Variant → ℕ → Bool
digit_test v i = is_some (digit_value v (digit_char v i)) i && not (digit_char v i == b'=')

all_digits : (v : Base64Variant) → range_passes 0 64 (digit_test v) ≡ true
unfolding range_passes digit_test is_some digit_value digit_char decode_table fill_table alphabet
all_digits standard = refl
all_digits url_safe = refl

pub digit_value-digit_char :
    (v : Base64Variant) (i : ℕ) → i < 64 → digit_value v (digit_char v i) ≡ some i
unfolding digit_test
digit_value-digit_char v i h =
    is_some-eq _ i
      (ground (arith, passes_in_range 0 64 i (digit_test v) (all_digits v) (omega arith) h))

pub digit_char-ne_pad : (v : Base64Variant) (i : ℕ) → i < 64 → digit_char v i ≢ b'='
unfolding digit_test
digit_char-ne_pad v i h =
    ground (arith, passes_in_range 0 64 i (digit_test v) (all_digits v) (omega arith) h)

-- A character with a value is the character of that value.
is_char : Base64Variant → Option ℕ → ℕ → Bool
is_char v none c = true
is_char v (some i) c = ltb i 64 && digit_char v i == c

char_test : Base64Variant → ℕ → Bool
char_test v c = is_char v (digit_value v c) c

all_chars : (v : Base64Variant) → range_passes 0 256 (char_test v) ≡ true
unfolding range_passes char_test is_char digit_value digit_char decode_table fill_table alphabet
all_chars standard = refl
all_chars url_safe = refl

pub digit_char-digit_value :
    (v : Base64Variant) (c : ℕ) {i : ℕ}
    → IsByte c
    → digit_value v c ≡ some i
    → (i < 64) × (digit_char v i ≡ c)
unfolding char_test is_char
digit_char-digit_value v c {i} h e =
    let t =
      rw (char_test, e) at (passes_in_range 0 256 c (char_test v) (all_chars v) (omega arith) h) in
    (ground arith, ground arith)
