-- ===== src/Hash/Tests.antt =====
-- The checksums of src/utils.cpp on the usual test strings.
use toolx_cpp.Prelude.{◌+◌, ◌*◌, ◌%◌, ◌^◌, ◌≡◌, refl, Bytes, codes, length}
use toolx_cpp.Hash.{
  fnv1a32_update, fnv1a64_update, crc32_bit, crc32_bits, crc32_entry, crc32_update, Adler32State,
  fnv1a32, fnv1a64, crc32, adler32, adler_mod,
}
use toolx_cpp.Hash.Adler.{sum, weighted_sum, adler32_sums}

abbrev digits : Bytes
digits = codes "123456789"

crc32-digits : crc32 digits ≡ 0xCBF43926
unfolding crc32 crc32_update crc32_entry crc32_bits crc32_bit
crc32-digits = refl

fnv1a32_a : fnv1a32 (codes "a") ≡ 0xE40C292C
unfolding fnv1a32 fnv1a32_update
fnv1a32_a = refl

fnv1a64_a : fnv1a64 (codes "a") ≡ 0xAF63DC4C8601EC8C
unfolding fnv1a64 fnv1a64_update
fnv1a64_a = refl

abbrev start : Adler32State
start = record { a = 1; b = 0 }

adler32_sums_example :
    adler32 (codes "Wikipedia")
    ≡ (length (codes "Wikipedia") + weighted_sum (codes "Wikipedia")) % adler_mod * 2 ^ 16
      + (1 + sum (codes "Wikipedia")) % adler_mod
adler32_sums_example = adler32_sums (codes "Wikipedia")
