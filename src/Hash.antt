-- ===== src/Hash.antt =====
-- The checksums of src/utils.cpp, which src/hashx.cpp passes on: FNV-1a, CRC-32 and Adler-32. A
-- state is updated by a block of bytes, and `final` reads the checksum from it.
pub mod Stream
pub mod Adler
mod Tests
use toolx_cpp.Prelude.{
  ℕ, zero, suc, ◌+◌, ◌*◌, ◌/◌, ◌%◌, ◌^◌, ◌==◌, not, List, [], ◌∷◌, Bytes, if◌then◌else◌, bit_and,
  bit_or, bit_xor,
}

abbrev pub fnv32_offset : ℕ
fnv32_offset = 2166136261

abbrev pub fnv32_prime : ℕ
fnv32_prime = 16777619

abbrev pub fnv64_offset : ℕ
fnv64_offset = 14695981039346656037

abbrev pub fnv64_prime : ℕ
fnv64_prime = 1099511628211

pub fnv1a32_update : ℕ → Bytes → ℕ
fnv1a32_update value [] = value
fnv1a32_update value (b ∷ s) = fnv1a32_update (bit_xor value b * fnv32_prime % 2 ^ 32) s

pub fnv1a64_update : ℕ → Bytes → ℕ
fnv1a64_update value [] = value
fnv1a64_update value (b ∷ s) = fnv1a64_update (bit_xor value b * fnv64_prime % 2 ^ 64) s

-- One round of the inner loop of `build_crc32_table`, the loop, and an entry of the table.
pub crc32_bit : ℕ → ℕ
crc32_bit c = if not (bit_and c 1 == 0) then bit_xor 0xEDB88320 (c / 2) else c / 2

pub crc32_bits : ℕ → ℕ → ℕ
crc32_bits zero c = c
crc32_bits (suc n) c = crc32_bits n (crc32_bit c)

pub crc32_entry : ℕ → ℕ
crc32_entry i = crc32_bits 8 i

pub crc32_update : ℕ → Bytes → ℕ
crc32_update value [] = value
crc32_update value (b ∷ s) =
    let i = bit_and (bit_xor value b) 0xff in
    crc32_update (bit_xor (crc32_entry i) (value / 2 ^ 8)) s

abbrev pub crc32_final : ℕ → ℕ
crc32_final value = bit_xor value 0xFFFFFFFF

abbrev pub adler_mod : ℕ
adler_mod = 65521

pub record Adler32State : Type 0 where
  pub a : ℕ
  pub b : ℕ

pub adler32_update : Adler32State → Bytes → Adler32State
adler32_update st [] = st
adler32_update st (x ∷ s) =
    let a' = (st.a + x) % adler_mod in
    adler32_update (record { a = a'; b = (st.b + a') % adler_mod }) s

pub adler32_final : Adler32State → ℕ
adler32_final st = bit_or (st.b * 2 ^ 16 % 2 ^ 32) st.a

-- The checksums of one block, from a new state.
pub fnv1a32 : Bytes → ℕ
fnv1a32 s = fnv1a32_update fnv32_offset s

pub fnv1a64 : Bytes → ℕ
fnv1a64 s = fnv1a64_update fnv64_offset s

pub crc32 : Bytes → ℕ
crc32 s = crc32_final (crc32_update 0xFFFFFFFF s)

pub adler32 : Bytes → ℕ
adler32 s = adler32_final (adler32_update (record { a = 1; b = 0 }) s)
