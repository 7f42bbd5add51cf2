-- ===== src/Hash/Stream.antt =====
-- The states of src/utils.cpp as streams: how a text is cut into blocks does not matter.
use toolx_cpp.Prelude.{ℕ, ◌≡◌, refl, [], ◌∷◌, ◌++◌, Bytes}
use toolx_cpp.Hash.{fnv1a32_update, fnv1a64_update, crc32_update, Adler32State, adler32_update}

fnv1a32_update-append :
    (s t : Bytes) (v : ℕ) → fnv1a32_update v (s ++ t) ≡ fnv1a32_update (fnv1a32_update v s) t
unfolding fnv1a32_update
fnv1a32_update-append [] t v = refl
fnv1a32_update-append (c ∷ s) t v = fnv1a32_update-append s t _

fnv1a64_update-append :
    (s t : Bytes) (v : ℕ) → fnv1a64_update v (s ++ t) ≡ fnv1a64_update (fnv1a64_update v s) t
unfolding fnv1a64_update
fnv1a64_update-append [] t v = refl
fnv1a64_update-append (c ∷ s) t v = fnv1a64_update-append s t _

crc32_update-append :
    (s t : Bytes) (v : ℕ) → crc32_update v (s ++ t) ≡ crc32_update (crc32_update v s) t
unfolding crc32_update
crc32_update-append [] t v = refl
crc32_update-append (c ∷ s) t v = crc32_update-append s t _

adler32_update-append :
    (s t : Bytes) (st : Adler32State)
    → adler32_update st (s ++ t) ≡ adler32_update (adler32_update st s) t
unfolding adler32_update
adler32_update-append [] t st = refl
adler32_update-append (c ∷ s) t st = adler32_update-append s t _

-- Two updates with the blocks of a text leave each of the four states as one with the text does.
pub updates-append :
    (v : ℕ) (st : Adler32State) (s t : Bytes)
    → (fnv1a32_update v (s ++ t) ≡ fnv1a32_update (fnv1a32_update v s) t)
      × (fnv1a64_update v (s ++ t) ≡ fnv1a64_update (fnv1a64_update v s) t)
      × (crc32_update v (s ++ t) ≡ crc32_update (crc32_update v s) t)
      × (adler32_update st (s ++ t) ≡ adler32_update (adler32_update st s) t)
updates-append v st s t = (
  fnv1a32_update-append s t v,
  fnv1a64_update-append s t v,
  crc32_update-append s t v,
  adler32_update-append s t st,
)
