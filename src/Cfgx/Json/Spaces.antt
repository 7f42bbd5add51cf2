-- ===== src/Cfgx/Json/Spaces.antt =====
-- White space between the tokens of a JSON text, for `SkipWhitespace` of src/cfgx.cpp.
use toolx_cpp.Prelude.{
  ℕ, zero, suc, ◌≡◌, refl, true, false, [], ◌∷◌, ◌++◌, Bytes, All, Bool-cases, inl, inr, ltb,
  replicate,
}
use toolx_cpp.Cfgx.Json.Cursor.{Place, move, is_space, skip_space}
use toolx_cpp.Cfgx.Json.Printer.{line_break}

abbrev pub IsSpace : ℕ → Type 0
IsSpace c = is_space c ≡ true

-- Text that starts with a character that is no space.
pub record Starts (s : Bytes) : Type 0 where
  pub head : ℕ
  pub tail : Bytes
  pub is_cons : s ≡ head ∷ tail
  pub no_space : is_space head ≡ false

pub skip_space-Starts : (s : Bytes) (p : Place) → Starts s → skip_space s p ≡ (s, p)
unfolding skip_space
skip_space-Starts s p w = rw (w.is_cons, w.no_space)

pub skip_space-append :
    (b s : Bytes) (p : Place)
    → All IsSpace b
    → Starts s
    → (q : Place) × (skip_space (b ++ s) p ≡ (s, q))
unfolding skip_space
skip_space-append [] s p hb w = (p, skip_space-Starts s p w)
skip_space-append (c ∷ b) s p (hc, hb) w =
    let (q, e) = skip_space-append b s (move p c) hb w in (q, rw hc e)

replicate-IsSpace : (n : ℕ) → All IsSpace (replicate n b' ')
replicate-IsSpace zero = tt
replicate-IsSpace (suc n) = (unfold is_space in refl, replicate-IsSpace n)

pub line_break-IsSpace : (indent depth : ℕ) → All IsSpace (line_break indent depth)
unfolding line_break
line_break-IsSpace indent depth = elim (Bool-cases (ltb 0 indent)) [
  | inl yes_indent ↦ rw yes_indent (unfold is_space in refl, replicate-IsSpace _)
  | inr no_indent ↦ rw no_indent tt
]
