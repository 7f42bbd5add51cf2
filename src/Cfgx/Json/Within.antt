-- ===== src/Cfgx/Json/Within.antt =====
-- How much of the text is left behind a part that `JsonParser` of src/cfgx.cpp reads.
use toolx_cpp.Prelude.{
  ℕ, ◌≤◌, arith, Bool, true, false, [], ◌∷◌, Bytes, Bool-cases, inl, inr, if◌then◌else◌, length,
}
use toolx_cpp.Cfgx.Json.Cursor.{
  Place, move, is_space, skip_space, Parsed, parsed, failed, spent, ◌>>=◌,
}

-- A value with at most `n` characters behind it, or a failure of the source.
abbrev pub Within {ℓ} : {A : Type ℓ} → ℕ → Parsed A → Type 0
Within n (parsed a s p) = length s ≤ n
Within n (failed r p) = Unit {0}
Within n spent = ⊥

pub Within-if {ℓ} :
    {A : Type ℓ} (n : ℕ) (b : Bool) (r t : Parsed A)
    → Within n r
    → Within n t
    → Within n (if b then r else t)
Within-if n true r t h k = h
Within-if n false r t h k = k

pub Within-bind {ℓ κ} :
    {A : Type ℓ} {B : Type κ} (m n : ℕ) (r : Parsed A) (f : A → Bytes → Place → Parsed B)
    → Within m r
    → ((a : A) (s : Bytes) (p : Place) → length s ≤ m → Within n (f a s p))
    → Within n (r >>= f)
Within-bind m n (parsed a s p) f h k = k a s p h
Within-bind m n (failed r p) f h k = tt
Within-bind m n spent f h k = absurd h

pub skip_space-length : (s : Bytes) (p : Place) → length (skip_space s p).0 ≤ length s
unfolding skip_space
skip_space-length [] p = omega arith
skip_space-length (c ∷ s) p =
    let h = skip_space-length s (move p c) in
    elim (Bool-cases (is_space c)) [
      | inl space ↦ rw space (omega arith)
      | inr no_space ↦ rw no_space (omega arith)
    ]

pub Within-weaken {ℓ} : {A : Type ℓ} (m n : ℕ) (r : Parsed A) → m ≤ n → Within m r → Within n r
Within-weaken m n (parsed a s p) h w = omega arith
Within-weaken m n (failed r p) h w = tt
Within-weaken m n spent h w = w
