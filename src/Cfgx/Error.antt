-- ===== src/Cfgx/Error.antt =====
-- `Result<T>` and `Status` of include/cfgx.h, with the errors of the path functions and the layers of
-- src/cfgx.cpp.
-- An error is a constructor for each text that the source builds; `message` is the text.
use toolx_cpp.Prelude.{ℕ, Bytes, ◌≡◌, refl, ◌⊎◌, inl, inr}

-- Why a path is refused.
pub data PathReason : Type 0 where
  trailing_escape trailing_dot empty_segment unterminated_index after_empty_key : PathReason
  index_too_large no_digits missing_bracket after_index : PathReason

pub data Error : Type 0 where
  path_empty path_without_tokens : Error
  invalid_path : ℕ → PathReason → Error
  -- Reading.
  no_object_at_key : Bytes → Error
  key_not_found : Bytes → Error
  no_array_at_index index_out_of_range : Error
  -- Writing.
  index_unsupported : Error
  set_no_object : Bytes → Error
  set_no_array set_failed : Error
  -- Removing.
  remove_no_object remove_no_array remove_key_no_object remove_index_no_array : Error
  -- Materializing overrides, at a path.
  runtime_set_failed runtime_remove_failed : Bytes → Error → Error
  -- Composing layers.
  compose_runtime_failed : Error → Error

pub data Result {ℓ} (A : Type ℓ) : Type ℓ where
  ok : A → Result A
  err : Error → Result A

-- A `Status` has no value.
abbrev pub Status : Type 0
Status = Result (Unit {0})

abbrev pub done : Status
done = ok tt

infixl 5 ◌>>=◌
abbrev pub ◌>>=◌ {ℓ κ} : {A : Type ℓ} {B : Type κ} → Result A → (A → Result B) → Result B
ok a >>= f = f a
err e >>= f = err e

pub Result-cases {ℓ} :
    {A : Type ℓ} (r : Result A) → ((e : Error) × (r ≡ err e)) ⊎ ((a : A) × (r ≡ ok a))
Result-cases (ok a) = inr (a, refl)
Result-cases (err e) = inl (e, refl)

-- A chain that succeeds has succeeded at its first call.
pub bind-ok {ℓ κ} :
    {A : Type ℓ} {B : Type κ} (r : Result A) (f : A → Result B) {b : B}
    → (r >>= f) ≡ ok b
    → (a : A) × (r ≡ ok a) × (f a ≡ ok b)
bind-ok (ok a) f h = (a, refl, h)
bind-ok (err e) f h = cc
