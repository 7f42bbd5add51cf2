-- ===== src/Cfgx/Json/Cursor.antt =====
-- The state of `JsonParser` of src/cfgx.cpp: the text that is left, with the line and the column.
use toolx_cpp.Prelude.{ℕ, ◌+◌, Bool, ◌&&◌, ◌||◌, [], ◌∷◌, Bytes, leb, ◌==◌, if◌then◌else◌}

pub record Place : Type 0 where
  pub line : ℕ
  pub column : ℕ

abbrev pub first_place : Place
first_place = record { line = 1; column = 1 }

-- `Advance` over a character.
unfoldable pub move : Place → ℕ → Place
move p c =
    if c == b'\n'
    then record { line = p.line + 1; column = 1 }
    else record { line = p.line; column = p.column + 1 }

-- `std::isspace` in the C locale.
unfoldable pub is_space : ℕ → Bool
is_space c = c == b' ' || (leb 9 c && leb c 13)

unfoldable pub skip_space : Bytes → Place → Bytes × Place
skip_space [] p = ([], p)
skip_space (c ∷ s) p = if is_space c then skip_space s (move p c) else (c ∷ s, p)

-- The texts that are passed to `Fail`.
pub data JsonReason : Type 0 where
  trailing_content unexpected_end invalid_true invalid_false invalid_null : JsonReason
  expected_string unterminated_string unescaped_control unterminated_escape : JsonReason
  unsupported_escape invalid_unicode missing_low invalid_low unexpected_low : JsonReason
  invalid_number invalid_integer unrepresentable : JsonReason
  unterminated_array expected_in_array : JsonReason
  unterminated_object expected_colon expected_in_object : JsonReason

-- What a member function leaves: a value and where to go on, or the reason of a failure and where it
-- was seen. `spent` is no result of the source: the fuel is enough.
pub data Parsed {ℓ} (A : Type ℓ) : Type ℓ where
  parsed : A → (rest : Bytes) → Place → Parsed A
  failed : JsonReason → Place → Parsed A
  spent : Parsed A

infixl 5 ◌>>=◌
abbrev pub ◌>>=◌ {ℓ κ} :
    {A : Type ℓ} {B : Type κ} → Parsed A → (A → Bytes → Place → Parsed B) → Parsed B
parsed a s p >>= f = f a s p
failed r p >>= f = failed r p
spent >>= f = spent
