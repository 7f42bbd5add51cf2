-- ===== src/Cfgx/Json/Progress.antt =====
-- What the parts of `JsonParser` of src/cfgx.cpp leave of the text.
use toolx_cpp.Prelude.{
  ℕ, suc, ◌+◌, ◌-◌, ◌<◌, ◌≤◌, ◌≡◌, arith, Bool, true, false, not, [], ◌∷◌, Bytes, Option, none,
  some, Bool-cases, inl, inr, ◌⊎◌, refl, ◌==◌, if◌then◌else◌, length,
}
use toolx_cpp.Prelude.Int.{ℤ}
use toolx_cpp.Cfgx.Node.{Node, integer, double, Entries, Elements}
use toolx_cpp.Cfgx.Json.Cursor.{
  Place, move, skip_space, JsonReason, Parsed, parsed, failed, invalid_number, invalid_integer,
  unrepresentable,
}
use toolx_cpp.Cfgx.Json.Text.{parse_string}
use toolx_cpp.Cfgx.Json.Number.{
  is_number_char, number_token, number_of_token, parse_number, is_json_number, is_integer_token,
  int64_of_token,
}
use toolx_cpp.Cfgx.Json.Parser.{
  Start, start_at, scalar, opens_array, opens_object, literal, parse_literal, Separator, separator,
  comma, close, neither, is_closed, after_key, parse_key, read_array, read_object, more_elements,
  more_entries,
}
use toolx_cpp.Cfgx.Json.Within.{Within, Within-if, Within-bind, skip_space-length}
use toolx_cpp.Cfgx.Json.Text.Fuel.{parse_string-Within}

number_token-Within :
    (s : Bytes) (p : Place)
    → length (number_token s p).text + length (number_token s p).rest ≡ length s
unfolding number_token
number_token-Within [] p = omega arith
number_token-Within (c ∷ s) p =
    let h = number_token-Within s (move p c) in
    elim (Bool-cases (is_number_char c)) [
      | inl number ↦ rw number (omega arith)
      | inr no_number ↦ rw no_number (omega arith)
    ]

-- `literal` takes the word off the text.
pub literal-length :
    (word s : Bytes) (p : Place)
    → (literal word s p ≡ none)
      ⊎ ((t : Bytes) × (q : Place) × (literal word s p ≡ some (t, q))
          × (length word + length t ≡ length s))
unfolding literal
literal-length [] s p = inr (s, p, refl, omega arith)
literal-length (c ∷ word) [] p = inl refl
literal-length (c ∷ word) (d ∷ s) p = elim (Bool-cases (c == d)) [
  | inr differ ↦ inl (rw differ refl)
  | inl same ↦ elim (literal-length word s (move p d)) [
    | inl e ↦ inl (rw (same, e) refl)
    | inr (t, q, e, h) ↦ inr (t, q, rw (same, e) refl, omega arith)
  ]
]

pub parse_literal-Within :
    (c : ℕ) (word : Bytes) (n : Node) (reason : JsonReason) (s : Bytes) (p : Place)
    → Within (length s - 1) (parse_literal (c ∷ word) n reason s p)
unfolding parse_literal
parse_literal-Within c word n reason s p = elim (literal-length (c ∷ word) s p) [
  | inl e ↦ rw (Within, e) tt
  | inr (t, q, e, h) ↦ rw (Within, e) (omega arith)
]

abbrev pub StartWithin : ℕ → Start → Type 0
StartWithin n (opens_object t q) = length t < n
StartWithin n (opens_array t q) = length t < n
StartWithin n (scalar r) = Within (n - 1) r

StartWithin-if :
    (n : ℕ) (b : Bool) (r t : Start)
    → StartWithin n r
    → StartWithin n t
    → StartWithin n (if b then r else t)
StartWithin-if n true r t h k = h
StartWithin-if n false r t h k = k

abbrev pub SeparatorWithin : ℕ → Separator → Type 0
SeparatorWithin n (comma t q) = length t < n
SeparatorWithin n (close t q) = length t < n
SeparatorWithin n (neither q) = Unit {0}

pub separator-Within :
    (bracket : ℕ) (s : Bytes) (p : Place) → SeparatorWithin (length s) (separator bracket (s, p))
unfolding separator
separator-Within bracket [] p = tt
separator-Within bracket (c ∷ s) p = split (c == b',') (c == bracket)
  where
    split :
        (a b : Bool)
        → SeparatorWithin
            (suc (length s))
            (if a then comma s (move p c) else if b then close s (move p c) else neither p)
    split true b = omega arith
    split false true = omega arith
    split false false = tt

after_key-Within : (k s : Bytes) (p : Place) (n : ℕ) → length s ≤ n → Within n (after_key k (s, p))
after_key-Within k [] p n h = tt
after_key-Within k (c ∷ s) p n h =
    let l = skip_space-length s (move p c) in Within-if n (c == b':') _ _ (omega arith) tt

pub parse_key-Within : (s : Bytes) (p : Place) → Within (length s - 1) (parse_key (s, p))
unfolding parse_key
parse_key-Within s p =
    Within-bind (length s - 1) _ (parse_string s p) _ (parse_string-Within s p) (λ k t q h.
      after_key-Within k (skip_space t q).0 (skip_space t q).1 _
        (let l = skip_space-length t q in omega arith))

pub is_closed-Within :
    (bracket : ℕ) (s : Bytes) (p : Place)
    → (is_closed bracket (s, p) ≡ none)
      ⊎ ((t : Bytes) × (q : Place) × (is_closed bracket (s, p) ≡ some (t, q))
          × (length t ≤ length s - 1))
unfolding is_closed
is_closed-Within bracket [] p = inl refl
is_closed-Within bracket (c ∷ s) p = elim (Bool-cases (c == bracket)) [
  | inr differ ↦ inl (rw differ refl)
  | inl same ↦ inr (s, move p c, rw same refl, omega arith)
]

pub read_array-Within :
    (items : Bytes × Place → Parsed Elements) (s : Bytes) (p : Place) (n : ℕ)
    → length s ≤ n
    → Within n (items (s, p))
    → Within n (read_array items (s, p))
unfolding read_array
read_array-Within items s p n h k = elim (is_closed-Within b']' s p) [
  | inl e ↦ rw (Within, e) (Within-bind n n (items (s, p)) _ k (λ xs u r l. l))
  | inr (t, q, e, l) ↦ rw (Within, e) (omega arith)
]

pub read_object-Within :
    (items : Bytes × Place → Parsed Entries) (s : Bytes) (p : Place) (n : ℕ)
    → length s ≤ n
    → Within n (items (s, p))
    → Within n (read_object items (s, p))
unfolding read_object
read_object-Within items s p n h k = elim (is_closed-Within b'}' s p) [
  | inl e ↦ rw (Within, e) (Within-bind n n (items (s, p)) _ k (λ fs u r l. l))
  | inr (t, q, e, l) ↦ rw (Within, e) (omega arith)
]

pub more_elements-Within :
    (again : Bytes × Place → Parsed Elements) (v : Node) (sep : Separator) (m n : ℕ)
    → SeparatorWithin m sep
    → m ≤ n
    → ((t : Bytes) (q : Place) → length t < m → Within n (again (t, q)))
    → Within n (more_elements again v sep)
unfolding more_elements
more_elements-Within again v (comma t q) m n w h k =
    Within-bind n n (again (t, q)) _ (k t q w) (λ xs u r l. l)
more_elements-Within again v (close t q) m n w h k = omega arith
more_elements-Within again v (neither q) m n w h k = tt

pub more_entries-Within :
    (again : Bytes × Place → Parsed Entries) (key : Bytes) (v : Node) (sep : Separator) (m n : ℕ)
    → SeparatorWithin m sep
    → m ≤ n
    → ((t : Bytes) (q : Place) → length t < m → Within n (again (t, q)))
    → Within n (more_entries again key v sep)
unfolding more_entries
more_entries-Within again key v (comma t q) m n w h k =
    Within-bind n n (again (t, q)) _ (k t q w) (λ fs u r l. l)
more_entries-Within again key v (close t q) m n w h k = omega arith
more_entries-Within again key v (neither q) m n w h k = tt

module _ (read_double : Bytes → Option ℕ) where
  number_of_token-Within :
      (t u : Bytes) (q : Place) (n : ℕ)
      → length t + length u ≡ n
      → Within (n - 1) (number_of_token read_double t u q)
  unfolding number_of_token
  number_of_token-Within [] u q n h = tt
  number_of_token-Within (c ∷ s) u q n h =
      whole (is_json_number (c ∷ s)) (is_integer_token (c ∷ s)) (int64_of_token (c ∷ s))
        (read_double (c ∷ s))
    where
      whole :
          (grammar is_int : Bool) (z : Option ℤ) (d : Option ℕ)
          → Within (n - 1) (
              if not grammar
              then failed invalid_number q
              else if is_int
              then elim z [ none ↦ failed invalid_integer q | some i ↦ parsed (integer i) u q ]
              else elim d [ none ↦ failed unrepresentable q | some v ↦ parsed (double v) u q ])
      whole false is_int z d = tt
      whole true true none d = tt
      whole true true (some i) d = omega arith
      whole true false z none = tt
      whole true false z (some v) = omega arith

  parse_number-Within :
      (s : Bytes) (p : Place) → Within (length s - 1) (parse_number read_double s p)
  unfolding parse_number
  parse_number-Within s p =
      let t = number_token s p in
      number_of_token-Within t.text t.rest t.place (length s) (number_token-Within s p)

  pub start_at-Within :
      (s : Bytes) (p : Place) → StartWithin (length s) (start_at read_double (s, p))
  unfolding start_at
  start_at-Within [] p = tt
  start_at-Within (c ∷ s) p = StartWithin-if _ (c == b'{') _ _ (omega arith) (
      StartWithin-if _ (c == b'[') _ _ (omega arith) (
        StartWithin-if _ (c == b'"') _ _
          (Within-bind (suc (length s) - 1) _ (parse_string (c ∷ s) p) _
            (parse_string-Within (c ∷ s) p) (λ t u q h. omega arith))
          (StartWithin-if _ (c == b't') _ _ (parse_literal-Within b't' _ _ _ (c ∷ s) p) (
            StartWithin-if _ (c == b'f') _ _ (parse_literal-Within b'f' _ _ _ (c ∷ s) p) (
              StartWithin-if _ (c == b'n') _ _ (parse_literal-Within b'n' _ _ _ (c ∷ s) p)
                (parse_number-Within (c ∷ s) p))))))
