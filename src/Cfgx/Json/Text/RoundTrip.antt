-- ===== src/Cfgx/Json/Text/RoundTrip.antt =====
-- `ParseStringLiteral` reads what `EscapeJsonString` writes between quotes.
use toolx_cpp.Prelude.{
  ℕ, zero, suc, ◌+◌, ◌*◌, ◌/◌, ◌%◌, ◌^◌, ◌<◌, ◌≤◌, ◌≡◌, refl, ◌∙◌, arith, true, false, [], ◌∷◌,
  ◌++◌, append_assoc, append-nil, Bytes, some, inl, inr, Bool-cases, ==_iff, ltb, leb,
  length-append, ◌==◌, length, bit_and,
}
use toolx_cpp.Prelude.Bits.{bit_and_0f}
use toolx_cpp.Cfgx.Json.Cursor.{Place, move, parsed}
use toolx_cpp.Cfgx.Json.Text.{
  quad_digit, quad, read_digits, read_quad, unicode_escape, utf8_bytes, simple_escape, escape_bytes,
  appends, string_step, string_loop, parse_string, hex_digit, escape_char, escape_json,
}

-- What the writer makes of a byte.
data Escaped (c : ℕ) : Bytes → Type 0 where
  short : (e : ℕ) → (e == b'u') ≡ false → simple_escape e ≡ some c → Escaped c (b'\\' ∷ e ∷ [])
  control :
      c < 32
      → Escaped c
          (b'\\' ∷ b'u' ∷ b'0' ∷ b'0' ∷ hex_digit (c / 2 ^ 4) ∷ hex_digit (bit_and c 0x0f) ∷ [])
  plain : (c == b'"') ≡ false → (c == b'\\') ≡ false → ltb c 0x20 ≡ false → Escaped c (c ∷ [])

-- A byte that one test of the writer singles out.
escaped_at : (c k : ℕ) → (c == k) ≡ true → Escaped k (escape_char k) → Escaped c (escape_char c)
escaped_at c k h e = let same : c ≡ k = (==_iff c k).0 h in rw same e

escape_char-Escaped : (c : ℕ) → Escaped c (escape_char c)
unfolding escape_char simple_escape
escape_char-Escaped c = elim (Bool-cases (c == b'"')) [
  | inl h ↦ escaped_at c b'"' h (short b'"' refl refl)
  | inr h1 ↦ elim (Bool-cases (c == b'\\')) [
    | inl h ↦ escaped_at c b'\\' h (short b'\\' refl refl)
    | inr h2 ↦ elim (Bool-cases (c == 10)) [
      | inl h ↦ escaped_at c 10 h (short b'n' refl refl)
      | inr h3 ↦ elim (Bool-cases (c == 13)) [
        | inl h ↦ escaped_at c 13 h (short b'r' refl refl)
        | inr h4 ↦ elim (Bool-cases (c == 9)) [
          | inl h ↦ escaped_at c 9 h (short b't' refl refl)
          | inr h5 ↦ elim (Bool-cases (c == 8)) [
            | inl h ↦ escaped_at c 8 h (short b'b' refl refl)
            | inr h6 ↦ elim (Bool-cases (c == 12)) [
              | inl h ↦ escaped_at c 12 h (short b'f' refl refl)
              | inr h7 ↦ elim (Bool-cases (ltb c 0x20)) [
                | inl h ↦ rw (h1, h2, h3, h4, h5, h6, h7, h) (control (ground arith))
                | inr h ↦ rw (h1, h2, h3, h4, h5, h6, h7, h) (plain h1 h2 h)
              ]
            ]
          ]
        ]
      ]
    ]
  ]
]

quad_digit-hex_digit : (d : ℕ) → d < 16 → quad_digit (hex_digit d) ≡ some d
unfolding quad_digit hex_digit
quad_digit-hex_digit d h = ground arith

read_digits_step :
    (n code c d : ℕ) (s : Bytes) (p : Place)
    → quad_digit c ≡ some d
    → read_digits (suc n) code (c ∷ s) p ≡ read_digits n ((code * 2 ^ 4 + d) % 2 ^ 32) s (move p c)
unfolding read_digits
read_digits_step n code c d s p h = rw (h, read_digits)

read_quad-control :
    (c : ℕ) (s : Bytes) (p : Place)
    → c < 32
    → (q : Place) × (read_quad
          (b'0' ∷ b'0' ∷ hex_digit (c / 2 ^ 4) ∷ hex_digit (bit_and c 0x0f) ∷ s)
          p
        ≡ quad c s q)
unfolding read_quad
read_quad-control c s p h =
    let long : ltb (suc (suc (suc (suc (length s))))) 4 ≡ false = ground arith in
    let zero_digit : quad_digit b'0' ≡ some 0 = unfold quad_digit in refl in
    let mask = bit_and_0f c in
    let high = quad_digit-hex_digit (c / 2 ^ 4) (omega arith) in
    let low = quad_digit-hex_digit (bit_and c 0x0f) (omega (arith, mask)) in
    let code : ((0 * 2 ^ 4 + c / 2 ^ 4) % 2 ^ 32 * 2 ^ 4 + bit_and c 0x0f) % 2 ^ 32 ≡ c =
      omega (arith, mask) in
    (
      move (move (move (move p b'0') b'0') (hex_digit (c / 2 ^ 4))) (hex_digit (bit_and c 0x0f)),
      rw (long, read_quad)
          (read_digits_step 3 0 b'0' 0 _ p zero_digit
            ∙ read_digits_step 2 0 b'0' 0 _ _ zero_digit
            ∙ read_digits_step 1 0 _ _ _ _ high
            ∙ read_digits_step 0 _ _ _ s _ low
            ∙ (unfold read_digits in rw code)),
    )

utf8_bytes-control : (c : ℕ) → c < 32 → utf8_bytes c ≡ c ∷ []
unfolding utf8_bytes
utf8_bytes-control c h =
    let small : leb c 0x7f ≡ true = ground arith in
    let same : c % 2 ^ 8 ≡ c = omega arith in rw (small, same)

unicode_escape-control :
    (c : ℕ) (s : Bytes) (p : Place)
    → c < 32
    → (q : Place) × (unicode_escape
          (b'0' ∷ b'0' ∷ hex_digit (c / 2 ^ 4) ∷ hex_digit (bit_and c 0x0f) ∷ s)
          p
        ≡ parsed c s q)
unfolding unicode_escape
unicode_escape-control c s p h =
    let (q, e) = read_quad-control c s p h in
    let not_high : leb 0xd800 c ≡ false = ground arith in
    let not_low : leb 0xdc00 c ≡ false = ground arith in
    (q, rw (e, unicode_escape, not_high, not_low))

-- A round of the loop that appends.
string_loop_appends :
    (c : ℕ) (s : Bytes) (p : Place) (fuel : ℕ) (out : Bytes) {b t : Bytes} {q : Place}
    → string_step c s (move p c) ≡ appends (parsed b t q)
    → string_loop (suc fuel) (c ∷ s) p out ≡ string_loop fuel t q (out ++ b)
unfolding string_loop
string_loop_appends c s p fuel out h = rw (h, string_loop)

-- One byte is read by one round of the loop.
string_loop-Escaped :
    (c : ℕ) {t : Bytes} (fuel : ℕ) (s : Bytes) (p : Place) (out : Bytes)
    → Escaped c t
    → (q : Place) × (string_loop (suc fuel) (t ++ s) p out ≡ string_loop fuel s q (out ++ c ∷ []))
unfolding string_step escape_bytes
string_loop-Escaped c fuel s p out (short e not_u value) =
    (move (move p b'\\') e, string_loop_appends b'\\' (e ∷ s) p fuel out (rw (not_u, value)))
string_loop-Escaped c fuel s p out (control h) =
    let (q, e) = unicode_escape-control c s (move (move p b'\\') b'u') h in
    (q, string_loop_appends b'\\' _ p fuel out (rw (e, utf8_bytes-control c h)))
string_loop-Escaped c fuel s p out (plain h1 h2 h3) =
    (move p c, string_loop_appends c s p fuel out (rw (h1, h2, h3)))

string_loop-escape_json :
    (s rest : Bytes) (fuel : ℕ) (p : Place) (out : Bytes)
    → length s < fuel
    → (q : Place) × (string_loop fuel (escape_json s ++ b'"' ∷ rest) p out
        ≡ parsed (out ++ s) rest q)
unfolding escape_json
string_loop-escape_json s rest zero p out h = absurd (omega arith)
string_loop-escape_json [] rest (suc fuel) p out h =
    (move p b'"', unfold string_loop string_step in rw append-nil)
string_loop-escape_json (c ∷ s) rest (suc fuel) p out h =
    let (q, e) =
      string_loop-Escaped c fuel (escape_json s ++ b'"' ∷ rest) p out (escape_char-Escaped c) in
    let (r, f) = string_loop-escape_json s rest fuel q (out ++ c ∷ []) (omega arith) in
    (r, rw (append_assoc, e, f, append_assoc))

length-escape_char : (c : ℕ) → 1 ≤ length (escape_char c)
length-escape_char c = positive (escape_char-Escaped c)
  where
    positive : {t : Bytes} → Escaped c t → 1 ≤ length t
    positive (short e h k) = omega arith
    positive (control h) = omega arith
    positive (plain h1 h2 h3) = omega arith

length-escape_json : (s : Bytes) → length s ≤ length (escape_json s)
unfolding escape_json
length-escape_json [] = omega arith
length-escape_json (c ∷ s) = omega (
  arith,
  length-append (escape_char c) (escape_json s),
  length-escape_char c,
  length-escape_json s,
)

-- Between quotes, the reader gives back the bytes that the writer escaped, whatever follows.
pub parse_string-quoted :
    (s rest : Bytes) (p : Place)
    → (q : Place) × (parse_string (b'"' ∷ (escape_json s ++ b'"' ∷ rest)) p ≡ parsed s rest q)
unfolding parse_string
parse_string-quoted s rest p =
    string_loop-escape_json s rest _ (move p b'"') []
      (omega (arith, length-escape_json s, length-append (escape_json s) (b'"' ∷ rest)))
