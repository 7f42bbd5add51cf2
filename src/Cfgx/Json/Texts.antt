-- ===== src/Cfgx/Json/Texts.antt =====
-- The text of an array or an object from its first item on, as `AppendJson` of src/cfgx.cpp writes it.
use toolx_cpp.Prelude.{
  ℕ, suc, ◌≡◌, refl, ap, arith, true, false, [], ◌∷◌, ◌++◌, append_assoc, Bytes, All, Option,
  Bool-cases, inl, inr, ◌==◌, ltb,
}
use toolx_cpp.Cfgx.Node.{
  Node, null, boolean, integer, double, string, object, array, Entries, entry, Elements, element,
}
use toolx_cpp.Cfgx.Json.Cursor.{first_place, is_space}
use toolx_cpp.Cfgx.Json.Number.{is_number_char}
use toolx_cpp.Cfgx.Json.Number.RoundTrip.{Ends}
use toolx_cpp.Cfgx.Json.Printer.{
  quoted, comma_before, comma_before_entry, line_break, after_colon, append_json, append_elements,
  append_entries,
}
use toolx_cpp.Cfgx.Json.Spaces.{IsSpace}
use toolx_cpp.Cfgx.Json.Values.{
  IsPrintable, IsNumberText, int64_text-IsNumberText, double_text-IsNumberText, number_char-plain,
}
use toolx_cpp.Cfgx.Json.Rounds.{Opens}

pub space-no_number : (c : ℕ) → is_space c ≡ true → is_number_char c ≡ false
unfolding is_space is_number_char
space-no_number c h = ground arith

-- What stands behind a value is no part of a number.
pub marks :
    (is_number_char b']' ≡ false) × (is_number_char b'}' ≡ false) × (is_number_char b',' ≡ false)
unfolding is_number_char
marks = (refl, refl, refl)

-- Space in front of a bracket or a comma.
pub Ends-spaces :
    (b : Bytes) (c : ℕ) (s : Bytes) → All IsSpace b → is_number_char c ≡ false → Ends (b ++ c ∷ s)
Ends-spaces [] c s h e = e
Ends-spaces (d ∷ b) c s (hd, hb) e = space-no_number d hd

module _ (show_double : ℕ → Bytes) (indent : ℕ) where
  -- The text from the first item on up to the rest, where `ending` stands before the bracket.
  abbrev pub elements_text : Node → Elements → ℕ → Bytes → Bytes → Bytes
  elements_text n xs depth ending rest =
      append_json show_double indent n (suc depth)
      ++ (comma_before xs
          ++ (append_elements show_double indent xs depth ++ (ending ++ b']' ∷ rest)))

  abbrev pub entry_text : Node → Entries → ℕ → Bytes → Bytes → Bytes
  entry_text n fs depth ending rest =
      append_json show_double indent n (suc depth)
      ++ (comma_before_entry fs
          ++ (append_entries show_double indent fs depth ++ (ending ++ b'}' ∷ rest)))

  abbrev pub entries_text : Bytes → Node → Entries → ℕ → Bytes → Bytes → Bytes
  entries_text k n fs depth ending rest =
      quoted k ++ (b':' ∷ (after_colon indent ++ entry_text n fs depth ending rest))

  pub array_text :
      (n : Node) (xs : Elements) (depth : ℕ) (rest : Bytes)
      → append_json show_double indent (array (element n xs)) depth ++ rest
        ≡ b'['
          ∷ (line_break indent (suc depth)
              ++ elements_text n xs depth (line_break indent depth) rest)
  unfolding append_json
  array_text n xs depth rest = simp append_assoc

  pub object_text :
      (k : Bytes) (n : Node) (fs : Entries) (depth : ℕ) (rest : Bytes)
      → append_json show_double indent (object (entry k n fs)) depth ++ rest
        ≡ b'{'
          ∷ (line_break indent (suc depth)
              ++ entries_text k n fs depth (line_break indent depth) rest)
  unfolding append_json
  object_text k n fs depth rest = simp append_assoc

  pub elements_text-more :
      (n m : Node) (xs : Elements) (depth : ℕ) (ending rest : Bytes)
      → elements_text n (element m xs) depth ending rest
        ≡ append_json show_double indent n (suc depth)
          ++ (b',' ∷ (line_break indent (suc depth) ++ elements_text m xs depth ending rest))
  unfolding append_json
  elements_text-more n m xs depth ending rest = simp append_assoc

  pub entry_text-more :
      (n : Node) (k : Bytes) (m : Node) (fs : Entries) (depth : ℕ) (ending rest : Bytes)
      → entry_text n (entry k m fs) depth ending rest
        ≡ append_json show_double indent n (suc depth)
          ++ (b',' ∷ (line_break indent (suc depth) ++ entries_text k m fs depth ending rest))
  unfolding append_json
  entry_text-more n k m fs depth ending rest = simp append_assoc

  pub after_colon-IsSpace : All IsSpace (after_colon indent)
  after_colon-IsSpace = elim (Bool-cases (ltb 0 indent)) [
    | inl yes_indent ↦ rw yes_indent (unfold is_space in refl, tt)
    | inr no_indent ↦ rw no_indent tt
  ]

module _ (show_double : ℕ → Bytes) (read_double : Bytes → Option ℕ) (indent : ℕ) where
  abbrev Printable : Node → Type 0
  Printable n = IsPrintable show_double read_double n

  pub Opens-number : (t rest : Bytes) → IsNumberText t → Opens (t ++ rest)
  Opens-number t rest i =
      let (no_space, no_close, _) =
        number_char-plain read_double i.head [] first_place i.number_char in
      record {
        starts = record {
          head = i.head;
          tail = i.tail ++ rest;
          is_cons = ap (λ u. u ++ rest) i.is_cons;
          no_space = no_space;
        };
        no_close = no_close;
      }

  abbrev opens_with : (c : ℕ) (s : Bytes) → is_space c ≡ false → (c == b']') ≡ false → Opens (c ∷ s)
  opens_with c s h k = record {
    starts = record { head = c; tail = s; is_cons = refl; no_space = h };
    no_close = k;
  }

  pub Opens-json :
      (n : Node) (depth : ℕ) (rest : Bytes)
      → Printable n
      → Opens (append_json show_double indent n depth ++ rest)
  unfolding append_json quoted is_space IsPrintable
  Opens-json null depth rest h = opens_with b'n' _ refl refl
  Opens-json (boolean true) depth rest h = opens_with b't' _ refl refl
  Opens-json (boolean false) depth rest h = opens_with b'f' _ refl refl
  Opens-json (integer z) depth rest h = Opens-number _ rest (int64_text-IsNumberText z)
  Opens-json (double d) depth rest h =
      Opens-number _ rest (double_text-IsNumberText show_double read_double d h)
  Opens-json (string s) depth rest h = opens_with b'"' _ refl refl
  Opens-json (object fs) depth rest h = opens_with b'{' _ refl refl
  Opens-json (array xs) depth rest h = opens_with b'[' _ refl refl
