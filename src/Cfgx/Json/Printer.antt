-- ===== src/Cfgx/Json/Printer.antt =====
-- `AppendJson` and `ToJson`.
use toolx_cpp.Prelude.{
  ℕ, suc, ◌*◌, ◌/◌, ◌%◌, ◌^◌, Bool, false, not, ◌&&◌, ◌||◌, [], ◌∷◌, ◌++◌, Bytes, ltb, ◌==◌,
  if◌then◌else◌, replicate, codes,
}
use toolx_cpp.Prelude.Int.{ℤ, pos, negsuc}
use toolx_cpp.Cfgx.Node.{
  Node, null, boolean, integer, double, string, object, array, Entries, end, entry, Elements, nil,
  element,
}
use toolx_cpp.Cfgx.Json.Text.{escape_json}
use toolx_cpp.Cfgx.Json.Number.{int64_text}

-- `std::isfinite` on the bits of a double.
unfoldable pub is_finite : ℕ → Bool
is_finite bits = not (bits / 2 ^ 52 % 2 ^ 11 == 2047)

-- Whether the text has a `.`, an `e` or an `E`.
unfoldable pub has_point : Bytes → Bool
has_point [] = false
has_point (c ∷ s) = (c == b'.' || (c == b'e' || c == b'E')) || has_point s

unfoldable pub quoted : Bytes → Bytes
quoted s = b'"' ∷ (escape_json s ++ b'"' ∷ [])

-- The comma behind an item that is not the last.
abbrev pub comma_before : Elements → Bytes
comma_before nil = []
comma_before (element n xs) = b',' ∷ []

abbrev pub comma_before_entry : Entries → Bytes
comma_before_entry end = []
comma_before_entry (entry k n fs) = b',' ∷ []

module _ (indent : ℕ) where
  -- The end of a line and the start of the next, where lines are asked for.
  unfoldable pub line_break : ℕ → Bytes
  line_break depth = if ltb 0 indent then 10 ∷ replicate (depth * indent) b' ' else []

  abbrev pub after_colon : Bytes
  after_colon = if ltb 0 indent then b' ' ∷ [] else []

  -- The break behind the last item.
  abbrev pub closing_break : ℕ → Elements → Bytes
  closing_break depth nil = []
  closing_break depth (element n xs) = line_break depth

  abbrev pub closing_break_entries : ℕ → Entries → Bytes
  closing_break_entries depth end = []
  closing_break_entries depth (entry k n fs) = line_break depth

-- The text of a double that `number << value` writes with 17 digits is the argument `show_double`.
module _ (show_double : ℕ → Bytes) where
  unfoldable pub double_text : ℕ → Bytes
  double_text d =
      show_double d ++ (if is_finite d && not (has_point (show_double d)) then codes ".0" else [])

module _ (show_double : ℕ → Bytes) (indent : ℕ) where
  unfoldable mutual
    pub append_json : Node → ℕ → Bytes
    append_json null depth = codes "null"
    append_json (boolean b) depth = if b then codes "true" else codes "false"
    append_json (integer z) depth = int64_text z
    append_json (double d) depth = double_text show_double d
    append_json (string s) depth = quoted s
    append_json (array xs) depth =
        b'[' ∷ (append_elements xs depth ++ (closing_break indent depth xs ++ b']' ∷ []))
    append_json (object fs) depth =
        b'{' ∷ (append_entries fs depth ++ (closing_break_entries indent depth fs ++ b'}' ∷ []))

    pub append_elements : Elements → ℕ → Bytes
    append_elements nil depth = []
    append_elements (element n xs) depth =
        line_break indent (suc depth)
        ++ (append_json n (suc depth) ++ (comma_before xs ++ append_elements xs depth))

    pub append_entries : Entries → ℕ → Bytes
    append_entries end depth = []
    append_entries (entry k n fs) depth =
        line_break indent (suc depth)
        ++ (quoted k
            ++ (b':'
                ∷ (after_colon indent
                    ++ (append_json n (suc depth)
                        ++ (comma_before_entry fs ++ append_entries fs depth)))))

-- `ToJson`, with the indent that is made no less than 0.
unfoldable pub to_json : (ℕ → Bytes) → Node → ℤ → Bytes
to_json show_double n (pos indent) = append_json show_double indent n 0
to_json show_double n (negsuc k) = append_json show_double 0 n 0
