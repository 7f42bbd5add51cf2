-- ===== src/Cfgx/Json/RoundTrip.antt =====
-- `ParseJson` of src/cfgx.cpp on the text of `ToJson`.
use toolx_cpp.Prelude.{
  ℕ, zero, suc, ◌+◌, ◌*◌, ◌≤◌, ◌≡◌, sym, ap, ◌∙◌, arith, true, false, [], ◌∷◌, ◌++◌, append-nil,
  Bytes, All, Option, length,
}
use toolx_cpp.Prelude.Int.{ℤ, pos, negsuc}
use toolx_cpp.Cfgx.Node.{
  Node, null, boolean, integer, double, string, object, array, Entries, end, entry, Elements, nil,
  element,
}
use toolx_cpp.Cfgx.Json.Cursor.{Place, first_place, move, skip_space, parsed}
use toolx_cpp.Cfgx.Json.Number.{int64_text}
use toolx_cpp.Cfgx.Json.Number.RoundTrip.{Ends, parse_number-int64_text}
use toolx_cpp.Cfgx.Json.Parser.{
  read_array, read_object, parse_value, parse_elements, parse_entries, parse_json,
}
use toolx_cpp.Cfgx.Json.Printer.{double_text, line_break, after_colon, append_json, to_json}
use toolx_cpp.Cfgx.Json.Spaces.{IsSpace, skip_space-Starts, skip_space-append, line_break-IsSpace}
use toolx_cpp.Cfgx.Json.Values.{
  IsPrintable, ArePrintable, AllPrintable, int64_text-IsNumberText, double_text-IsNumberText,
  parse_value-number, parse_number-double_text,
}
use toolx_cpp.Cfgx.Json.Rounds.{
  quoted-Starts, last_element, comma_element, last_entry, comma_entry, read_array-filled,
  read_object-filled, Reads, read_string, elements_round, entries_round, read_word, open_array,
  open_object, read_empty_array, read_empty_object,
}
use toolx_cpp.Cfgx.Json.Weights.{weight, entries_weight, elements_weight, weight-length}
use toolx_cpp.Cfgx.Json.Texts.{
  marks, Ends-spaces, elements_text, entries_text, array_text, object_text, elements_text-more,
  entry_text-more, after_colon-IsSpace, Opens-json,
}

module _ (show_double : ℕ → Bytes) (read_double : Bytes → Option ℕ) (indent : ℕ) where
  abbrev Printable : Node → Type 0
  Printable n = IsPrintable show_double read_double n

  abbrev json : Node → ℕ → Bytes
  json n depth = append_json show_double indent n depth

  mutual
    unfolding weight IsPrintable append_json

    read_value :
        (fuel : ℕ) (n : Node) (depth : ℕ) (rest : Bytes) (p : Place)
        → Printable n
        → Ends rest
        → weight n ≤ fuel
        → Reads read_double fuel (json n depth ++ rest) p n rest
    read_value zero null depth rest p h e f = absurd (omega arith)
    read_value zero (boolean b) depth rest p h e f = absurd (omega arith)
    read_value zero (integer z) depth rest p h e f = absurd (omega arith)
    read_value zero (double d) depth rest p h e f = absurd (omega arith)
    read_value zero (string s) depth rest p h e f = absurd (omega arith)
    read_value zero (array xs) depth rest p h e f = absurd (omega arith)
    read_value zero (object fs) depth rest p h e f = absurd (omega arith)
    read_value (suc fuel) null depth rest p h e f = (read_word read_double fuel rest p).0
    read_value (suc fuel) (boolean true) depth rest p h e f = (read_word read_double fuel rest p).1
    read_value (suc fuel) (boolean false) depth rest p h e f = (read_word read_double fuel rest p).2
    read_value (suc fuel) (integer z) depth rest p h e f =
        let (q, g) = parse_number-int64_text read_double z rest p h e in
        let i = int64_text-IsNumberText z in
        (q, parse_value-number read_double fuel (int64_text z) rest p i ∙ g)
    read_value (suc fuel) (double d) depth rest p h e f =
        let (q, g) = parse_number-double_text show_double read_double d rest p h e in
        let i = double_text-IsNumberText show_double read_double d h in
        (q, parse_value-number read_double fuel (double_text show_double d) rest p i ∙ g)
    read_value (suc fuel) (string s) depth rest p h e f = read_string read_double fuel s rest p
    read_value (suc fuel) (array nil) depth rest p h e f = read_empty_array read_double fuel rest p
    read_value (suc fuel) (array (element n xs)) depth rest p h e f =
        let ending = line_break indent depth in
        let text = elements_text show_double indent n xs depth ending rest in
        let w = Opens-json show_double read_double indent n (suc depth) _ h.0 in
        let (q, g) =
          skip_space-append (line_break indent (suc depth)) text (move p b'[')
            (line_break-IsSpace indent (suc depth)) w.starts in
        let (o, r) =
          read_elements fuel n xs depth [] ending rest q tt (line_break-IsSpace indent depth) h
            (omega arith) in
        (
          o,
          rw (array_text show_double indent n xs depth rest) (
              open_array read_double fuel _ p
              ∙ ap (read_array (parse_elements read_double fuel)) g
              ∙ read_array-filled _ text q w r),
        )
    read_value (suc fuel) (object end) depth rest p h e f =
        read_empty_object read_double fuel rest p
    read_value (suc fuel) (object (entry k n fs)) depth rest p h e f =
        let ending = line_break indent depth in
        let text = entries_text show_double indent k n fs depth ending rest in
        let (q, g) =
          skip_space-append (line_break indent (suc depth)) text (move p b'{')
            (line_break-IsSpace indent (suc depth)) (quoted-Starts k _) in
        let (o, r) =
          read_entries fuel k n fs depth [] ending rest q tt (line_break-IsSpace indent depth) h
            (omega arith) in
        (
          o,
          rw (object_text show_double indent k n fs depth rest) (
              open_object read_double fuel _ p
              ∙ ap (read_object (parse_entries read_double fuel)) g
              ∙ read_object-filled _ k _ q r),
        )

    read_elements :
        (fuel : ℕ) (n : Node) (xs : Elements) (depth : ℕ) (b ending rest : Bytes) (p : Place)
        → All IsSpace b
        → All IsSpace ending
        → AllPrintable show_double read_double (element n xs)
        → elements_weight (element n xs) ≤ fuel
        → (q : Place) × (parse_elements read_double fuel
              (b ++ elements_text show_double indent n xs depth ending rest, p)
            ≡ parsed (element n xs) rest q)
    read_elements zero n xs depth b ending rest p hb hc h f = absurd (omega arith)
    read_elements (suc fuel) n nil depth b ending rest p hb hc h f =
        let (q, e) =
          elements_round read_double fuel b _ p hb
            (Opens-json show_double read_double indent n (suc depth) (ending ++ b']' ∷ rest)
              h.0).starts in
        let (o, g) =
          read_value fuel n (suc depth) (ending ++ b']' ∷ rest) q h.0
            (Ends-spaces ending b']' rest hc marks.0) (omega arith) in
        let (r, k) = last_element (parse_elements read_double fuel) n ending rest o hc in
        (r, e ∙ (rw g k))
    read_elements (suc fuel) n (element m ys) depth b ending rest p hb hc h f =
        let again =
          b','
          ∷ (line_break indent (suc depth)
              ++ elements_text show_double indent m ys depth ending rest) in
        let (q, e) =
          elements_round read_double fuel b _ p hb
            (Opens-json show_double read_double indent n (suc depth) again h.0).starts in
        let (o, g) = read_value fuel n (suc depth) again q h.0 marks.2 (omega arith) in
        let (r, k) =
          read_elements fuel m ys depth (line_break indent (suc depth)) ending rest (move o b',')
            (line_break-IsSpace indent (suc depth)) hc h.1 (omega arith) in
        (
          r,
          rw (elements_text-more show_double indent n m ys depth ending rest)
              (e ∙ rw (g, comma_element (parse_elements read_double fuel) n, k)),
        )

    read_entries :
        (fuel : ℕ) (key : Bytes) (n : Node) (fs : Entries) (depth : ℕ) (b ending rest : Bytes)
        (p : Place)
        → All IsSpace b
        → All IsSpace ending
        → ArePrintable show_double read_double (entry key n fs)
        → entries_weight (entry key n fs) ≤ fuel
        → (q : Place) × (parse_entries read_double fuel
              (b ++ entries_text show_double indent key n fs depth ending rest, p)
            ≡ parsed (entry key n fs) rest q)
    read_entries zero key n fs depth b ending rest p hb hc h f = absurd (omega arith)
    read_entries (suc fuel) key n end depth b ending rest p hb hc h f =
        let (q, e) =
          entries_round read_double fuel b key (after_colon indent) _ p hb
            (after_colon-IsSpace show_double indent)
            (Opens-json show_double read_double indent n (suc depth) (ending ++ b'}' ∷ rest)
              h.0).starts in
        let (o, g) =
          read_value fuel n (suc depth) (ending ++ b'}' ∷ rest) q h.0
            (Ends-spaces ending b'}' rest hc marks.1) (omega arith) in
        let (r, k) = last_entry (parse_entries read_double fuel) key n ending rest o hc in
        (r, e ∙ (rw g k))
    read_entries (suc fuel) key n (entry l m gs) depth b ending rest p hb hc h f =
        let again =
          b','
          ∷ (line_break indent (suc depth)
              ++ entries_text show_double indent l m gs depth ending rest) in
        let (q, e) =
          entries_round read_double fuel b key (after_colon indent) _ p hb
            (after_colon-IsSpace show_double indent)
            (Opens-json show_double read_double indent n (suc depth) again h.0).starts in
        let (o, g) = read_value fuel n (suc depth) again q h.0 marks.2 (omega arith) in
        let (r, k) =
          read_entries fuel l m gs depth (line_break indent (suc depth)) ending rest (move o b',')
            (line_break-IsSpace indent (suc depth)) hc h.1 (omega arith) in
        (
          r,
          rw (entry_text-more show_double indent n l m gs depth ending rest)
              (e ∙ rw (g, comma_entry (parse_entries read_double fuel) key n, k)),
        )

  read_text :
      (n : Node) → Printable n → (q : Place) × (parse_json read_double (json n 0) ≡ parsed n [] q)
  unfolding parse_json skip_space
  read_text n h =
      let w = (Opens-json show_double read_double indent n 0 [] h).starts in
      let enough = weight-length show_double read_double indent n 0 h in
      let (q, e) = read_value (2 * length (json n 0) + 1) n 0 [] first_place h tt (omega arith) in
      let plain : json n 0 ++ [] ≡ json n 0 = append-nil _ in
      let start : skip_space (json n 0) first_place ≡ (json n 0, first_place) =
        ap (λ t. skip_space t first_place) (sym plain)
        ∙ skip_space-Starts _ _ w
        ∙ ap (λ t. (t, first_place)) plain in
      let f : parse_value read_double (2 * length (json n 0) + 1) (json n 0, first_place)
          ≡ parsed n [] q =
        ap (λ t. parse_value read_double (2 * length (json n 0) + 1) (t, first_place)) (sym plain)
        ∙ e in
      (q, rw (start, f))

module _ (show_double : ℕ → Bytes) (read_double : Bytes → Option ℕ) where
  -- `parse_json` reads the text of `to_json`, under every indent, as the node that was written, where the
  -- integers fit an int64_t, and each double is finite and is read back from its text, a number of JSON.
  pub parse_json-to_json :
      (n : Node) (indent : ℤ)
      → IsPrintable show_double read_double n
      → (q : Place) × (parse_json read_double (to_json show_double n indent) ≡ parsed n [] q)
  unfolding to_json
  parse_json-to_json n (pos indent) h = read_text show_double read_double indent n h
  parse_json-to_json n (negsuc k) h = read_text show_double read_double 0 n h
