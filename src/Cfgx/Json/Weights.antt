-- ===== src/Cfgx/Json/Weights.antt =====
-- How many calls of `JsonParser` of src/cfgx.cpp a text of `AppendJson` takes, against its length.
use toolx_cpp.Prelude.{
  ℕ, suc, ◌+◌, ◌*◌, ◌≤◌, ◌≡◌, sym, ◌∙◌, arith, true, false, [], ◌∷◌, append-nil, Bytes, Option,
  length, length-append,
}
use toolx_cpp.Cfgx.Node.{
  Node, null, boolean, integer, double, string, object, array, Entries, end, entry, Elements, nil,
  element,
}
use toolx_cpp.Cfgx.Json.Printer.{
  quoted, comma_before, comma_before_entry, line_break, after_colon, append_json, append_elements,
  append_entries,
}
use toolx_cpp.Cfgx.Json.Values.{IsPrintable, ArePrintable, AllPrintable}
use toolx_cpp.Cfgx.Json.Texts.{Opens-json}

-- The calls that reading a value takes.
unfoldable mutual
  pub weight : Node → ℕ
  weight null = 1
  weight (boolean b) = 1
  weight (integer z) = 1
  weight (double d) = 1
  weight (string s) = 1
  weight (object fs) = suc (entries_weight fs)
  weight (array xs) = suc (elements_weight xs)

  pub entries_weight : Entries → ℕ
  entries_weight end = 0
  entries_weight (entry k n fs) = suc (weight n + entries_weight fs)

  pub elements_weight : Elements → ℕ
  elements_weight nil = 0
  elements_weight (element n xs) = suc (weight n + elements_weight xs)

module _ (show_double : ℕ → Bytes) (read_double : Bytes → Option ℕ) (indent : ℕ) where
  abbrev Printable : Node → Type 0
  Printable n = IsPrintable show_double read_double n

  abbrev json : Node → ℕ → Bytes
  json n depth = append_json show_double indent n depth

  text-length : (n : Node) (depth : ℕ) → Printable n → 1 ≤ length (json n depth)
  text-length n depth h =
      let w = (Opens-json show_double read_double indent n depth [] h).starts in
      let same : json n depth ≡ w.head ∷ w.tail = sym (append-nil _) ∙ w.is_cons in
      rw same (omega arith)

  mutual
    unfolding weight IsPrintable append_json

    pub weight-length :
        (n : Node) (depth : ℕ) → Printable n → weight n + 1 ≤ 2 * length (json n depth)
    weight-length null depth h = omega arith
    weight-length (boolean true) depth h = omega arith
    weight-length (boolean false) depth h = omega arith
    weight-length (integer z) depth h = let l = text-length (integer z) depth h in omega arith
    weight-length (double d) depth h = let l = text-length (double d) depth h in omega arith
    weight-length (string s) depth h = let l = text-length (string s) depth h in omega arith
    weight-length (array xs) depth h =
        let l = elements_weight-length xs depth h in
        rw (length-append (append_elements show_double indent xs depth), length-append)
          (omega arith)
    weight-length (object fs) depth h =
        let l = entries_weight-length fs depth h in
        rw (length-append (append_entries show_double indent fs depth), length-append) (omega arith)

    elements_weight-length :
        (xs : Elements) (depth : ℕ)
        → AllPrintable show_double read_double xs
        → elements_weight xs ≤ 2 * length (append_elements show_double indent xs depth)
    elements_weight-length nil depth h = omega arith
    elements_weight-length (element n xs) depth h =
        let k = weight-length n (suc depth) h.0 in
        let l = elements_weight-length xs depth h.1 in
        rw
          (
            length-append (line_break indent (suc depth)),
            length-append (json n (suc depth)),
            length-append (comma_before xs),
          )
          (omega arith)

    entries_weight-length :
        (fs : Entries) (depth : ℕ)
        → ArePrintable show_double read_double fs
        → entries_weight fs ≤ 2 * length (append_entries show_double indent fs depth)
    entries_weight-length end depth h = omega arith
    entries_weight-length (entry key n fs) depth h =
        let k = weight-length n (suc depth) h.0 in
        let l = entries_weight-length fs depth h.1 in
        rw
          (
            length-append (line_break indent (suc depth)),
            length-append (quoted key),
            length-append (after_colon indent),
            length-append (json n (suc depth)),
            length-append (comma_before_entry fs),
          )
          (omega arith)
