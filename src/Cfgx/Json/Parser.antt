-- ===== src/Cfgx/Json/Parser.antt =====
-- `ParseValue`, `ParseArray`, `ParseObject` and `Parse` of `JsonParser`, and `ParseJson`.
use toolx_cpp.Prelude.{
  ℕ, zero, suc, ◌+◌, ◌*◌, true, false, [], ◌∷◌, Bytes, Option, none, some, ◌==◌, if◌then◌else◌,
  length, codes,
}
use toolx_cpp.Cfgx.Node.{
  Node, null, boolean, string, object, array, Entries, end, entry, Elements, nil, element,
}
use toolx_cpp.Cfgx.Json.Cursor.{
  Place, first_place, move, skip_space, Parsed, parsed, failed, spent, ◌>>=◌, JsonReason,
  trailing_content, unexpected_end, invalid_true, invalid_false, invalid_null, unterminated_array,
  expected_in_array, unterminated_object, expected_colon, expected_in_object,
}
use toolx_cpp.Cfgx.Json.Text.{parse_string}
use toolx_cpp.Cfgx.Json.Number.{parse_number}

-- The literal `word` where the text starts with it, which ends no line.
unfoldable pub literal : Bytes → Bytes → Place → Option (Bytes × Place)
literal [] s p = some (s, p)
literal (c ∷ word) [] p = none
literal (c ∷ word) (d ∷ s) p = if c == d then literal word s (move p d) else none

unfoldable pub parse_literal : Bytes → Node → JsonReason → Bytes → Place → Parsed Node
parse_literal word n reason s p = elim (literal word s p) [
  | none ↦ failed reason p
  | some (t, q) ↦ parsed n t q
]

-- What stands at a value: the opening of an object or an array, or a value that holds no other.
pub data Start : Type 0 where
  opens_object : (rest : Bytes) → Place → Start
  opens_array : (rest : Bytes) → Place → Start
  scalar : Parsed Node → Start

-- What stands behind an item: a comma, the closing bracket, or neither.
pub data Separator : Type 0 where
  comma : (rest : Bytes) → Place → Separator
  close : (rest : Bytes) → Place → Separator
  neither : Place → Separator

unfoldable pub separator : ℕ → Bytes × Place → Separator
separator bracket ([], p) = neither p
separator bracket (c ∷ s, p) =
    if c == b',' then comma s (move p c) else if c == bracket then close s (move p c) else neither p

-- Behind an opening bracket: whether the closing one stands there, and where to go on.
unfoldable pub is_closed : ℕ → Bytes × Place → Option (Bytes × Place)
is_closed bracket ([], p) = none
is_closed bracket (c ∷ s, p) = if c == bracket then some (s, move p c) else none

-- `ParseStringLiteral` at a key, and the colon behind it.
abbrev pub after_key : Bytes → Bytes × Place → Parsed Bytes
after_key k ([], p) = failed expected_colon p
after_key k (c ∷ s, p) =
    if c == b':'
    then (let (t, q) = skip_space s (move p c) in parsed k t q)
    else failed expected_colon p

unfoldable pub parse_key : Bytes × Place → Parsed Bytes
parse_key (s, p) = parse_string s p >>= (λ k t q. after_key k (skip_space t q))

-- What stands behind the opening bracket, where `items` is the loop.
unfoldable pub read_array : (Bytes × Place → Parsed Elements) → Bytes × Place → Parsed Node
read_array items sp = elim (is_closed b']' sp) [
  | some (u, r) ↦ parsed (array nil) u r
  | none ↦ items sp >>= (λ xs u r. parsed (array xs) u r)
]

unfoldable pub read_object : (Bytes × Place → Parsed Entries) → Bytes × Place → Parsed Node
read_object items sp = elim (is_closed b'}' sp) [
  | some (u, r) ↦ parsed (object end) u r
  | none ↦ items sp >>= (λ fs u r. parsed (object fs) u r)
]

-- The end of a round, where `again` is the rest of the loop.
unfoldable pub more_elements :
    (Bytes × Place → Parsed Elements) → Node → Separator → Parsed Elements
more_elements again v (comma u r) = again (u, r) >>= (λ xs w o. parsed (element v xs) w o)
more_elements again v (close u r) = parsed (element v nil) u r
more_elements again v (neither r) = failed expected_in_array r

unfoldable pub more_entries :
    (Bytes × Place → Parsed Entries) → Bytes → Node → Separator → Parsed Entries
more_entries again k v (comma u r) = again (u, r) >>= (λ fs w o. parsed (entry k v fs) w o)
more_entries again k v (close u r) = parsed (entry k v end) u r
more_entries again k v (neither r) = failed expected_in_object r

module _ (read_double : Bytes → Option ℕ) where
  -- `ParseValue` behind its `SkipWhitespace`, up to the calls of `ParseObject` and `ParseArray`.
  unfoldable pub start_at : Bytes × Place → Start
  start_at ([], p) = scalar (failed unexpected_end p)
  start_at (c ∷ s, p) =
      if c == b'{'
      then opens_object s (move p c)
      else if c == b'['
      then opens_array s (move p c)
      else if c == b'"'
      then scalar (parse_string (c ∷ s) p >>= (λ t u q. parsed (string t) u q))
      else if c == b't'
      then scalar (parse_literal (codes "true") (boolean true) invalid_true (c ∷ s) p)
      else if c == b'f'
      then scalar (parse_literal (codes "false") (boolean false) invalid_false (c ∷ s) p)
      else if c == b'n'
      then scalar (parse_literal (codes "null") null invalid_null (c ∷ s) p)
      else scalar (parse_number read_double (c ∷ s) p)

  -- The loops over the items return what the loop appends from there on. A call costs a unit of fuel.
  unfoldable mutual
    pub parse_value : ℕ → Bytes × Place → Parsed Node
    parse_value zero sp = spent
    parse_value (suc fuel) (s, p) = elim (start_at (skip_space s p)) [
      | scalar r ↦ r
      | opens_array t q ↦ read_array (parse_elements fuel) (skip_space t q)
      | opens_object t q ↦ read_object (parse_entries fuel) (skip_space t q)
    ]

    pub parse_elements : ℕ → Bytes × Place → Parsed Elements
    parse_elements zero sp = spent
    parse_elements (suc fuel) ([], p) = failed unterminated_array p
    parse_elements (suc fuel) (c ∷ s, p) =
        parse_value fuel (skip_space (c ∷ s) p)
        >>= (λ v t q. more_elements (parse_elements fuel) v (separator b']' (skip_space t q)))

    pub parse_entries : ℕ → Bytes × Place → Parsed Entries
    parse_entries zero sp = spent
    parse_entries (suc fuel) ([], p) = failed unterminated_object p
    parse_entries (suc fuel) (c ∷ s, p) = parse_key (skip_space (c ∷ s) p) >>= (λ k t q.
        parse_value fuel (t, q)
        >>= (λ v u r. more_entries (parse_entries fuel) k v (separator b'}' (skip_space u r))))

  -- `Parse`: the end of the text behind the value.
  abbrev pub at_end : Node → Bytes × Place → Parsed Node
  at_end v ([], p) = parsed v [] p
  at_end v (c ∷ s, p) = failed trailing_content p

  unfoldable pub parse_json : Bytes → Parsed Node
  parse_json text =
      parse_value (2 * length text + 1) (skip_space text first_place)
      >>= (λ v t q. at_end v (skip_space t q))
