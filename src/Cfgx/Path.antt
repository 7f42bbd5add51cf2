-- ===== src/Cfgx/Path.antt =====
-- Paths into a configuration: `ParsePath`, `EscapePathSegment`, `JoinObjectPath` and
-- `FormatPathTokens` of src/cfgx.cpp. A path is a list of bytes.
pub mod Decimal
pub mod Run
pub mod Rounds
pub mod RoundTrip
pub mod Sound
use toolx_cpp.Prelude.{
  ℕ, zero, suc, ◌+◌, ◌-◌, ◌*◌, ◌/◌, ◌%◌, ◌^◌, Bool, true, false, not, ◌&&◌, ◌||◌, List, [], ◌∷◌,
  ◌++◌, Bytes, length, ltb, leb, ◌==◌, if◌then◌else◌,
}
use toolx_cpp.Cfgx.Error.{
  PathReason, trailing_escape, trailing_dot, empty_segment, unterminated_index, after_empty_key,
  index_too_large, no_digits, missing_bracket, after_index, path_empty, path_without_tokens,
  invalid_path, Result, ok, err,
}

pub data PathToken : Type 0 where
  key : Bytes → PathToken
  index : ℕ → PathToken

-- `std::numeric_limits<std::size_t>::max()`, with 64 bits.
abbrev pub size_max : ℕ
size_max = 2 ^ 64 - 1

-- The path as far as it is read: the tokens, and the key that is being read.
pub data Step : Type 0 where
  stop : Result (List PathToken) → Step
  more : (rest : Bytes) (offset : ℕ) (out : List PathToken) (current : Bytes) → Step

abbrev pub fail : ℕ → PathReason → Step
fail offset reason = stop (err (invalid_path offset reason))

-- `if (!current.empty()) out.push_back(key)`.
unfoldable pub flush : List PathToken → Bytes → List PathToken
flush out [] = out
flush out (c ∷ s) = out ++ key (c ∷ s) ∷ []

-- `i >= path.size() || path[i] == '.' || path[i] == '['`.
unfoldable pub at_boundary : Bytes → Bool
at_boundary [] = true
at_boundary (c ∷ s) = c == b'.' || c == b'['

-- The token behind which a `.` may stand with no key before it: an index or an empty key.
unfoldable pub is_bracketed : PathToken → Bool
is_bracketed (index n) = true
is_bracketed (key []) = true
is_bracketed (key (c ∷ s)) = false

-- `!out.empty()` and such a token at the back.
unfoldable pub ends_bracketed : List PathToken → Bool
ends_bracketed [] = false
ends_bracketed (t ∷ []) = is_bracketed t
ends_bracketed (t ∷ u ∷ ts) = ends_bracketed (u ∷ ts)

-- The loop over the digits of an index.
pub data Scan : Type 0 where
  scanned : (rest : Bytes) (offset : ℕ) (value : ℕ) → Scan
  too_large : ℕ → Scan

unfoldable pub scan_digits : Bytes → ℕ → ℕ → Scan
scan_digits [] i value = scanned [] i value
scan_digits (c ∷ s) i value =
    let digit = c - b'0' in
    if leb b'0' c && leb c b'9'
    then (if ltb ((size_max - digit) / 10) value
        then too_large i
        else scan_digits s (i + 1) ((value * 10 + digit) % 2 ^ 64))
    else scanned (c ∷ s) i value

-- What stands behind the digits that began at `start`.
unfoldable pub close_index : List PathToken → ℕ → Scan → Step
close_index out start (too_large i) = fail i index_too_large
close_index out start (scanned [] i value) =
    if i == start then fail i no_digits else fail i missing_bracket
close_index out start (scanned (c ∷ s) i value) =
    if i == start
    then fail i no_digits
    else if not (c == b']')
    then fail i missing_bracket
    else if not (at_boundary s)
    then fail (i + 1) after_index
    else more s (i + 1) (out ++ index value ∷ []) []

-- Behind a `[`, with `out` as the pending key is pushed; `i` is the offset behind the bracket.
unfoldable pub open_bracket : Bytes → ℕ → List PathToken → Step
open_bracket [] i out = fail i unterminated_index
open_bracket (c ∷ s) i out =
    if c == b']'
    then (if not (at_boundary s)
        then fail (i + 1) after_empty_key
        else more s (i + 1) (out ++ key [] ∷ []) [])
    else close_index out i (scan_digits (c ∷ s) i 0)

unfoldable pub after_escape : Bytes → ℕ → List PathToken → Bytes → Step
after_escape [] i out current = fail i trailing_escape
after_escape (d ∷ s) i out current = more s (i + 2) out (current ++ d ∷ [])

unfoldable pub after_dot : Bytes → ℕ → List PathToken → Bytes → Step
after_dot [] i out current = fail i trailing_dot
after_dot (d ∷ s) i out [] =
    if not (ends_bracketed out) then fail i empty_segment else more (d ∷ s) (i + 1) out []
after_dot (d ∷ s) i out (b ∷ t) = more (d ∷ s) (i + 1) (flush out (b ∷ t)) []

-- What stands behind the loop.
unfoldable pub finish : List PathToken → Result (List PathToken)
finish [] = err path_without_tokens
finish (t ∷ ts) = ok (t ∷ ts)

-- One round of the loop, at the offset `i`.
unfoldable pub step : Bytes → ℕ → List PathToken → Bytes → Step
step [] i out current = stop (finish (flush out current))
step (c ∷ s) i out current =
    if c == b'\\'
    then after_escape s i out current
    else if c == b'.'
    then after_dot s i out current
    else if c == b'['
    then open_bracket s (i + 1) (flush out current)
    else more s (i + 1) out (current ++ c ∷ [])

-- The loop. `out_of_fuel` is no answer of the source: a fuel above the length of the text is enough.
pub data Answer : Type 0 where
  answer : Result (List PathToken) → Answer
  out_of_fuel : Answer

unfoldable pub loop : ℕ → Bytes → ℕ → List PathToken → Bytes → Answer
loop zero s i out current = out_of_fuel
loop (suc fuel) s i out current = elim (step s i out current) [
  | stop r ↦ answer r
  | more rest j out' current' ↦ loop fuel rest j out' current'
]

unfoldable pub parse_path : Bytes → Answer
parse_path [] = answer (err path_empty)
parse_path (c ∷ s) = loop (suc (length (c ∷ s))) (c ∷ s) 0 [] []

-- `std::to_string` on a size_t: its digits, at most 20.
unfoldable pub decimal : ℕ → ℕ → Bytes → Bytes
decimal zero n out = out
decimal (suc fuel) n out =
    let rest = decimal fuel (n / 10) ((b'0' + n % 10) ∷ out) in
    if ltb n 10 then (b'0' + n) ∷ out else rest

unfoldable pub to_string : ℕ → Bytes
to_string n = decimal 20 n []

-- `EscapePathSegment`.
unfoldable pub escape_chars : Bytes → Bytes
escape_chars [] = []
escape_chars (c ∷ s) =
    (if c == b'\\' || (c == b'.' || (c == b'[' || c == b']')) then b'\\' ∷ c ∷ [] else c ∷ [])
    ++ escape_chars s

unfoldable pub escape_path_segment : Bytes → Bytes
escape_path_segment [] = b'[' ∷ b']' ∷ []
escape_path_segment (c ∷ s) = escape_chars (c ∷ s)

unfoldable pub join_object_path : Bytes → Bytes → Bytes
join_object_path [] escaped_key = escaped_key
join_object_path (c ∷ s) escaped_key = (c ∷ s) ++ (b'.' ∷ escaped_key)

-- The loop of `FormatPathTokens`, and the function from the first token on.
unfoldable pub format_loop : List PathToken → Bytes → Bytes
format_loop [] path = path
format_loop (index n ∷ ts) path = format_loop ts (path ++ (b'[' ∷ (to_string n ++ b']' ∷ [])))
format_loop (key k ∷ ts) path = format_loop ts (join_object_path path (escape_path_segment k))

unfoldable pub format_path_tokens : List PathToken → Bytes
format_path_tokens ts = format_loop ts []
