-- ===== src/Schemax/Paths.antt =====
-- The paths of the issues of src/schemax.cpp, read by `ParsePath` of src/cfgx.cpp.
use toolx_cpp.Prelude.{
  ℕ, ◌≡◌, refl, sym, ap, ◌∙◌, false, ◌||◌, List, [], ◌∷◌, ◌++◌, Bytes, bytes_eq, All, All-append,
  codes, Bool-cases, inl, inr, ◌==◌,
}
use toolx_cpp.Cfgx.Error.{ok}
use toolx_cpp.Cfgx.Path.{
  PathToken, key, index, answer, parse_path, escape_chars, escape_path_segment, join_object_path,
  format_loop, format_path_tokens,
}
use toolx_cpp.Cfgx.Path.RoundTrip.{Fits, snoc-ne-nil, parse_path-format_path_tokens}
use toolx_cpp.Schemax.Nodes.{escape_child, escaped, append_path, append_index}

format_loop-snoc :
    (ts : List PathToken) (t : PathToken) (path : Bytes)
    → format_loop (ts ++ t ∷ []) path ≡ format_loop (t ∷ []) (format_loop ts path)
unfolding format_loop
format_loop-snoc [] t path = refl
format_loop-snoc (index n ∷ ts) t path = format_loop-snoc ts t _
format_loop-snoc (key k ∷ ts) t path = format_loop-snoc ts t _

escape_child-plain : (s : Bytes) → escape_child false s ≡ escape_chars s
unfolding escape_child escape_chars
escape_child-plain [] = refl
escape_child-plain (c ∷ s) =
    elim (Bool-cases (c == b'\\' || (c == b'.' || (c == b'[' || c == b']')))) [
      | inl special ↦ rw (special, escape_child-plain s)
      | inr plain ↦ rw (plain, escape_child-plain s)
    ]

escaped-plain : (k : Bytes) → bytes_eq k (codes "$") ≡ false → escaped k ≡ escape_path_segment k
unfolding escaped escape_path_segment
escaped-plain [] h = refl
escaped-plain (c ∷ k) h = rw h (escape_child-plain (c ∷ k))

append_path-join :
    (path k : Bytes)
    → bytes_eq k (codes "$") ≡ false
    → append_path path k ≡ join_object_path path (escape_path_segment k)
unfolding append_path join_object_path
append_path-join [] k h = escaped-plain k h
append_path-join (c ∷ path) k h = rw (escaped-plain k h)

append_path-format :
    (ts : List PathToken) (k : Bytes)
    → bytes_eq k (codes "$") ≡ false
    → append_path (format_path_tokens ts) k ≡ format_path_tokens (ts ++ key k ∷ [])
unfolding format_path_tokens format_loop
append_path-format ts k h = append_path-join _ k h ∙ sym (format_loop-snoc ts (key k) [])

append_index-format :
    (ts : List PathToken) (i : ℕ)
    → append_index (format_path_tokens ts) i ≡ format_path_tokens (ts ++ index i ∷ [])
unfolding format_path_tokens format_loop append_index
append_index-format ts i = sym (format_loop-snoc ts (index i) [])

-- `ParsePath` reads a formatted path with a key other than `$`, or an index, appended as the tokens of the
-- path with that token behind them, where the indices fit a size_t.
pub parse_path-append :
    (ts : List PathToken) (k : Bytes) (i : ℕ)
    → All Fits ts
    → bytes_eq k (codes "$") ≡ false
    → Fits (index i)
    → (parse_path (append_path (format_path_tokens ts) k) ≡ answer (ok (ts ++ key k ∷ [])))
      × (parse_path (append_index (format_path_tokens ts) i) ≡ answer (ok (ts ++ index i ∷ [])))
parse_path-append ts k i f h fi = (
  ap parse_path (append_path-format ts k h)
      ∙ parse_path-format_path_tokens _ (snoc-ne-nil ts (key k))
          (All-append Fits ts (key k ∷ []) f (tt, tt)),
  ap parse_path (append_index-format ts i)
      ∙ parse_path-format_path_tokens _ (snoc-ne-nil ts (index i))
          (All-append Fits ts (index i ∷ []) f (fi, tt)),
)
