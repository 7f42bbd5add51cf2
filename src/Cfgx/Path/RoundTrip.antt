-- ===== src/Cfgx/Path/RoundTrip.antt =====
-- Parsing what `FormatPathTokens` wrote gives the tokens back.
use toolx_cpp.Prelude.{
  ℕ, ◌+◌, ◌≤◌, ◌≡◌, ◌≢◌, refl, sym, ap, ◌∙◌, true, List, [], ◌∷◌, ◌++◌, Bytes, All, Bool-cases, inl,
  inr, append_assoc, append-nil,
}
use mathlib.Core.List.{cons-ne-nil}
use toolx_cpp.Cfgx.Error.{ok}
use toolx_cpp.Cfgx.Path.{
  PathToken, key, index, size_max, flush, at_boundary, is_bracketed, ends_bracketed, step, answer,
  parse_path, to_string, escape_path_segment, join_object_path, format_loop, format_path_tokens,
}
use toolx_cpp.Cfgx.Path.Rounds.{
  ends_bracketed-append, finish-ok, run_empty_key, run_dot, run_index, special, escape_special,
  escape_plain, run-escape_chars,
}
use toolx_cpp.Cfgx.Path.Run.{run, run-stop}

-- The text of the tokens behind the first.
tail_text : List PathToken → Bytes
tail_text [] = []
tail_text (index n ∷ ts) = b'[' ∷ to_string n ++ b']' ∷ tail_text ts
tail_text (key k ∷ ts) = b'.' ∷ escape_path_segment k ++ tail_text ts

at_boundary-tail_text : (ts : List PathToken) → at_boundary (tail_text ts) ≡ true
unfolding tail_text at_boundary
at_boundary-tail_text [] = refl
at_boundary-tail_text (index n ∷ ts) = refl
at_boundary-tail_text (key k ∷ ts) = refl

-- Every index fits a size_t.
abbrev pub Fits : PathToken → Type 0
Fits (index n) = n ≤ size_max
Fits (key k) = Unit {0}

pub snoc-ne-nil : (out : List PathToken) (t : PathToken) → out ++ t ∷ [] ≢ []
snoc-ne-nil [] t = cons-ne-nil t []
snoc-ne-nil (u ∷ out) t = cons-ne-nil u _

escape_path_segment-ne-nil : (k s : Bytes) → escape_path_segment k ++ s ≢ []
unfolding escape_path_segment
escape_path_segment-ne-nil [] s = cons-ne-nil _ _
escape_path_segment-ne-nil (c ∷ k) s = elim (Bool-cases (special c k s)) [
  | inl h ↦ rw (escape_special c k s h) (cons-ne-nil _ _)
  | inr h ↦ rw (escape_plain c k s h) (cons-ne-nil _ _)
]

-- From a point on where the tokens before it are `flush out cur`.
run-tail_text :
    (ts : List PathToken) (i : ℕ) (out : List PathToken) (cur : Bytes)
    → All Fits ts
    → flush out cur ≢ []
    → (cur ≡ [] → ends_bracketed out ≡ true)
    → run (tail_text ts) i out cur ≡ answer (ok (flush out cur ++ ts))
unfolding tail_text flush escape_path_segment is_bracketed
run-tail_text [] i out cur f ne b =
    run-stop [] i out cur (unfold step in rw (finish-ok _ ne, append-nil))
run-tail_text (index n ∷ ts) i out cur (fn, fs) ne b =
    let (j, e) = run_index i out cur n (tail_text ts) fn (at_boundary-tail_text ts) in
    rw (
      e,
      run-tail_text ts j (flush out cur ++ index n ∷ []) [] fs (snoc-ne-nil _ _)
          (λ _. ends_bracketed-append _ (index n) refl),
      append_assoc,
    )
run-tail_text (key [] ∷ ts) i out cur (_, fs) ne b = rw (
  run_dot i out cur (b'[' ∷ b']' ∷ tail_text ts) (cons-ne-nil _ _) b,
  run_empty_key (i + 1) (flush out cur) [] (tail_text ts) (at_boundary-tail_text ts),
  run-tail_text ts (i + 1 + 1 + 1) (flush out cur ++ key [] ∷ []) [] fs (snoc-ne-nil _ _)
      (λ _. ends_bracketed-append _ (key []) refl),
  append_assoc,
)
run-tail_text (key (c ∷ k) ∷ ts) i out cur (_, fs) ne b =
    let (j, e) = run-escape_chars (c ∷ k) (tail_text ts) (i + 1) (flush out cur) [] in
    rw (
      run_dot i out cur _ (escape_path_segment-ne-nil (c ∷ k) (tail_text ts)) b,
      e,
      run-tail_text ts j (flush out cur) (c ∷ k) fs (snoc-ne-nil _ _) (λ h. cc),
      append_assoc,
    )

-- The text of the first token.
head_text : PathToken → Bytes
head_text (index n) = b'[' ∷ to_string n ++ b']' ∷ []
head_text (key k) = escape_path_segment k

append-ne-nil : (s : Bytes) (c : ℕ) (t : Bytes) → s ++ c ∷ t ≢ []
append-ne-nil [] c t = cons-ne-nil c t
append-ne-nil (b ∷ s) c t = cons-ne-nil b _

head_text-ne-nil : (t : PathToken) (s : Bytes) → head_text t ++ s ≢ []
unfolding head_text
head_text-ne-nil (index n) s = cons-ne-nil _ _
head_text-ne-nil (key k) s = escape_path_segment-ne-nil k s

format_loop-tail_text :
    (ts : List PathToken) (path : Bytes) → path ≢ [] → format_loop ts path ≡ path ++ tail_text ts
unfolding format_loop join_object_path tail_text
format_loop-tail_text [] path h = sym (append-nil path)
format_loop-tail_text (index n ∷ ts) path h =
    format_loop-tail_text ts _ (append-ne-nil path b'[' (to_string n ++ b']' ∷ []))
    ∙ simp append_assoc
format_loop-tail_text (key k ∷ ts) [] h = absurd (h refl)
format_loop-tail_text (key k ∷ ts) (c ∷ p) h =
    format_loop-tail_text ts _ (cons-ne-nil c _) ∙ simp append_assoc

format-head :
    (t : PathToken) (ts : List PathToken)
    → format_path_tokens (t ∷ ts) ≡ head_text t ++ tail_text ts
unfolding format_path_tokens format_loop join_object_path head_text
format-head (index n) ts = format_loop-tail_text ts _ (cons-ne-nil _ _)
format-head (key k) ts =
    format_loop-tail_text ts _ (λ e. escape_path_segment-ne-nil k [] (append-nil _ ∙ e))

parse_path-run : (s : Bytes) → s ≢ [] → parse_path s ≡ run s 0 [] []
unfolding parse_path
parse_path-run [] h = absurd (h refl)
parse_path-run (c ∷ s) h = refl

run-head_text :
    (t : PathToken) (ts : List PathToken)
    → Fits t
    → All Fits ts
    → run (head_text t ++ tail_text ts) 0 [] [] ≡ answer (ok (t ∷ ts))
unfolding head_text flush is_bracketed escape_path_segment
run-head_text (index n) ts ft fs =
    let (j, e) = run_index 0 [] [] n (tail_text ts) ft (at_boundary-tail_text ts) in
    ap (λ (t : Bytes). run t 0 [] []) (append_assoc (b'[' ∷ to_string n) (b']' ∷ []) (tail_text ts))
    ∙ e
    ∙ (run-tail_text ts j (index n ∷ []) [] fs (cons-ne-nil _ _)
        (λ _. unfold ends_bracketed in refl))
run-head_text (key []) ts ft fs =
    rw (run_empty_key 0 [] [] (tail_text ts) (at_boundary-tail_text ts)) (
      run-tail_text ts _ (key [] ∷ []) [] fs (cons-ne-nil _ _) (λ _. unfold ends_bracketed in refl))
run-head_text (key (c ∷ k)) ts ft fs =
    let (j, e) = run-escape_chars (c ∷ k) (tail_text ts) 0 [] [] in
    rw e (run-tail_text ts j [] (c ∷ k) fs (cons-ne-nil _ _) (λ h. cc))

-- Parsing the text of a path gives its tokens back: keys of any bytes, the empty key and indices of
-- a size_t among them.
pub parse_path-format_path_tokens :
    (ts : List PathToken)
    → ts ≢ []
    → All Fits ts
    → parse_path (format_path_tokens ts) ≡ answer (ok ts)
parse_path-format_path_tokens [] h f = absurd (h refl)
parse_path-format_path_tokens (t ∷ ts) h (ft, fs) =
    rw
      (
        format-head t ts,
        parse_path-run (head_text t ++ tail_text ts) (head_text-ne-nil t (tail_text ts)),
      )
      (run-head_text t ts ft fs)
