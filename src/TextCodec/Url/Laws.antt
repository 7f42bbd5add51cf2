-- ===== src/TextCodec/Url/Laws.antt =====
-- What percent encoding promises: a round trip under every pair of policies, safe characters, and
-- decoding piece by piece.
use toolx_cpp.Prelude.{
  ℕ, ◌≤◌, ◌<◌, ◌≡◌, ◌≢◌, refl, sym, ap, ◌∙◌, arith, true, false, ◌&&◌, not, some, [], ◌∷◌, ◌++◌,
  map, append_assoc, append-nil, Bytes, IsByte, All, All-append, length, ◌==◌, if◌then◌else◌,
  Bool-cases, inl, inr, Option-cases, ◌⊎◌,
}
use toolx_cpp.TextCodec.Defs.{
  decoded, is_unreserved, hex_value, hex_char, join_nibbles, hex_value-hex_char, nibbles_lt,
  join_nibbles_split,
}
use toolx_cpp.TextCodec.Url.{
  UrlSpacePolicy, percent20, plus, UrlDecodePlusPolicy, is_plus, is_plus_as_space, encode_byte,
  url_encode, plain, url_loop, url_decode,
}

module _ (p : UrlDecodePlusPolicy) where
  plain_step :
      (c : ℕ) (s out : Bytes)
      → c ≢ b'%'
      → url_loop p (c ∷ s) out ≡ url_loop p s (out ++ plain p c ∷ [])
  unfolding url_loop
  plain_step c [] out h = ground arith
  plain_step c (d ∷ []) out h = ground arith
  plain_step c (d ∷ e ∷ s) out h = ground arith

  escape_step :
      (d e : ℕ) (s out : Bytes) {hi lo : ℕ}
      → hex_value d ≡ some hi
      → hex_value e ≡ some lo
      → url_loop p (b'%' ∷ d ∷ e ∷ s) out ≡ url_loop p s (out ++ join_nibbles hi lo ∷ [])
  unfolding url_loop
  escape_step d e s out h k = ground arith

-- The byte that comes back: a space written as `+` and read as `+` is lost.
abbrev pub seen : UrlSpacePolicy → UrlDecodePlusPolicy → ℕ → ℕ
seen sp p c = if c == b' ' && (is_plus sp && not (is_plus_as_space p)) then b'+' else c

module _ (sp : UrlSpacePolicy) (p : UrlDecodePlusPolicy) where
  -- An unreserved byte is neither `%` nor `+`, and is read as itself.
  unreserved_plain : (c : ℕ) → is_unreserved c ≡ true → (c ≢ b'%') × (c ≢ b' ') × (plain p c ≡ c)
  unfolding is_unreserved plain
  unreserved_plain c h = ground arith

  plus_plain : (c : ℕ) → (c == b' ' && is_plus sp) ≡ true → plain p b'+' ≡ seen sp p c
  unfolding plain
  plus_plain c h = ground arith

  seen_self : (c : ℕ) → (c == b' ' && is_plus sp) ≡ false → seen sp p c ≡ c
  seen_self c h = ground arith

  url_loop-encode_byte :
      (c : ℕ) (rest out : Bytes)
      → IsByte c
      → url_loop p (encode_byte sp c ++ rest) out ≡ url_loop p rest (out ++ seen sp p c ∷ [])
  unfolding encode_byte
  url_loop-encode_byte c rest out hc = elim (Bool-cases (c == b' ' && is_plus sp)) [
    | inl space ↦ rw space (plain_step p b'+' rest out (omega arith) ∙ rw (plus_plain c space))
    | inr other ↦ elim (Bool-cases (is_unreserved c)) [
      | inl safe ↦
          let (a, b, e) = unreserved_plain c safe in
          rw (other, safe) (plain_step p c rest out a ∙ rw (e, seen_self c other))
      | inr unsafe ↦
          let (q, r) = nibbles_lt c in
          rw (other, unsafe)
            (escape_step p _ _ rest out (hex_value-hex_char _ true q) (hex_value-hex_char _ true r)
              ∙ rw (join_nibbles_split c hc, seen_self c other))
    ]
  ]

  url_loop-url_encode :
      (s out : Bytes)
      → All IsByte s
      → url_loop p (url_encode s sp) out ≡ decoded (out ++ map (seen sp p) s)
  unfolding url_encode
  url_loop-url_encode [] out h = unfold url_loop in rw append-nil
  url_loop-url_encode (c ∷ s) out (hc, hs) =
      rw (url_loop-encode_byte c _ out hc, url_loop-url_encode s _ hs, append_assoc)

-- Decoding what was encoded gives the bytes back under every pair of policies, but for a space
-- that is written as `+` and read by a decoder that keeps `+`.
pub url_decode-url_encode :
    (s : Bytes) (sp : UrlSpacePolicy) (p : UrlDecodePlusPolicy)
    → All IsByte s
    → url_decode (url_encode s sp) p ≡ decoded (map (seen sp p) s)
unfolding url_decode
url_decode-url_encode s sp p h = url_loop-url_encode sp p s [] h

-- The characters of encoded text.
abbrev pub IsSafe : UrlSpacePolicy → ℕ → Type 0
IsSafe sp c = (is_unreserved c ≡ true) ⊎ (c ≡ b'%') ⊎ ((c ≡ b'+') × (sp ≡ plus))

hex_char-unreserved : (v : ℕ) → v < 16 → is_unreserved (hex_char v true) ≡ true
unfolding is_unreserved hex_char
hex_char-unreserved v h = ground arith

is_plus-true : (sp : UrlSpacePolicy) → is_plus sp ≡ true → sp ≡ plus
is_plus-true percent20 h = cc
is_plus-true plus h = refl

encode_byte-IsSafe : (sp : UrlSpacePolicy) (c : ℕ) → All (IsSafe sp) (encode_byte sp c)
unfolding encode_byte
encode_byte-IsSafe sp c = elim (Bool-cases (c == b' ' && is_plus sp)) [
  | inl space ↦ rw space (inr (inr (refl, is_plus-true sp (ground arith))), tt)
  | inr other ↦ elim (Bool-cases (is_unreserved c)) [
    | inl safe ↦ rw (other, safe) (inl safe, tt)
    | inr unsafe ↦
        let (q, r) = nibbles_lt c in
        rw (other, unsafe)
          (inr (inl refl), (inl (hex_char-unreserved _ q), (inl (hex_char-unreserved _ r), tt)))
  ]
]

-- Encoded text holds unreserved characters, `%`, and `+` only where the policy asks for it.
pub url_encode-IsSafe : (s : Bytes) (sp : UrlSpacePolicy) → All (IsSafe sp) (url_encode s sp)
unfolding url_encode
url_encode-IsSafe [] sp = tt
url_encode-IsSafe (c ∷ s) sp = All-append _ _ _ (encode_byte-IsSafe sp c) (url_encode-IsSafe s sp)

-- Text that decodes: every `%` has two hexadecimal digits behind it.
pub data WellEncoded : Bytes → Type 0 where
  end : WellEncoded []
  literal : {c : ℕ} {s : Bytes} → c ≢ b'%' → WellEncoded s → WellEncoded (c ∷ s)
  escaped :
      {d e hi lo : ℕ} {s : Bytes}
      → hex_value d ≡ some hi
      → hex_value e ≡ some lo
      → WellEncoded s
      → WellEncoded (b'%' ∷ d ∷ e ∷ s)

-- What the loop does with the text: it succeeds on well encoded text, and only there.
module _ (p : UrlDecodePlusPolicy) where
  WellEncoded-decodes :
      {s : Bytes} (out : Bytes)
      → WellEncoded s
      → (w : Bytes) × (url_loop p s out ≡ decoded (out ++ w)) × (length w ≤ length s)
  WellEncoded-decodes out end = ([], unfold url_loop in rw append-nil, omega arith)
  WellEncoded-decodes out (literal {c = c} h t) =
      let (w, e, l) = WellEncoded-decodes (out ++ plain p c ∷ []) t in
      (plain p c ∷ w, plain_step p c _ out h ∙ e ∙ ap decoded (append_assoc out _ w), omega arith)
  WellEncoded-decodes out (escaped {hi = hi} {lo = lo} h k t) =
      let (w, e, l) = WellEncoded-decodes (out ++ join_nibbles hi lo ∷ []) t in
      (
        join_nibbles hi lo ∷ w,
        escape_step p _ _ _ out h k ∙ e ∙ ap decoded (append_assoc out _ w),
        omega arith,
      )

  short_escape :
      (c : ℕ) (out : Bytes) {w : Bytes} → c ≡ b'%' → url_loop p (c ∷ []) out ≡ decoded w → ⊥
  unfolding url_loop
  short_escape c out k h = ground arith

  cut_escape :
      (c d : ℕ) (out : Bytes) {w : Bytes} → c ≡ b'%' → url_loop p (c ∷ d ∷ []) out ≡ decoded w → ⊥
  unfolding url_loop
  cut_escape c d out k h = ground arith

  escape_inv :
      (d e : ℕ) (s out : Bytes) {w : Bytes}
      → url_loop p (b'%' ∷ d ∷ e ∷ s) out ≡ decoded w
      → (hi lo : ℕ) × (hex_value d ≡ some hi)
        × (hex_value e ≡ some lo)
        × (url_loop p s (out ++ join_nibbles hi lo ∷ []) ≡ decoded w)
  escape_inv d e s out h = elim (Option-cases (hex_value d)) [
    | inl k ↦ absurd (unfold url_loop in ground arith)
    | inr (hi, k) ↦ elim (Option-cases (hex_value e)) [
      | inl l ↦ absurd (unfold url_loop in ground arith)
      | inr (lo, l) ↦ (hi, lo, k, l, sym (escape_step p d e s out k l) ∙ h)
    ]
  ]

  decodes-WellEncoded : (s out : Bytes) {w : Bytes} → url_loop p s out ≡ decoded w → WellEncoded s
  decodes-WellEncoded [] out h = end
  decodes-WellEncoded (c ∷ []) out h = elim (Bool-cases (c == b'%')) [
    | inl k ↦ absurd (short_escape c out (ground arith) h)
    | inr k ↦ literal (ground arith) end
  ]
  decodes-WellEncoded (c ∷ d ∷ []) out h = elim (Bool-cases (c == b'%')) [
    | inl k ↦ absurd (cut_escape c d out (ground arith) h)
    | inr k ↦
        let ne : c ≢ b'%' = ground arith in
        literal ne (decodes-WellEncoded (d ∷ []) _ (sym (plain_step p c _ out ne) ∙ h))
  ]
  decodes-WellEncoded (c ∷ d ∷ e ∷ s) out h = elim (Bool-cases (c == b'%')) [
    | inl k ↦
        let is : c ≡ b'%' = ground arith in
        let (hi, lo, hd, he, more) = escape_inv d e s out (rw is at h) in
        rw is (escaped hd he (decodes-WellEncoded s _ more))
    | inr k ↦
        let ne : c ≢ b'%' = ground arith in
        literal ne (decodes-WellEncoded (d ∷ e ∷ s) _ (sym (plain_step p c _ out ne) ∙ h))
  ]

-- The decoder succeeds exactly on well encoded text, under either policy, and what it writes is no
-- longer than the text.
pub url_decode_iff :
    (s : Bytes) (p : UrlDecodePlusPolicy)
    → (((w : Bytes) × (url_decode s p ≡ decoded w)) → WellEncoded s)
      × (WellEncoded s → (w : Bytes) × (url_decode s p ≡ decoded w) × (length w ≤ length s))
unfolding url_decode
url_decode_iff s p = (λ h. decodes-WellEncoded p s [] h.1, λ t. WellEncoded-decodes p [] t)
