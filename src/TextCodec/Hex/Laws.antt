-- ===== src/TextCodec/Hex/Laws.antt =====
-- What the hexadecimal codec promises: a round trip, the set of accepted texts, and the buffer.
use toolx_cpp.Prelude.{
  ℕ, ◌+◌, ◌*◌, ◌%◌, ◌/◌, ◌≤◌, ◌<◌, ◌≡◌, refl, arith, Bool, true, false, none, some, [], ◌∷◌, ◌++◌,
  append_assoc, append-nil, Bytes, IsByte, All, length, length-append, drop, take, take-append,
  drop-append, length-drop, ltb, leb, ◌==◌, if◌then◌else◌, not, ◌⊎◌, ◌∙◌, ◌&&◌, map, Bool-cases,
  Option-cases, ap, inl, inr,
}
use toolx_cpp.TextCodec.Defs.{
  DecodeResult, decoded, failed, truncated_input, invalid_character, no_error, make_error, code,
  hex_value, hex_char, high_nibble, low_nibble, join_nibbles, hex_value-hex_char, nibbles_lt,
  join_nibbles_split, join_nibbles_value,
}
use toolx_cpp.TextCodec.Hex.{
  hex_encode, decode_pair, hex_loop, hex_decode, store, hex_decode_to_buffer,
}
use toolx_cpp.Prelude.Bits.{bit_and_0f}

length-hex_encode : (s : Bytes) (u : Bool) → length (hex_encode s u) ≡ 2 * length s
unfolding hex_encode
length-hex_encode [] u = omega arith
length-hex_encode (b ∷ s) u = omega (arith, length-hex_encode s u)

-- A round on two digits.
hex_loop_step :
    (c d : ℕ) (s out : Bytes) {hi lo : ℕ}
    → hex_value c ≡ some hi
    → hex_value d ≡ some lo
    → hex_loop (c ∷ d ∷ s) out ≡ hex_loop s (out ++ join_nibbles hi lo ∷ [])
unfolding hex_loop
hex_loop_step c d s out p q = ground arith

hex_loop-hex_encode :
    (s : Bytes) (u : Bool) (out : Bytes)
    → All IsByte s
    → hex_loop (hex_encode s u) out ≡ decoded (out ++ s)
unfolding hex_encode
hex_loop-hex_encode [] u out h = unfold hex_loop in rw append-nil
hex_loop-hex_encode (b ∷ s) u out (hb, hs) =
    let (p, q) = nibbles_lt b in
    rw (
      hex_loop_step _ _ _ out (hex_value-hex_char _ u p) (hex_value-hex_char _ u q),
      join_nibbles_split b hb,
      hex_loop-hex_encode s u (out ++ b ∷ []) hs,
      append_assoc,
    )

-- Decoding what was encoded, in either case of the digits, gives the bytes back.
pub hex_decode-hex_encode :
    (s : Bytes) (u : Bool) → All IsByte s → hex_decode (hex_encode s u) ≡ decoded s
unfolding hex_decode
hex_decode-hex_encode s u h = ground (arith, length-hex_encode s u, hex_loop-hex_encode s u [] h)

-- The characters of the digits, of either case.
abbrev pub is_hex : ℕ → Bool
is_hex c =
    if leb b'0' c && leb c b'9'
    then true
    else if leb b'a' c && leb c b'f'
    then true
    else leb b'A' c && leb c b'F'

abbrev pub all_hex : Bytes → Bool
all_hex [] = true
all_hex (c ∷ s) = is_hex c && all_hex s

-- The digit in lower case.
abbrev pub lower : ℕ → ℕ
lower c = if leb b'A' c && leb c b'F' then c + 32 else c

hex_value-some :
    (c : ℕ) {v : ℕ}
    → hex_value c ≡ some v
    → (is_hex c ≡ true) × (v < 16) × (hex_char v false ≡ lower c)
unfolding hex_value hex_char
hex_value-some c h = ground arith

hex_value-none : (c : ℕ) → hex_value c ≡ none → is_hex c ≡ false
unfolding hex_value
hex_value-none c h = ground arith

bad_pair :
    (c d : ℕ) (s out : Bytes)
    → decode_pair (hex_value c) (hex_value d) ≡ none
    → hex_loop (c ∷ d ∷ s) out ≡ make_error invalid_character "hex_decode" "invalid hex character"
unfolding hex_loop
bad_pair c d s out h = ground arith

join_nibbles-IsByte : (hi lo : ℕ) → hi < 16 → lo < 16 → IsByte (join_nibbles hi lo)
join_nibbles-IsByte hi lo h k = omega (arith, join_nibbles_value hi lo h k)

-- The digits of a joined byte are the two that were read.
split_joined :
    (hi lo : ℕ)
    → hi < 16
    → lo < 16
    → (high_nibble (join_nibbles hi lo) ≡ hi) × (low_nibble (join_nibbles hi lo) ≡ lo)
split_joined hi lo h k =
    rw (join_nibbles_value hi lo h k)
      (omega (arith, bit_and_0f ((hi * 16 + lo) / 16)), omega (arith, bit_and_0f (hi * 16 + lo)))

abbrev Loop : Bytes → Bytes → Type 0
Loop s out =
    ((all_hex s ≡ false)
      × (hex_loop s out ≡ make_error invalid_character "hex_decode" "invalid hex character"))
    ⊎ ((w : Bytes) × (all_hex s ≡ true)
        × (hex_loop s out ≡ decoded (out ++ w))
        × All IsByte w
        × (hex_encode w false ≡ map lower s))

Loop-more :
    (c d hi lo : ℕ) (s out : Bytes)
    → hex_value c ≡ some hi
    → hex_value d ≡ some lo
    → Loop s (out ++ join_nibbles hi lo ∷ [])
    → Loop (c ∷ d ∷ s) out
Loop-more c d hi lo s out p q (inl (bad, e)) =
    inl (ground (arith, hex_value-some c p), hex_loop_step c d s out p q ∙ e)
Loop-more c d hi lo s out p q (inr (w, good, e, bytes, back)) =
    let (hc, lc, wc) = hex_value-some c p in
    let (hd, ld, wd) = hex_value-some d q in
    let (sh, sl) = split_joined hi lo lc ld in
    inr (
      join_nibbles hi lo ∷ w,
      rw (hc, hd, good),
      hex_loop_step c d s out p q ∙ e ∙ ap decoded (append_assoc out _ w),
      (join_nibbles-IsByte hi lo lc ld, bytes),
      unfold hex_encode in rw (sh, sl, wc, wd, back),
    )

Loop-cases : (s out : Bytes) → length s % 2 ≡ 0 → Loop s out
Loop-cases [] out h =
    inr ([], refl, unfold hex_loop in rw append-nil, tt, unfold hex_encode in refl)
Loop-cases (c ∷ []) out h = absurd (omega arith)
Loop-cases (c ∷ d ∷ s) out h = elim (Option-cases (hex_value c)) [
  | inl p ↦ inl (rw (hex_value-none c p), bad_pair c d s out (rw p))
  | inr (hi, p) ↦ elim (Option-cases (hex_value d)) [
    | inl q ↦ inl (ground (arith, hex_value-none d q), bad_pair c d s out (rw (p, q)))
    | inr (lo, q) ↦ Loop-more c d hi lo s out p q (Loop-cases s _ (omega arith))
  ]
]

-- The code of the result, on every text: an odd length, a character that is no digit, or success.
pub code-hex_decode :
    (s : Bytes)
    → code (hex_decode s) ≡ (
        if not (length s % 2 == 0)
        then truncated_input
        else if all_hex s
        then no_error
        else invalid_character)
unfolding hex_decode
code-hex_decode s = elim (Bool-cases (length s % 2 == 0)) [
  | inr odd ↦ rw odd
  | inl even ↦ elim (Loop-cases s [] (ground arith)) [
    | inl (bad, e) ↦ rw (even, e, bad)
    | inr (w, good, e, bytes, back) ↦ rw (even, e, good)
  ]
]

-- The bytes that a successful decode returns are bytes, and their encoding in lower case is the
-- text in lower case.
pub hex_decode_sound :
    (s : Bytes) {w : Bytes}
    → hex_decode s ≡ decoded w
    → All IsByte w × (hex_encode w false ≡ map lower s)
unfolding hex_decode
hex_decode_sound s {w} h = elim (Bool-cases (length s % 2 == 0)) [
  | inr odd ↦ cc (rw odd at h)
  | inl even ↦ elim (Loop-cases s [] (ground arith)) [
    | inl (bad, e) ↦ cc (e, rw even at h)
    | inr (v, good, e, bytes, back) ↦
        let same : v ≡ w = cc (e, rw even at h) in rw (← same) (bytes, back)
  ]
]

-- What a call leaves in the buffer: the decoded bytes in front of what stood behind them, or after
-- an error what stood there before.
abbrev pub Written : Bytes → Bytes → DecodeResult ℕ × Bytes → Type 0
Written input buffer (failed e t, after) = after ≡ buffer
Written input buffer (decoded n, after) =
    (n ≤ length buffer)
    × (length after ≡ length buffer)
    × (hex_decode input ≡ decoded (take n after))
    × (drop n after ≡ drop n buffer)

store-Written :
    (input buffer : Bytes) (r : DecodeResult Bytes)
    → hex_decode input ≡ r
    → Written input buffer (store r buffer)
unfolding store
store-Written input buffer (failed e t) h = refl
store-Written input buffer (decoded v) h = elim (Bool-cases (ltb (length buffer) (length v))) [
  | inl small ↦ rw small refl
  | inr fits ↦ rw fits (
    ground arith,
    omega (
      arith,
      length-append v (drop (length v) buffer),
      length-drop (length v) buffer (ground arith),
    ),
    rw take-append h,
    drop-append v _,
  )
]

-- No call writes past the capacity, and an error leaves the buffer alone.
pub hex_decode_to_buffer-Written :
    (input buffer : Bytes) → Written input buffer (hex_decode_to_buffer input buffer)
unfolding hex_decode_to_buffer
hex_decode_to_buffer-Written input buffer = store-Written input buffer (hex_decode input) refl
