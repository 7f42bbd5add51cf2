-- ===== src/Httpx/Cookies/Matching.antt =====
-- What the matching of domains and paths of src/httpx.cpp decides.
use toolx_cpp.Prelude.{
  ℕ, zero, suc, ◌-◌, ◌≤◌, ◌<◌, ◌≡◌, refl, sym, ap, ◌∙◌, arith, Bool, true, false, List, [], ◌∷◌,
  ◌++◌, Bytes, bytes_eq, bytes_eq_iff, bytes_eq_refl, Bool-cases, inl, inr, ◌⊎◌, ◌↔◌, length,
  length-append, take, drop, take-append, drop-append, get_or, ◌==◌,
}
use toolx_cpp.Httpx.Cookies.{
  slash, dot, to_lower_ascii, domain_covers, domain_matches, path_matches,
}

take-drop {ℓ} : {A : Type ℓ} → (n : ℕ) (xs : List A) → take n xs ++ drop n xs ≡ xs
take-drop zero xs = refl
take-drop (suc n) [] = refl
take-drop (suc n) (x ∷ xs) = ap (λ ys. x ∷ ys) (take-drop n xs)

drop-get_or :
    (n : ℕ) (s : Bytes) (d : ℕ) → suc n ≤ length s → drop n s ≡ get_or s n d ∷ drop (suc n) s
drop-get_or n [] d h = absurd (omega arith)
drop-get_or zero (x ∷ s) d h = refl
drop-get_or (suc n) (x ∷ s) d h = drop-get_or n s d (omega arith)

get_or-append : (s t : Bytes) (c d : ℕ) → get_or (s ++ c ∷ t) (length s) d ≡ c
get_or-append [] t c d = refl
get_or-append (x ∷ s) t c d = get_or-append s t c d

drop-zero : (s : Bytes) (n : ℕ) → n ≡ length s → drop n s ≡ []
drop-zero [] zero h = refl
drop-zero [] (suc n) h = refl
drop-zero (x ∷ s) zero h = absurd (omega arith)
drop-zero (x ∷ s) (suc n) h = drop-zero s n (omega arith)

-- The paths that a cookie path covers: the rest is empty or begins behind a slash.
abbrev pub Covers : Bytes → Bytes → Type 0
Covers c rest =
    (length c ≡ 0)
    ⊎ ((rest ≡ []) ⊎ ((get_or c (length c - 1) 0 ≡ slash) ⊎ ((t : Bytes) × (rest ≡ slash ∷ t))))

path_matches-Covers :
    (r c : Bytes) → path_matches r c ≡ true → (rest : Bytes) × (r ≡ c ++ rest) × Covers c rest
unfolding path_matches
path_matches-Covers r [] h = (r, refl, inl refl)
path_matches-Covers r (x ∷ c) h =
    let k = length (x ∷ c) in
    let fits : bytes_eq (take k r) (x ∷ c) ≡ true = ground arith in
    let same : take k r ≡ x ∷ c = (bytes_eq_iff (take k r) (x ∷ c)).0 fits in
    let long : k ≤ length r = ground arith in
    (
      drop k r,
      sym (take-drop k r) ∙ ap (λ s. s ++ drop k r) same,
      elim (Bool-cases (length r == k)) [
        | inl equal ↦ inr (inl (drop-zero r k (ground arith)))
        | inr longer ↦ elim (Bool-cases (get_or (x ∷ c) (k - 1) 0 == slash)) [
          | inl ends ↦ inr (inr (inl (ground arith)))
          | inr other ↦
              let next : get_or r k 0 ≡ slash = ground arith in
              inr (
                inr (
                  inr (
                    drop (suc k) r,
                    drop-get_or k r 0 (ground arith) ∙ ap (λ b. b ∷ drop (suc k) r) next,
                  )))
        ]
      ],
    )

Covers-path_matches : (c rest : Bytes) → Covers c rest → path_matches (c ++ rest) c ≡ true
unfolding path_matches
Covers-path_matches [] rest h = refl
Covers-path_matches (x ∷ c) rest h =
    let size = length-append (x ∷ c) rest in
    let same : bytes_eq (take (length (x ∷ c)) ((x ∷ c) ++ rest)) (x ∷ c) ≡ true =
      ap (λ s. bytes_eq s (x ∷ c)) (take-append (x ∷ c) rest) ∙ bytes_eq_refl (x ∷ c) in
    elim h [
      | inl nothing ↦ absurd (omega arith)
      | inr (inl empty) ↦
          (let size' : length ((x ∷ c) ++ rest) ≡ length (x ∷ c) =
              let none_more = ap length empty in omega arith in
            ground arith)
      | inr (inr (inl ends)) ↦ ground arith
      | inr (inr (inr (t, begins))) ↦
          (let next : get_or ((x ∷ c) ++ rest) (length (x ∷ c)) 0 ≡ slash =
              ap (λ s. get_or ((x ∷ c) ++ s) (length (x ∷ c)) 0) begins
              ∙ get_or-append (x ∷ c) t slash 0 in
            ground arith)
    ]

-- A cookie path matches exactly the request paths that begin with it, where what follows is empty or is
-- separated from it by a slash, at its end or behind it; the empty cookie path matches all.
pub path_matches_iff :
    (r c : Bytes) → (path_matches r c ≡ true) ↔ ((rest : Bytes) × (r ≡ c ++ rest) × Covers c rest)
path_matches_iff r c = (
  path_matches-Covers r c,
  λ h.
      (let (rest, split, covers) = h in
        ap (λ s. path_matches s c) split ∙ Covers-path_matches c rest covers),
)

-- A domain that lies under another one.
abbrev pub IsSubdomain : Bytes → Bytes → Type 0
IsSubdomain h d = (sub : Bytes) × (h ≡ sub ++ dot ∷ d)

IsSubdomain-split :
    (h d : Bytes)
    → length d < length h
    → bytes_eq (drop (length h - length d) h) d ≡ true
    → get_or h (length h - length d - 1) 0 ≡ dot
    → IsSubdomain h d
IsSubdomain-split h d longer tail before =
    let k = length h - length d - 1 in
    let same : suc k ≡ length h - length d = omega arith in
    let rest : drop (suc k) h ≡ d =
      ap (λ n. drop n h) same ∙ (bytes_eq_iff (drop (length h - length d) h) d).0 tail in
    let split = sym (take-drop k h) in
    let here = drop-get_or k h 0 (omega arith) in
    (
      take k h,
      split
          ∙ ap (λ s. take k h ++ s)
              (here ∙ ap (λ b. b ∷ drop (suc k) h) before ∙ ap (λ s. dot ∷ s) rest),
    )

append-dot : (sub d : Bytes) → sub ++ dot ∷ d ≡ (sub ++ dot ∷ []) ++ d
append-dot [] d = refl
append-dot (x ∷ sub) d = ap (λ s. x ∷ s) (append-dot sub d)

domain_covers_refl : (d : Bytes) → domain_covers d d ≡ true
unfolding domain_covers
domain_covers_refl d = let same = bytes_eq_refl d in ground arith

domain_covers-IsSubdomain : (h d : Bytes) → domain_covers h d ≡ true → (h ≡ d) ⊎ IsSubdomain h d
unfolding domain_covers
domain_covers-IsSubdomain h d t = elim (Bool-cases (bytes_eq h d)) [
  | inl same ↦ inl ((bytes_eq_iff h d).0 same)
  | inr differ ↦ inr (IsSubdomain-split h d (ground arith) (ground arith) (ground arith))
]

IsSubdomain-domain_covers : (sub d : Bytes) → domain_covers (sub ++ dot ∷ d) d ≡ true
unfolding domain_covers
IsSubdomain-domain_covers sub d =
    let h = sub ++ dot ∷ d in
    let size = length-append sub (dot ∷ d) in
    let ahead : length h - length d - 1 ≡ length sub = omega arith in
    let behind : length h - length d ≡ length (sub ++ dot ∷ []) =
      let l = length-append sub (dot ∷ []) in omega arith in
    let tail : bytes_eq (drop (length h - length d) h) d ≡ true =
      ap (λ n. bytes_eq (drop n h) d) behind
      ∙ ap (λ s. bytes_eq (drop (length (sub ++ dot ∷ [])) s) d) (append-dot sub d)
      ∙ ap (λ s. bytes_eq s d) (drop-append (sub ++ dot ∷ []) d)
      ∙ bytes_eq_refl d in
    let before : get_or h (length h - length d - 1) 0 ≡ dot =
      ap (λ n. get_or h n 0) ahead ∙ get_or-append sub d dot 0 in
    ground arith

-- A cookie domain matches exactly the hosts that are equal to it in lower case and, unless the cookie is
-- for its host only, those that end in a dot and the domain in lower case.
pub domain_matches_iff :
    (host d : Bytes) (host_only : Bool)
    → (domain_matches host d host_only ≡ true) ↔ (
        (to_lower_ascii host ≡ to_lower_ascii d)
        ⊎ ((host_only ≡ false) × IsSubdomain (to_lower_ascii host) (to_lower_ascii d)))
unfolding domain_matches
domain_matches_iff host d true =
    let e = bytes_eq_iff (to_lower_ascii host) (to_lower_ascii d) in
    (
      λ h. inl (e.0 h),
      λ h. (elim h [ inl same ↦ e.1 same | inr (never, under) ↦ absurd (cc never) ]),
    )
domain_matches_iff host d false =
    let h = to_lower_ascii host in
    let l = to_lower_ascii d in
    (
      λ t. (elim (domain_covers-IsSubdomain h l t) [
        | inl same ↦ inl same
        | inr under ↦ inr (refl, under)
      ]),
      λ t. (elim t [
        | inl same ↦ ap (λ s. domain_covers s l) same ∙ domain_covers_refl l
        | inr (open_to, (sub, split)) ↦
            ap (λ s. domain_covers s l) split ∙ IsSubdomain-domain_covers sub l
      ]),
    )
