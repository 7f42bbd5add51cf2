-- ===== src/Httpx/Cookies/Sent.antt =====
-- What the cookie header of src/httpx.cpp holds.
use toolx_cpp.Prelude.{
  ℕ, ◌<◌, ◌≡◌, refl, sym, ap, ◌∙◌, arith, Bool, true, false, ◌&&◌, List, [], ◌∷◌, ◌++◌,
  append_assoc, append-nil, Bytes, Bool-cases, inl, inr, All, codes, length, leb, ◌==◌,
  if◌then◌else◌,
}
use toolx_cpp.Httpx.Cookies.{
  to_lower_ascii, request_path_from_target, domain_matches, path_matches, CookieEntry,
  prune_expired_cookies, goes_with, header_loop, build_cookie_header,
}

abbrev pub pair : CookieEntry → Bytes
pair c = c.name ++ 61 ∷ c.value

abbrev pub pairs_behind : List CookieEntry → Bytes
pairs_behind [] = []
pairs_behind (c ∷ cs) = codes "; " ++ (pair c ++ pairs_behind cs)

-- The pairs with a semicolon and a blank between them.
abbrev pub joined : List CookieEntry → Bytes
joined [] = []
joined (c ∷ cs) = pair c ++ pairs_behind cs

-- A cookie that may go with a request at a time.
pub record MayGo (now : ℕ) (host path : Bytes) (is_secure : Bool) (c : CookieEntry) : Type 0 where
  pub kept_secure : c.secure ≡ true → is_secure ≡ true
  pub fresh : c.has_expires ≡ true → now < c.expires_epoch
  pub in_domain : domain_matches host c.domain c.host_only ≡ true
  pub under_path : path_matches path c.path ≡ true

abbrev Fresh : ℕ → CookieEntry → Type 0
Fresh now c = c.has_expires ≡ true → now < c.expires_epoch

prune_expired_cookies-Fresh :
    (now : ℕ) (jar : List CookieEntry) → All (Fresh now) (prune_expired_cookies now jar)
unfolding prune_expired_cookies
prune_expired_cookies-Fresh now [] = tt
prune_expired_cookies-Fresh now (c ∷ jar) =
    let rest = prune_expired_cookies-Fresh now jar in
    elim (Bool-cases (c.has_expires && leb c.expires_epoch now)) [
      | inl expired ↦ rw (expired, prune_expired_cookies) rest
      | inr kept ↦ rw (kept, prune_expired_cookies) ((λ e. ground arith), rest)
    ]

module _ (host path : Bytes) (is_secure : Bool) where
  -- The cookies that pass the tests, in the order of the jar.
  unfoldable pub chosen : List CookieEntry → List CookieEntry
  chosen [] = []
  chosen (c ∷ jar) =
      let rest = chosen jar in if goes_with host path is_secure c then c ∷ rest else rest

  chosen-MayGo :
      (now : ℕ) (jar : List CookieEntry)
      → All (Fresh now) jar
      → All (MayGo now host path is_secure) (chosen jar)
  unfolding chosen
  chosen-MayGo now [] fresh = tt
  chosen-MayGo now (c ∷ jar) (fresh, all) =
      let rest = chosen-MayGo now jar all in
      elim (Bool-cases (goes_with host path is_secure c)) [
        | inr stays ↦ rw (stays, chosen) rest
        | inl goes ↦
            rw (goes, chosen)
              (
                record {
                  kept_secure = λ s. ground arith;
                  fresh = fresh;
                  in_domain = ground arith;
                  under_path = ground arith;
                },
                rest,
              )
      ]

  loop-skips :
      (header : Bytes) (c : CookieEntry) (cs : List CookieEntry)
      → goes_with host path is_secure c ≡ false
      → (header_loop host path is_secure header (c ∷ cs)
          ≡ header_loop host path is_secure header cs)
        × (chosen (c ∷ cs) ≡ chosen cs)
  unfolding header_loop chosen
  loop-skips header c cs h = (rw (h, header_loop), rw (h, chosen))

  loop-adds :
      (header : Bytes) (c : CookieEntry) (cs : List CookieEntry)
      → goes_with host path is_secure c ≡ true
      → (header_loop host path is_secure header (c ∷ cs)
          ≡ header_loop host path is_secure
              ((header ++ (if length header == 0 then [] else codes "; ")) ++ pair c)
              cs)
        × (chosen (c ∷ cs) ≡ c ∷ chosen cs)
  unfolding header_loop chosen
  loop-adds header c cs h = (rw (h, header_loop), rw (h, chosen))

  loop-behind :
      (x : ℕ) (header : Bytes) (jar : List CookieEntry)
      → header_loop host path is_secure (x ∷ header) jar ≡ (x ∷ header) ++ pairs_behind (chosen jar)
  unfolding header_loop chosen
  loop-behind x header [] = sym (append-nil (x ∷ header))
  loop-behind x header (c ∷ jar) = elim (Bool-cases (goes_with host path is_secure c)) [
    | inr stays ↦
        (let (loop, list) = loop-skips (x ∷ header) c jar stays in
          loop ∙ loop-behind x header jar ∙ ap (λ cs. (x ∷ header) ++ pairs_behind cs) (sym list))
    | inl goes ↦
        (let (loop, list) = loop-adds (x ∷ header) c jar goes in
          let follows : (if length (x ∷ header) == 0 then [] else codes "; ") ≡ codes "; " =
            ground arith in
          loop
          ∙ ap (λ s. header_loop host path is_secure (((x ∷ header) ++ s) ++ pair c) jar) follows
          ∙ loop-behind x ((header ++ codes "; ") ++ pair c) jar
          ∙ moved (x ∷ header) (pair c) (pairs_behind (chosen jar))
          ∙ ap (λ cs. (x ∷ header) ++ pairs_behind cs) (sym list))
  ]
    where
      moved : (h p r : Bytes) → ((h ++ codes "; ") ++ p) ++ r ≡ h ++ (codes "; " ++ (p ++ r))
      moved h p r = append_assoc (h ++ codes "; ") p r ∙ append_assoc h (codes "; ") (p ++ r)

  loop-joined :
      (jar : List CookieEntry) → header_loop host path is_secure [] jar ≡ joined (chosen jar)
  unfolding header_loop chosen
  loop-joined [] = refl
  loop-joined (c ∷ jar) = elim (Bool-cases (goes_with host path is_secure c)) [
    | inr stays ↦
        (let (loop, list) = loop-skips [] c jar stays in
          loop ∙ loop-joined jar ∙ ap joined (sym list))
    | inl goes ↦
        (let (loop, list) = loop-adds [] c jar goes in loop ∙ start c.name ∙ ap joined (sym list))
  ]
    where
      start :
          (n : Bytes)
          → header_loop host path is_secure (n ++ 61 ∷ c.value) jar
            ≡ (n ++ 61 ∷ c.value) ++ pairs_behind (chosen jar)
      start [] = loop-behind 61 c.value jar
      start (x ∷ n) = loop-behind x (n ++ 61 ∷ c.value) jar

-- The cookie header of a request is the pairs of the cookies that pass the tests, with separators
-- between them, in the order of the jar; each of them has not expired, matches the host and the path,
-- and if it is secure the request goes over https.
pub build_cookie_header-joined :
    (now : ℕ) (host target : Bytes) (is_secure : Bool) (jar : List CookieEntry)
    → (cs : List CookieEntry) × (cs
        ≡ chosen
            (to_lower_ascii host)
            (request_path_from_target target)
            is_secure
            (prune_expired_cookies now jar))
      × (build_cookie_header now host target is_secure jar ≡ joined cs)
      × All (MayGo now (to_lower_ascii host) (request_path_from_target target) is_secure) cs
unfolding build_cookie_header
build_cookie_header-joined now host target is_secure jar =
    let left = prune_expired_cookies now jar in
    (
      _,
      refl,
      loop-joined (to_lower_ascii host) (request_path_from_target target) is_secure left,
      chosen-MayGo (to_lower_ascii host) (request_path_from_target target) is_secure now left
          (prune_expired_cookies-Fresh now jar),
    )
