-- ===== src/Httpx/Cookies.antt =====
-- The cookies of src/httpx.cpp: which of them go with a request.
pub mod Matching
pub mod Sent
use toolx_cpp.Prelude.{
  ℕ, zero, suc, ◌+◌, ◌-◌, Bool, true, false, not, ◌&&◌, ◌||◌, List, [], ◌∷◌, ◌++◌, map, Bytes,
  bytes_eq, codes, length, take, drop, get_or, ltb, leb, ◌==◌, if◌then◌else◌,
}

abbrev pub slash : ℕ
slash = 47

abbrev pub dot : ℕ
dot = 46

abbrev pub to_lower : ℕ → ℕ
to_lower c = if leb 65 c && leb c 90 then c + 32 else c

unfoldable pub to_lower_ascii : Bytes → Bytes
to_lower_ascii s = map to_lower s

-- The text ahead of the first question mark.
unfoldable pub before_query : Bytes → Bytes
before_query [] = []
before_query (c ∷ s) = let rest = before_query s in if c == 63 then [] else c ∷ rest

unfoldable pub request_path_from_target : Bytes → Bytes
request_path_from_target target =
    let path = before_query target in if length path == 0 then slash ∷ [] else path

unfoldable pub has_slash : Bytes → Bool
has_slash [] = false
has_slash (c ∷ s) = let later = has_slash s in (c == slash) || later

-- The text ahead of the last slash, which is empty where there is none.
unfoldable pub before_last_slash : Bytes → Bytes
before_last_slash [] = []
before_last_slash (c ∷ s) = let rest = before_last_slash s in if has_slash s then c ∷ rest else []

unfoldable pub default_cookie_path : Bytes → Bytes
default_cookie_path target =
    let path = request_path_from_target target in
    let folder = before_last_slash path in
    if not (get_or path 0 0 == slash)
    then slash ∷ []
    else if length folder == 0
    then slash ∷ []
    else folder

-- A comparison of the end that is as long as the domain, and the character ahead of it, of texts in
-- lower case.
unfoldable pub domain_covers : (h d : Bytes) → Bool
domain_covers h d =
    if bytes_eq h d
    then true
    else if leb (length h) (length d)
    then false
    else bytes_eq (drop (length h - length d) h) d && (get_or h (length h - length d - 1) 0 == dot)

unfoldable pub domain_matches : (host cookie_domain : Bytes) → (host_only : Bool) → Bool
domain_matches host cookie_domain host_only =
    let h = to_lower_ascii host in
    let d = to_lower_ascii cookie_domain in if host_only then bytes_eq h d else domain_covers h d

unfoldable pub path_matches : (request_path cookie_path : Bytes) → Bool
path_matches r c =
    if length c == 0
    then true
    else if ltb (length r) (length c)
    then false
    else if not (bytes_eq (take (length c) r) c)
    then false
    else if length r == length c
    then true
    else if get_or c (length c - 1) 0 == slash
    then true
    else get_or r (length c) 0 == slash

-- Of a cookie the part that the choice reads; the time is in seconds, 0 for one before 1970.
pub record CookieEntry : Type 0 where
  pub name : Bytes
  pub value : Bytes
  pub domain : Bytes
  pub path : Bytes
  pub host_only : Bool
  pub secure : Bool
  pub has_expires : Bool
  pub expires_epoch : ℕ

unfoldable pub prune_expired_cookies : ℕ → List CookieEntry → List CookieEntry
prune_expired_cookies now [] = []
prune_expired_cookies now (c ∷ jar) =
    let rest = prune_expired_cookies now jar in
    if c.has_expires && leb c.expires_epoch now then rest else c ∷ rest

-- The tests of the loop of `BuildCookieHeaderForRequest`.
abbrev pub goes_with : (host path : Bytes) → (is_secure : Bool) → CookieEntry → Bool
goes_with host path is_secure c =
    not (c.secure && not is_secure)
    && (domain_matches host c.domain c.host_only && path_matches path c.path)

unfoldable pub header_loop :
    (host path : Bytes) → (is_secure : Bool) → Bytes → List CookieEntry → Bytes
header_loop host path is_secure header [] = header
header_loop host path is_secure header (c ∷ jar) =
    header_loop host path is_secure
      (if goes_with host path is_secure c
        then (header ++ (if length header == 0 then [] else codes "; ")) ++ (c.name ++ 61 ∷ c.value)
        else header)
      jar

-- `BuildCookieHeaderForRequest` for a client that has a jar.
unfoldable pub build_cookie_header :
    (now : ℕ) → (host target : Bytes) → (is_secure : Bool) → List CookieEntry → Bytes
build_cookie_header now host target is_secure jar =
    header_loop (to_lower_ascii host) (request_path_from_target target) is_secure []
      (prune_expired_cookies now jar)
