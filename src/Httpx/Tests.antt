-- ===== src/Httpx/Tests.antt =====
-- The client of src/httpx.cpp on short runs.
use toolx_cpp.Prelude.{
  ℕ, ◌+◌, ◌≤◌, ◌≡◌, refl, arith, true, false, List, [], ◌∷◌, Option, none, some, Bytes, codes, ltb,
  if◌then◌else◌,
}
use toolx_cpp.Httpx.Types.{
  head, network, invalid_url, Error, Response, Outcome, ok, failed, Request, ClientOptions,
}
use toolx_cpp.Httpx.Client.{
  World, new_client, is_rejected, refusal, parts_exceed, header_bytes, after_call, attempt,
  attempts, count_refused, finish, clear_head, send, send_all,
}
use toolx_cpp.Httpx.Calls.{Ends, send-Ends}
use toolx_cpp.Prelude.{bytes_eq, ◌++◌, ◌⊎◌, ◌↔◌, All}
use toolx_cpp.Httpx.Cookies.{
  to_lower_ascii, request_path_from_target, default_cookie_path, before_query, has_slash,
  before_last_slash, domain_covers, domain_matches, path_matches, CookieEntry,
  prune_expired_cookies, header_loop, build_cookie_header,
}
use toolx_cpp.Httpx.DotSegments.{remove_dot_segments, dot_loop, dot_step, move_segment, split_slash}
use toolx_cpp.Httpx.DotSegments.Clean.{Segments, remove_dot_segments-Segments}
use toolx_cpp.Httpx.Cookies.Matching.{Covers, IsSubdomain, path_matches_iff, domain_matches_iff}
use toolx_cpp.Httpx.Cookies.Sent.{joined, MayGo, chosen, build_cookie_header-joined}
use toolx_cpp.Httpx.Circuit.{Tells, send_all-Tells, follow, IsFailFast, IsOpenSince, send_all-opens}

abbrev parse_url : Bytes → Option Error
parse_url [] = some (record { kind = invalid_url; retryable = false })
parse_url (b ∷ s) = none

abbrev options : ClientOptions
options = record {
  max_body_bytes = 100;
  max_header_bytes = 100;
  max_retry_attempts = 0;
  max_attempts = 3;
  retry_transient_errors = true;
  should_retry = none;
  breaker_enabled = true;
  failure_threshold = 2;
  reset_timeout_ms = 1000;
}

abbrev request : Request
request = record {
  method = head;
  url = codes "http://a/";
  headers = [];
  body = [];
  multipart = [];
  on_attempt_start = none;
}

abbrev no_network : Error
no_network = record { kind = network; retryable = true }

-- The network is down from one time on.
abbrev down : ℕ → World
down now = record {
  checked_at = now;
  finished_at = now + 5;
  out_of_time = λ n. false;
  send_once = λ n. failed no_network;
}

abbrev page : Response
page = record { status_code = 200; reason = []; headers = []; body = codes "text" }

-- The third attempt comes through.
abbrev third : World
third = record {
  checked_at = 0;
  finished_at = 5;
  out_of_time = λ n. false;
  send_once = λ n. if ltb n 2 then failed no_network else ok page;
}

third_test : send parse_url options request third new_client ≡ record {
  client = record new_client { total_requests = 1 };
  outcome = ok (record page { body = [] });
  calls = 3;
}
unfolding send refusal parts_exceed header_bytes attempts attempt after_call clear_head finish
third_test = refl

third_passes : refusal parse_url options request 0 new_client ≡ none
unfolding refusal parts_exceed header_bytes
third_passes = refl

send-Ends_example :
    (x : Outcome) × Ends options request third
      (send parse_url options request third new_client).calls
      x
    × ((send parse_url options request third new_client).outcome ≡ clear_head head x)
    × ((send parse_url options request third new_client).calls ≤ 3)
send-Ends_example = send-Ends parse_url options request third new_client third_passes

send_all-Tells_example :
    Tells options
      (send_all parse_url options ((request, down 10) ∷ (request, third) ∷ [])).0
      (send_all parse_url options ((request, down 10) ∷ (request, third) ∷ [])).1
send_all-Tells_example =
    send_all-Tells parse_url options ((request, down 10) ∷ (request, third) ∷ [])

abbrev one_failed : List (Request × World)
one_failed = (request, down 10) ∷ []

passed : refusal parse_url options request 20 (send_all parse_url options one_failed).0 ≡ none
unfolding send_all send refusal parts_exceed header_bytes attempts attempt after_call clear_head
    finish count_refused
passed = refl

fails :
    (send parse_url options request (down 20) (send_all parse_url options one_failed).0).outcome
    ≡ failed no_network
unfolding send_all send refusal parts_exceed header_bytes attempts attempt after_call clear_head
    finish count_refused
fails = refl

one_test : (send_all parse_url options one_failed).1 ≡ failed no_network ∷ []
unfolding send_all send refusal parts_exceed header_bytes attempts attempt after_call clear_head
    finish count_refused
one_test = refl

-- Two calls on the open circuit, the second of which has no URL.
abbrev refused_calls : List (Request × World)
refused_calls = (request, down 500) ∷ (record request { url = [] }, down 600) ∷ []

send_all-opens_example :
    All IsFailFast
      (follow parse_url options
        (send_all parse_url options ((request, down 20) ∷ one_failed)).0
        refused_calls).1
    × IsOpenSince 25
        (follow parse_url options
          (send_all parse_url options ((request, down 20) ∷ one_failed)).0
          refused_calls).0
    × (is_rejected options 1025
          (follow parse_url options
            (send_all parse_url options ((request, down 20) ∷ one_failed)).0
            refused_calls).0
        ≡ false)
unfolding send_all send refusal parts_exceed header_bytes attempts attempt after_call clear_head
    finish count_refused
send_all-opens_example =
    send_all-opens parse_url options request (down 20) one_failed no_network refused_calls 1025 refl
      passed fails (omega arith) (omega arith)
      ((omega arith, omega arith), ((omega arith, omega arith), tt)) (omega arith)

-- A call that is refused for its URL counts as a failure and opens no circuit.
no_url_test :
    (send parse_url options
      (record request { url = [] })
      (down 20)
      (send_all parse_url options one_failed).0).client.is_open
    ≡ false
unfolding send_all send refusal parts_exceed header_bytes attempts attempt after_call clear_head
    finish count_refused
no_url_test = refl

after_timeout_test :
    (send parse_url options request
      (down 2000)
      (send_all parse_url options ((request, down 20) ∷ one_failed)).0).calls
    ≡ 3
unfolding send_all send refusal parts_exceed header_bytes attempts attempt after_call clear_head
    finish count_refused
after_timeout_test = refl

abbrev session : CookieEntry
session = record {
  name = codes "id";
  value = codes "7";
  domain = codes "a.org";
  path = codes "/docs";
  host_only = false;
  secure = true;
  has_expires = false;
  expires_epoch = 0;
}

abbrev old_one : CookieEntry
old_one = record session { name = codes "old"; has_expires = true; expires_epoch = 90 }

abbrev jar : List CookieEntry
jar = session ∷ old_one ∷ record session { name = codes "b" } ∷ []

header_test :
    build_cookie_header 100 (codes "WWW.A.org") (codes "/docs/x?q=1") true jar ≡ codes "id=7; b=7"
unfolding build_cookie_header header_loop prune_expired_cookies to_lower_ascii
    request_path_from_target before_query domain_matches domain_covers path_matches bytes_eq
header_test = refl

plain_http_test : build_cookie_header 100 (codes "a.org") (codes "/docs") false jar ≡ []
unfolding build_cookie_header header_loop prune_expired_cookies to_lower_ascii
    request_path_from_target before_query domain_matches domain_covers path_matches bytes_eq
plain_http_test = refl

other_host_test : domain_matches (codes "evila.org") (codes "a.org") false ≡ false
unfolding domain_matches domain_covers to_lower_ascii bytes_eq
other_host_test = refl

other_path_test : path_matches (codes "/docs2") (codes "/docs") ≡ false
unfolding path_matches bytes_eq
other_path_test = refl

folder_test : default_cookie_path (codes "/docs/page?x=/y") ≡ codes "/docs"
unfolding default_cookie_path before_last_slash has_slash request_path_from_target before_query
folder_test = refl

path_matches_iff_example :
    (path_matches (codes "/docs/x") (codes "/docs") ≡ true)
    ↔ ((rest : Bytes) × (codes "/docs/x" ≡ codes "/docs" ++ rest) × Covers (codes "/docs") rest)
path_matches_iff_example = path_matches_iff (codes "/docs/x") (codes "/docs")

domain_matches_iff_example : (domain_matches (codes "www.A.org") (codes "a.org") false ≡ true) ↔ (
    (to_lower_ascii (codes "www.A.org") ≡ to_lower_ascii (codes "a.org"))
    ⊎ ((false ≡ false)
        × IsSubdomain (to_lower_ascii (codes "www.A.org")) (to_lower_ascii (codes "a.org"))))
domain_matches_iff_example = domain_matches_iff (codes "www.A.org") (codes "a.org") false

build_cookie_header-joined_example :
    (cs : List CookieEntry) × (cs
      ≡ chosen
          (to_lower_ascii (codes "a.org"))
          (request_path_from_target (codes "/docs"))
          true
          (prune_expired_cookies 100 jar))
    × (build_cookie_header 100 (codes "a.org") (codes "/docs") true jar ≡ joined cs)
    × All
        (MayGo 100 (to_lower_ascii (codes "a.org")) (request_path_from_target (codes "/docs")) true)
        cs
build_cookie_header-joined_example =
    build_cookie_header-joined 100 (codes "a.org") (codes "/docs") true jar

up_test : remove_dot_segments (codes "/a/b/c/./../../g") ≡ some (codes "/a/g")
unfolding remove_dot_segments dot_loop dot_step move_segment split_slash before_last_slash has_slash
    bytes_eq
up_test = refl

relative_test : remove_dot_segments (codes "mid/content=5/../6") ≡ some (codes "mid/6")
unfolding remove_dot_segments dot_loop dot_step move_segment split_slash before_last_slash has_slash
    bytes_eq
relative_test = refl

above_root_test : remove_dot_segments (codes "/../../x/..") ≡ some (codes "/")
unfolding remove_dot_segments dot_loop dot_step move_segment split_slash before_last_slash has_slash
    bytes_eq
above_root_test = refl

remove_dot_segments-Segments_example :
    (r : Bytes) × (remove_dot_segments (codes "/a/../b") ≡ some r) × Segments r
remove_dot_segments-Segments_example = remove_dot_segments-Segments (codes "a/../b")
