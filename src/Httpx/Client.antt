-- ===== src/Httpx/Client.antt =====
-- `Client::Send`. `parse_url` is `ParseUrlInternal` up to its error, and `send_once` is what `SendOnce` comes to
-- at each attempt.
use toolx_cpp.Prelude.{
  ℕ, zero, suc, ◌+◌, ◌-◌, ◌%◌, ◌^◌, Bool, true, false, ◌&&◌, ◌||◌, List, [], ◌∷◌, Option, none,
  some, Bytes, length, ltb, leb, ◌==◌, if◌then◌else◌,
}
use toolx_cpp.Httpx.Types.{
  HttpMethod, head, invalid_argument, timeout, internal, circuit_open, Error, HeaderList, Outcome,
  ok, failed, Start, initialized, not_initialized, throws, Request, ClientOptions,
}

-- What happens outside the client while it sends: the clock in milliseconds at the test of the circuit
-- and when it is opened, whether the time is up before an attempt, and what an attempt comes to.
pub record World : Type 0 where
  pub checked_at : ℕ
  pub finished_at : ℕ
  pub out_of_time : ℕ → Bool
  pub send_once : ℕ → Outcome

-- The counters are of type uint64_t.
pub record Client : Type 0 where
  pub total_requests : ℕ
  pub total_failures : ℕ
  pub consecutive_failures : ℕ
  pub is_open : Bool
  pub opened_at : ℕ

abbrev pub new_client : Client
new_client = record {
  total_requests = 0;
  total_failures = 0;
  consecutive_failures = 0;
  is_open = false;
  opened_at = 0;
}

abbrev pub next_64 : ℕ → ℕ
next_64 n = (n + 1) % 2 ^ 64

unfoldable pub header_bytes : HeaderList → ℕ
header_bytes [] = 0
header_bytes ((k, v) ∷ hs) = length k + length v + 4 + header_bytes hs

-- The sum of the parts is held against the limit part by part.
unfoldable pub parts_exceed : (limit used : ℕ) → List Bytes → Bool
parts_exceed limit used [] = false
parts_exceed limit used (p ∷ ps) =
    let rest = parts_exceed limit (used + length p) ps in
    if ltb (limit - used) (length p) then true else rest

-- The test of the circuit.
abbrev pub is_rejected : ClientOptions → ℕ → Client → Bool
is_rejected o now c =
    o.breaker_enabled
    && (c.is_open && (leb c.opened_at now && ltb (now - c.opened_at) o.reset_timeout_ms))

-- The checks ahead of the first attempt.
unfoldable pub refusal :
    (Bytes → Option Error) → ClientOptions → Request → ℕ → Client → Option Error
refusal parse_url o r now c =
    if is_rejected o now c
    then some (record { kind = circuit_open; retryable = true })
    else if length r.url == 0
    then some (record { kind = invalid_argument; retryable = false })
    else elim (parse_url r.url) [
      | some e ↦ some e
      | none ↦
          if ltb o.max_body_bytes (length r.body)
            || (parts_exceed o.max_body_bytes 0 r.multipart
                || ltb o.max_header_bytes (header_bytes r.headers))
          then some (record { kind = invalid_argument; retryable = false })
          else none
    ]

abbrev pub retry_budget : ClientOptions → ℕ
retry_budget o = if ltb 0 o.max_attempts then o.max_attempts - 1 else o.max_retry_attempts

abbrev pub starts : Option (ℕ → Start) → ℕ → Start
starts none n = initialized
starts (some f) n = f n

abbrev pub asks : Option (Error → ℕ → Bool) → Error → ℕ → Bool
asks none e n = false
asks (some f) e n = f e n

abbrev pub wants_retry : ClientOptions → Error → ℕ → Bool
wants_retry o e used = asks o.should_retry e (used + 1) || (o.retry_transient_errors && e.retryable)

-- The outcome with the number of calls of `SendOnce`.
abbrev pub Attempts : Type 0
Attempts = Outcome × ℕ

-- Behind a call of `SendOnce`, with what the next attempts come to if any is left.
unfoldable pub after_call : ClientOptions → ℕ → Option Attempts → Outcome → Attempts
after_call o used retries (ok r) = (ok r, 1)
after_call o used none (failed e) = (failed e, 1)
after_call o used (some (last, calls)) (failed e) =
    if wants_retry o e used then (last, suc calls) else (failed e, 1)

-- One round of the loop.
unfoldable pub attempt : ClientOptions → Request → World → ℕ → Option Attempts → Attempts
attempt o r w used retries =
    if w.out_of_time used
    then (failed (record { kind = timeout; retryable = true }), 0)
    else elim (starts r.on_attempt_start (used + 1)) [
      | throws ↦ (failed (record { kind = internal; retryable = false }), 0)
      | not_initialized ↦ (failed (record { kind = internal; retryable = false }), 0)
      | initialized ↦ after_call o used retries (w.send_once used)
    ]

unfoldable pub attempts : ClientOptions → Request → World → (left used : ℕ) → Attempts
attempts o r w zero used = attempt o r w used none
attempts o r w (suc left) used =
    let rest = attempts o r w left (suc used) in attempt o r w used (some rest)

-- A request that is refused counts as a failure and leaves the circuit.
unfoldable pub count_refused : Client → Client
count_refused c = record c {
  total_requests = next_64 c.total_requests;
  total_failures = next_64 c.total_failures;
  consecutive_failures = next_64 c.consecutive_failures;
}

abbrev pub threshold : ClientOptions → ℕ
threshold o = if ltb 1 o.failure_threshold then o.failure_threshold else 1

abbrev pub opens : ClientOptions → ℕ → Client → Client
opens o now c =
    if o.breaker_enabled && leb (threshold o) c.consecutive_failures
    then record c { is_open = true; opened_at = now }
    else c

-- The last section of `Send`.
unfoldable pub finish : ClientOptions → ℕ → Outcome → Client → Client
finish o now (ok r) c = record c {
  total_requests = next_64 c.total_requests;
  consecutive_failures = 0;
  is_open = false;
}
finish o now (failed e) c = opens o now (count_refused c)

abbrev pub is_head : HttpMethod → Bool
is_head m = elim m [ head ↦ true | _ ↦ false ]

unfoldable pub clear_head : HttpMethod → Outcome → Outcome
clear_head m (ok r) = if is_head m then ok (record r { body = [] }) else ok r
clear_head m (failed e) = failed e

-- What a call leaves: the client, the outcome and the number of calls of `SendOnce`.
pub record Sent : Type 0 where
  pub client : Client
  pub outcome : Outcome
  pub calls : ℕ

unfoldable pub send : (Bytes → Option Error) → ClientOptions → Request → World → Client → Sent
send parse_url o r w c = elim (refusal parse_url o r w.checked_at c) [
  | some e ↦ record { client = count_refused c; outcome = failed e; calls = 0 }
  | none ↦
      let (last, calls) = attempts o r w (retry_budget o) 0 in
      let outcome = clear_head r.method last in
      record { client = finish o w.finished_at outcome c; outcome = outcome; calls = calls }
]

unfoldable pub reset_failure_stats : Client → Client
reset_failure_stats c = record c {
  total_requests = 0;
  total_failures = 0;
  consecutive_failures = 0;
  is_open = false;
}

-- Calls one after the other: the client and the outcomes, the last one first.
unfoldable pub send_all :
    (Bytes → Option Error) → ClientOptions → List (Request × World) → Client × List Outcome
send_all parse_url o [] = (new_client, [])
send_all parse_url o ((r, w) ∷ before) =
    let (c, outcomes) = send_all parse_url o before in
    let s = send parse_url o r w c in (s.client, s.outcome ∷ outcomes)
