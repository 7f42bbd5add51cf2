-- ===== src/Httpx/Calls.antt =====
-- How the loop over the attempts in `Client::Send` of src/httpx.cpp ends, and how often it calls `SendOnce`.
use toolx_cpp.Prelude.{
  ℕ, zero, suc, ◌+◌, ◌≤◌, ◌<◌, ◌≡◌, ◌≢◌, refl, sym, ap, arith, true, false, ◌⊎◌, inl, inr,
  Bool-cases, ◌==◌, if◌then◌else◌, Option, none, some, Bytes,
}
use mathlib.Core.Path.{subst}
use toolx_cpp.Httpx.Types.{
  timeout, internal, circuit_open, Error, Outcome, ok, failed, Start, initialized, not_initialized,
  throws, Request, ClientOptions,
}
use toolx_cpp.Httpx.Client.{
  World, Client, is_rejected, refusal, retry_budget, starts, wants_retry, Attempts, after_call,
  attempt, attempts, count_refused, finish, clear_head, send,
}

-- The attempts in all that the options allow, the first one included.
abbrev pub attempt_limit : ClientOptions → ℕ
attempt_limit o = if o.max_attempts == 0 then o.max_retry_attempts + 1 else o.max_attempts

-- The loop reaches its call of `SendOnce`.
abbrev pub Calls : Request → World → ℕ → Type 0
Calls r w k = (w.out_of_time k ≡ false) × (starts r.on_attempt_start (k + 1) ≡ initialized)

-- An attempt that failed and asks for the next one.
abbrev pub IsRetried : ClientOptions → Request → World → ℕ → Type 0
IsRetried o r w k =
    Calls r w k × ((e : Error) × (w.send_once k ≡ failed e) × (wants_retry o e k ≡ true))

abbrev pub AllRetried : ClientOptions → Request → World → ℕ → Type 0
AllRetried o r w n = (k : ℕ) → k < n → IsRetried o r w k

-- An outcome that asks for no other attempt.
abbrev pub IsFinal : ClientOptions → ℕ → Outcome → Type 0
IsFinal o k (ok x) = Unit {0}
IsFinal o k (failed e) = wants_retry o e k ≡ false

abbrev pub late_error : Outcome
late_error = failed (record { kind = timeout; retryable = true })

abbrev pub aborted_error : Outcome
aborted_error = failed (record { kind = internal; retryable = false })

-- The ways in which the loop ends, with the number of calls of `SendOnce` and the outcome.
pub data Ends (o : ClientOptions) (r : Request) (w : World) : ℕ → Outcome → Type 0 where
  answered :
      (last : ℕ)
      → last < attempt_limit o
      → AllRetried o r w last
      → Calls r w last
      → (last + 1 ≡ attempt_limit o) ⊎ IsFinal o last (w.send_once last)
      → Ends o r w (last + 1) (w.send_once last)
  timed_out :
      (n : ℕ)
      → n < attempt_limit o
      → AllRetried o r w n
      → w.out_of_time n ≡ true
      → Ends o r w n late_error
  aborted :
      (n : ℕ)
      → n < attempt_limit o
      → AllRetried o r w n
      → w.out_of_time n ≡ false
      → starts r.on_attempt_start (n + 1) ≢ initialized
      → Ends o r w n aborted_error

Ends-bound :
    {o : ClientOptions} {r : Request} {w : World} {n : ℕ} {x : Outcome}
    → Ends o r w n x
    → n ≤ attempt_limit o
Ends-bound (answered last h a c s) = omega arith
Ends-bound (timed_out n h a t) = omega arith
Ends-bound (aborted n h a t s) = omega arith

after_call-none : (o : ClientOptions) (used : ℕ) (x : Outcome) → after_call o used none x ≡ (x, 1)
unfolding after_call
after_call-none o used (ok x) = refl
after_call-none o used (failed e) = refl

attempt_limit-retry_budget : (o : ClientOptions) → retry_budget o + 1 ≡ attempt_limit o
attempt_limit-retry_budget o = ground arith

module _ (o : ClientOptions) (r : Request) (w : World) where
  AllRetried-suc : (n : ℕ) → AllRetried o r w n → IsRetried o r w n → AllRetried o r w (suc n)
  AllRetried-suc n all here k h = elim (Bool-cases (k == n)) [
    | inl same ↦ (let e : n ≡ k = ground arith in subst (IsRetried o r w) e here)
    | inr other ↦ all k (ground arith)
  ]

  -- The loop from an attempt on, with the calls that were made before it.
  abbrev EndsFrom : ℕ → Attempts → Type 0
  EndsFrom used a = Ends o r w (used + a.1) a.0

  after_call-EndsFrom :
      (used : ℕ) (rest : Attempts) (x : Outcome)
      → used < attempt_limit o
      → AllRetried o r w used
      → Calls r w used
      → w.send_once used ≡ x
      → (IsRetried o r w used → EndsFrom (suc used) rest)
      → EndsFrom used (after_call o used (some rest) x)
  unfolding after_call
  after_call-EndsFrom used rest (ok x) h all calls e next =
      subst (Ends o r w (used + 1)) e
        (answered used h all calls (inr (subst (IsFinal o used) (sym e) tt)))
  after_call-EndsFrom used (last, n) (failed e) h all calls same next =
      elim (Bool-cases (wants_retry o e used)) [
        | inl again ↦
            (let moved : suc used + n ≡ used + suc n = omega arith in
              rw again (subst (λ m. Ends o r w m last) moved (next (calls, (e, same, again)))))
        | inr stops ↦ rw stops (
            subst (Ends o r w (used + 1)) same
              (answered used h all calls (inr (subst (IsFinal o used) (sym same) stops))))
      ]

  -- A round of the loop, where `next` says how it goes on behind a call of `SendOnce`.
  attempt-EndsFrom :
      (used : ℕ) (rest : Option Attempts)
      → used < attempt_limit o
      → AllRetried o r w used
      → (Calls r w used → EndsFrom used (after_call o used rest (w.send_once used)))
      → EndsFrom used (attempt o r w used rest)
  unfolding attempt
  attempt-EndsFrom used rest h all next = elim (Bool-cases (w.out_of_time used)) [
    | inl late ↦
        rw late (subst (λ n. Ends o r w n late_error) none_more (timed_out used h all late))
    | inr early ↦ rw early (begins (starts r.on_attempt_start (used + 1)) refl early)
  ]
    where
      none_more : used ≡ used + 0
      none_more = omega arith

      abandoned :
          (w.out_of_time used ≡ false)
          → (starts r.on_attempt_start (used + 1) ≢ initialized)
          → Ends o r w (used + 0) aborted_error
      abandoned early never =
          subst (λ n. Ends o r w n aborted_error) none_more (aborted used h all early never)

      begins :
          (x : Start)
          → starts r.on_attempt_start (used + 1) ≡ x
          → w.out_of_time used ≡ false
          → EndsFrom used (elim x [
            | throws ↦ (aborted_error, 0)
            | not_initialized ↦ (aborted_error, 0)
            | initialized ↦ after_call o used rest (w.send_once used)
          ])
      begins throws e early = abandoned early (λ k. cc (e, k))
      begins not_initialized e early = abandoned early (λ k. cc (e, k))
      begins initialized e early = next (early, e)

  attempts-EndsFrom :
      (left used : ℕ)
      → used + suc left ≡ attempt_limit o
      → AllRetried o r w used
      → EndsFrom used (attempts o r w left used)
  unfolding attempts
  attempts-EndsFrom zero used h all = attempt-EndsFrom used none (omega arith) all (λ calls.
      subst (EndsFrom used) (sym (after_call-none o used (w.send_once used)))
        (answered used (omega arith) all calls (inl (omega arith))))
  attempts-EndsFrom (suc left) used h all =
      attempt-EndsFrom used (some (attempts o r w left (suc used))) (omega arith) all (λ calls.
        after_call-EndsFrom used (attempts o r w left (suc used)) (w.send_once used) (omega arith)
          all calls refl
          (λ again.
            attempts-EndsFrom left (suc used) (omega arith) (AllRetried-suc used all again)))

pub send-refused :
    (parse_url : Bytes → Option Error) (o : ClientOptions) (r : Request) (w : World) (c : Client)
    (e : Error)
    → refusal parse_url o r w.checked_at c ≡ some e
    → send parse_url o r w c ≡ record { client = count_refused c; outcome = failed e; calls = 0 }
unfolding send
send-refused parse_url o r w c e h = rw (h, send)

pub send-passed :
    (parse_url : Bytes → Option Error) (o : ClientOptions) (r : Request) (w : World) (c : Client)
    → refusal parse_url o r w.checked_at c ≡ none
    → send parse_url o r w c ≡ (
        let sent = attempts o r w (retry_budget o) 0 in
        let outcome = clear_head r.method sent.0 in
        record { client = finish o w.finished_at outcome c; outcome = outcome; calls = sent.1 })
unfolding send
send-passed parse_url o r w c h = rw (h, send)

refusal-rejected :
    (parse_url : Bytes → Option Error) (o : ClientOptions) (r : Request) (now : ℕ) (c : Client)
    → is_rejected o now c ≡ true
    → refusal parse_url o r now c ≡ some (record { kind = circuit_open; retryable = true })
unfolding refusal
refusal-rejected parse_url o r now c h = ground arith

pub send-rejected :
    (parse_url : Bytes → Option Error) (o : ClientOptions) (r : Request) (w : World) (c : Client)
    → is_rejected o w.checked_at c ≡ true
    → send parse_url o r w c ≡ record {
      client = count_refused c;
      outcome = failed (record { kind = circuit_open; retryable = true });
      calls = 0;
    }
send-rejected parse_url o r w c h =
    send-refused parse_url o r w c (record { kind = circuit_open; retryable = true })
      (refusal-rejected parse_url o r w.checked_at c h)

-- A call of `Send` that the checks ahead of the loop let through comes to what the loop ends in: it calls
-- `SendOnce` for one attempt after the other, each but the last of which failed and is to be retried,
-- until one succeeds, fails with no wish for a retry or is the last that the options allow, which is
-- the outcome up to the body of a HEAD; or until the time is up or the callback at the start of an attempt refuses or
-- throws, which is a timeout or an internal error. `SendOnce` is never called more often than the options allow.
pub send-Ends :
    (parse_url : Bytes → Option Error) (o : ClientOptions) (r : Request) (w : World) (c : Client)
    → refusal parse_url o r w.checked_at c ≡ none
    → (x : Outcome) × Ends o r w (send parse_url o r w c).calls x
      × ((send parse_url o r w c).outcome ≡ clear_head r.method x)
      × ((send parse_url o r w c).calls ≤ attempt_limit o)
send-Ends parse_url o r w c passed =
    let a = attempts o r w (retry_budget o) 0 in
    let limit = attempt_limit-retry_budget o in
    let ends : Ends o r w (0 + a.1) a.0 =
      attempts-EndsFrom o r w (retry_budget o) 0 (omega arith) (λ k h. absurd (omega arith)) in
    let counted : 0 + a.1 ≡ (send parse_url o r w c).calls =
      let same = ap (λ s. s.calls) (send-passed parse_url o r w c passed) in omega arith in
    let here = subst (λ n. Ends o r w n a.0) counted ends in
    (a.0, here, ap (λ s. s.outcome) (send-passed parse_url o r w c passed), Ends-bound here)
