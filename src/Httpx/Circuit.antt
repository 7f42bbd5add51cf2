-- ===== src/Httpx/Circuit.antt =====
-- The counters and the circuit breaker of `Client::Send` of src/httpx.cpp.
use toolx_cpp.Prelude.{
  ℕ, suc, ◌+◌, ◌%◌, ◌^◌, ◌≤◌, ◌<◌, ◌≡◌, refl, sym, ap, ◌∙◌, arith, true, ◌&&◌, List, [], ◌∷◌,
  Option, none, Option-cases, Bool-cases, inl, inr, Bytes, length, leb, All, false,
}
use mathlib.Core.Path.{subst}
use toolx_cpp.Httpx.Types.{circuit_open, Error, Outcome, ok, failed, Request, ClientOptions}
use toolx_cpp.Httpx.Client.{
  World, Client, is_rejected, refusal, count_refused, threshold, opens, finish, Sent, send,
  send_all,
}
use toolx_cpp.Httpx.Calls.{send-refused, send-passed, send-rejected}

abbrev pub failures : List Outcome → ℕ
failures [] = 0
failures (ok r ∷ xs) = failures xs
failures (failed e ∷ xs) = suc (failures xs)

-- The failures since the last success.
abbrev pub latest_failures : List Outcome → ℕ
latest_failures [] = 0
latest_failures (ok r ∷ xs) = 0
latest_failures (failed e ∷ xs) = suc (latest_failures xs)

-- What the state of a client tells of the outcomes, the last one first.
pub record Tells (o : ClientOptions) (c : Client) (xs : List Outcome) : Type 0 where
  pub total : c.total_requests ≡ length xs % 2 ^ 64
  pub failing : c.total_failures ≡ failures xs % 2 ^ 64
  pub consecutive : c.consecutive_failures ≡ latest_failures xs % 2 ^ 64
  pub guarded : c.is_open ≡ true → (o.breaker_enabled ≡ true) × (threshold o ≤ latest_failures xs)

module _ (o : ClientOptions) (c : Client) (xs : List Outcome) (t : Tells o c xs) where
  count_refused-Tells : (e : Error) → Tells o (count_refused c) (failed e ∷ xs)
  unfolding count_refused
  count_refused-Tells e =
      let total = t.total in
      let failing = t.failing in
      let consecutive = t.consecutive in
      record {
        total = omega arith;
        failing = omega arith;
        consecutive = omega arith;
        guarded = λ h. (let (on, enough) = t.guarded h in (on, omega arith));
      }

  opens-Tells : (now : ℕ) (e : Error) → Tells o (opens o now (count_refused c)) (failed e ∷ xs)
  opens-Tells now e =
      let u = count_refused-Tells e in
      let consecutive = u.consecutive in
      elim (Bool-cases
        (o.breaker_enabled && leb (threshold o) (count_refused c).consecutive_failures)) [
          | inr stays ↦ rw stays u
          | inl trips ↦ rw trips (record {
            total = u.total;
            failing = u.failing;
            consecutive = u.consecutive;
            guarded = λ h. (ground arith, ground arith);
          })
        ]

  finish-Tells : (now : ℕ) (x : Outcome) → Tells o (finish o now x c) (x ∷ xs)
  unfolding finish
  finish-Tells now (ok r) =
      let total = t.total in
      record {
        total = omega arith;
        failing = t.failing;
        consecutive = omega arith;
        guarded = λ h. absurd (cc h);
      }
  finish-Tells now (failed e) = opens-Tells now e

  send-Tells :
      (parse_url : Bytes → Option Error) (r : Request) (w : World)
      → Tells o (send parse_url o r w c).client ((send parse_url o r w c).outcome ∷ xs)
  send-Tells parse_url r w = elim (Option-cases (refusal parse_url o r w.checked_at c)) [
    | inl fine ↦
        subst told (sym (send-passed parse_url o r w c fine)) (finish-Tells w.finished_at _)
    | inr (e, refused) ↦
        subst told (sym (send-refused parse_url o r w c e refused)) (count_refused-Tells e)
  ]
    where
      told : Sent → Type 0
      told sent = Tells o sent.client (sent.outcome ∷ xs)

-- After any calls one after the other the counters of the client are the number of the calls, of those
-- that failed, and of those that failed since the last success, each modulo 2 ^ 64, and the circuit is
-- open only where the breaker is enabled and at least its threshold of calls failed since then.
pub send_all-Tells :
    (parse_url : Bytes → Option Error) (o : ClientOptions) (calls : List (Request × World))
    → Tells o (send_all parse_url o calls).0 (send_all parse_url o calls).1
unfolding send_all
send_all-Tells parse_url o [] = record {
  total = omega arith;
  failing = omega arith;
  consecutive = omega arith;
  guarded = λ h. absurd (cc h);
}
send_all-Tells parse_url o ((r, w) ∷ before) =
    send-Tells o (send_all parse_url o before).0 (send_all parse_url o before).1
      (send_all-Tells parse_url o before) parse_url r w

finish-opens :
    (o : ClientOptions) (now : ℕ) (e : Error) (c : Client)
    → o.breaker_enabled ≡ true
    → threshold o ≤ (count_refused c).consecutive_failures
    → ((finish o now (failed e) c).is_open ≡ true) × ((finish o now (failed e) c).opened_at ≡ now)
unfolding finish
finish-opens o now e c on enough =
    let trips : leb (threshold o) (count_refused c).consecutive_failures ≡ true = ground arith in
    (rw (on, trips) refl, rw (on, trips) refl)

send-finish :
    (parse_url : Bytes → Option Error) (o : ClientOptions) (r : Request) (w : World) (c : Client)
    (e : Error)
    → refusal parse_url o r w.checked_at c ≡ none
    → (send parse_url o r w c).outcome ≡ failed e
    → (send parse_url o r w c).client ≡ finish o w.finished_at (failed e) c
send-finish parse_url o r w c e passed fails =
    let same = send-passed parse_url o r w c passed in
    ap (λ sent. sent.client) same
    ∙ ap (λ x. finish o w.finished_at x c) (sym (ap (λ sent. sent.outcome) same) ∙ fails)

rejected-soon :
    (o : ClientOptions) (now : ℕ) (c : Client)
    → o.breaker_enabled ≡ true
    → c.is_open ≡ true
    → c.opened_at ≤ now
    → now < c.opened_at + o.reset_timeout_ms
    → is_rejected o now c ≡ true
rejected-soon o now c on is_open later soon = ground arith

-- Calls one after the other on a client: the client behind them, and what each comes to.
unfoldable pub follow :
    (Bytes → Option Error) → ClientOptions → Client → List (Request × World) → Client × List Sent
follow parse_url o c [] = (c, [])
follow parse_url o c ((r, w) ∷ later) =
    let s = send parse_url o r w c in
    let (d, rest) = follow parse_url o s.client later in (d, s ∷ rest)

-- A call that tests the circuit before the reset timeout is over.
abbrev pub IsSoon : ClientOptions → ℕ → Request × World → Type 0
IsSoon o opened (r, w) = (opened ≤ w.checked_at) × (w.checked_at < opened + o.reset_timeout_ms)

-- A call that fails as one on an open circuit does, with no call of `SendOnce`.
abbrev pub IsFailFast : Sent → Type 0
IsFailFast s =
    (s.calls ≡ 0) × (s.outcome ≡ failed (record { kind = circuit_open; retryable = true }))

abbrev pub IsOpenSince : ℕ → Client → Type 0
IsOpenSince now c = (c.is_open ≡ true) × (c.opened_at ≡ now)

module _ (parse_url : Bytes → Option Error) (o : ClientOptions) (opened : ℕ)
    (on : o.breaker_enabled ≡ true) where
  send-IsFailFast :
      (r : Request) (w : World) (c : Client)
      → IsOpenSince opened c
      → IsSoon o opened (r, w)
      → IsFailFast (send parse_url o r w c) × IsOpenSince opened (send parse_url o r w c).client
  unfolding count_refused
  send-IsFailFast r w c (is_open, since) (later, soon) =
      let refused = rejected-soon o w.checked_at c on is_open (omega arith) (omega arith) in
      subst (λ s. IsFailFast s × IsOpenSince opened s.client)
        (sym (send-rejected parse_url o r w c refused)) ((refl, refl), (is_open, since))

  follow-IsFailFast :
      (c : Client) (later : List (Request × World))
      → IsOpenSince opened c
      → All (IsSoon o opened) later
      → All IsFailFast (follow parse_url o c later).1
        × IsOpenSince opened (follow parse_url o c later).0
  unfolding follow
  follow-IsFailFast c [] since soon = (tt, since)
  follow-IsFailFast c ((r, w) ∷ later) since (first, soon) =
      let (fast, still) = send-IsFailFast r w c since first in
      let (all, end) = follow-IsFailFast (send parse_url o r w c).client later still soon in
      ((fast, all), end)

is_rejected-late :
    (o : ClientOptions) (now : ℕ) (c : Client)
    → c.opened_at + o.reset_timeout_ms ≤ now
    → is_rejected o now c ≡ false
is_rejected-late o now c late = ground arith

-- Let the breaker be enabled, and let a call that the checks ahead of the loop let through fail, where with
-- it the failures since the last success reach the threshold and are less than 2 ^ 64. Then of calls
-- that follow one after the other, and all test the circuit from its end on and before the reset timeout has
-- passed since, each fails with the error of an open circuit and no call of `SendOnce`. They leave the
-- circuit open since the end of that one call, so that it refuses nothing once the timeout has passed.
pub send_all-opens :
    (parse_url : Bytes → Option Error) (o : ClientOptions) (r : Request) (w : World)
    (before : List (Request × World)) (e : Error) (later : List (Request × World)) (now : ℕ)
    → o.breaker_enabled ≡ true
    → refusal parse_url o r w.checked_at (send_all parse_url o before).0 ≡ none
    → (send parse_url o r w (send_all parse_url o before).0).outcome ≡ failed e
    → o.failure_threshold ≤ suc (latest_failures (send_all parse_url o before).1)
    → suc (latest_failures (send_all parse_url o before).1) < 2 ^ 64
    → All (IsSoon o w.finished_at) later
    → w.finished_at + o.reset_timeout_ms ≤ now
    → All IsFailFast (follow parse_url o (send_all parse_url o ((r, w) ∷ before)).0 later).1
      × IsOpenSince w.finished_at
          (follow parse_url o (send_all parse_url o ((r, w) ∷ before)).0 later).0
      × (is_rejected o now (follow parse_url o (send_all parse_url o ((r, w) ∷ before)).0 later).0
          ≡ false)
unfolding send_all
send_all-opens parse_url o r w before e later now on passed fails enough no_wrap soon over =
    let c = (send_all parse_url o before).0 in
    let xs = (send_all parse_url o before).1 in
    let t = count_refused-Tells o c xs (send_all-Tells parse_url o before) e in
    let number = t.consecutive in
    let reached : threshold o ≤ (count_refused c).consecutive_failures = ground arith in
    let since =
      subst (IsOpenSince w.finished_at) (sym (send-finish parse_url o r w c e passed fails))
        (finish-opens o w.finished_at e c on reached) in
    let (fast, end) =
      follow-IsFailFast parse_url o w.finished_at on (send parse_url o r w c).client later since
        soon in
    let at = end.1 in
    (
      fast,
      end,
      is_rejected-late o now (follow parse_url o (send parse_url o r w c).client later).0
          (omega arith),
    )
