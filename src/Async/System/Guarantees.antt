-- ===== src/Async/System/Guarantees.antt =====
-- What `ThreadPool` of src/asyncx.cpp promises its callers.
use toolx_cpp.Prelude.{
  ℕ, ◌+◌, ◌<◌, ◌≤◌, ◌≡◌, refl, ap, arith, true, false, List, [], ◌∷◌, Option-cases, Bool-cases, inl,
  inr, ◌⊎◌, length, if◌then◌else◌, ltb, ◌==◌,
}
use toolx_cpp.Async.Types.{BackpressurePolicy, Task}
use toolx_cpp.Async.Queue.{QueuedTask, choose}
use toolx_cpp.Async.Queue.Chosen.{choose-none}
use toolx_cpp.Async.Fairness.Turns.{after_turn, take_task-found}
use toolx_cpp.Async.Pool.{Pool, new_pool, resolve_worker_count, is_idle, is_empty}
use toolx_cpp.Async.Sections.{takes, take_task}
use toolx_cpp.Async.System.{System, tasks, Reach}
use toolx_cpp.Async.System.Invariant.{times, threads}
use toolx_cpp.Async.System.Reached.{Reach-Inv, Reach-Fixed}

length-zero {ℓ} : {A : Type ℓ} → (xs : List A) → length xs ≡ 0 → xs ≡ []
length-zero [] h = refl
length-zero (x ∷ xs) h = absurd (omega arith)

idle-empty : (p : Pool) → is_idle p ≡ true → (p.queue ≡ []) × (p.active_workers ≡ 0)
idle-empty p h = (empty p.queue (ground arith), ground arith)
  where
    empty : (q : List QueuedTask) → is_empty q ≡ true → q ≡ []
    empty [] k = refl
    empty (e ∷ q) k = absurd (cc k)

take_task-nonempty :
    (p : Pool) → 0 < length p.queue → (e : QueuedTask) × (p' : Pool) × (take_task p ≡ takes e p')
take_task-nonempty p h = elim (Option-cases (choose p.next_dispatch_slot p.queue)) [
  | inl missing ↦
      absurd
        (let nothing = ap length (choose-none p.next_dispatch_slot p.queue missing) in omega arith)
  | inr ((best, slot), found) ↦
      (best.entry, after_turn best slot p, take_task-found p best slot found)
]

module _ (requested detected capacity : ℕ) (policy : BackpressurePolicy) (s : System)
    (r : Reach requested detected capacity policy s) where
  -- The queue never has more tasks than its capacity, which is 1 where 0 is asked for, and never more
  -- tasks run than the pool has workers, of which there is one at least.
  pub reached-bounds :
      (length s.pool.queue ≤ (if capacity == 0 then 1 else capacity))
      × (s.pool.active_workers ≤ resolve_worker_count requested detected)
      × (0 < resolve_worker_count requested detected)
  unfolding new_pool
  reached-bounds =
      let i = Reach-Inv requested detected capacity policy s r in
      let (room, workers) = Reach-Fixed requested detected capacity policy s r in
      let fits = i.room in
      let few = i.workers in
      let active = i.active in
      let some_worker = i.some_worker in (omega arith, omega arith, omega arith)

  -- Each task was accepted as often as it has run, was dropped by `Stop`, waits in the queue and is
  -- being run, taken together: none is lost and none runs twice.
  pub reached-balance :
      (t : Task)
      → times t s.accepted
        ≡ times t s.done + times t s.dropped + times t (tasks s.pool.queue) + times t s.executing
  reached-balance = (Reach-Inv requested detected capacity policy s r).balance

  -- Where the pool is idle, or has been joined, each accepted task has run or was dropped by `Stop`.
  pub rest_complete :
      (s.pool.running ≡ false) ⊎ (is_idle s.pool ≡ true)
      → (t : Task) → times t s.accepted ≡ times t s.done + times t s.dropped
  unfolding times
  rest_complete rest t =
      let i = Reach-Inv requested detected capacity policy s r in
      let active = i.active in
      let some_worker = i.some_worker in
      let empty : (s.pool.queue ≡ []) × (length s.executing ≡ 0) = elim rest [
        | inl joined ↦ let nobody = i.still joined in (i.drained (omega arith), omega arith)
        | inr idle ↦ let (a, b) = idle-empty s.pool idle in (a, omega arith)
      ] in
      let no_task = ap (λ q. times t (tasks q)) empty.0 in
      let nobody_runs = ap (times t) (length-zero s.executing empty.1) in
      let kept = i.balance t in omega arith

  -- While a task waits in the queue, a worker stands ready to take one, or runs one, or comes back
  -- from one.
  pub queued-progress :
      0 < length s.pool.queue
      → ((0 < s.free) × (e : QueuedTask) × (p : Pool) × (take_task s.pool ≡ takes e p))
        ⊎ ((0 < length s.executing) ⊎ (0 < s.counted))
  queued-progress waits =
      let i = Reach-Inv requested detected capacity policy s r in
      let some_worker = i.some_worker in
      let all : ¬ (threads s < s.pool.worker_count) =
        λ few. let nothing = ap length (i.drained few) in omega arith in
      elim (Bool-cases (ltb 0 s.free)) [
        | inl ready ↦
            (let (e, p, h) = take_task-nonempty s.pool waits in inl (ground arith, e, p, h))
        | inr busy ↦ elim (Bool-cases (ltb 0 s.counted)) [
          | inl back ↦ inr (inr (ground arith))
          | inr gone ↦ inr (inl (ground arith))
        ]
      ]
