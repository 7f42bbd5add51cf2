-- ===== src/Async/System/Workers.antt =====
-- The workers of src/asyncx.cpp keep what holds of a `ThreadPool` and its threads.
use toolx_cpp.Prelude.{
  ℕ, zero, suc, ◌+◌, ◌-◌, ◌<◌, ◌≡◌, ap, ◌∙◌, arith, true, List, [], ◌∷◌, ◌++◌, some, Option-cases,
  Bool-cases, inl, inr, length, length-append, get_elem?,
}
use toolx_cpp.Async.Types.{Task}
use toolx_cpp.Async.Queue.{QueuedTask, Place, erase_at, choose}
use toolx_cpp.Async.Queue.Chosen.{choose-Stands, choose-none, length-erase_at}
use toolx_cpp.Async.Pool.{Pool}
use toolx_cpp.Async.Sections.{takes, leaves, take_task, count_completed, leave_task}
use toolx_cpp.Async.System.{System, tasks}
use toolx_cpp.Async.System.Invariant.{times, times-append, times-cons, threads, Inv}

times-erase_at :
    (t : Task) (q : List QueuedTask) (i : ℕ) (e : QueuedTask)
    → get_elem? q i ≡ some e
    → times t (tasks (erase_at i q)) + times t (e.task ∷ []) ≡ times t (tasks q)
unfolding times erase_at
times-erase_at t [] i e h = absurd (cc h)
times-erase_at t (d ∷ q) zero e h = ground arith
times-erase_at t (d ∷ q) (suc i) e h = ground (arith, times-erase_at t q i e h)

pub take_task-takes :
    (p p' : Pool) (e : QueuedTask)
    → take_task p ≡ takes e p'
    → (best : Place) × (slot : ℕ) × (choose p.next_dispatch_slot p.queue ≡ some (best, slot))
      × (e ≡ best.entry)
      × (p' ≡ record p {
        queue = erase_at best.position p.queue;
        next_dispatch_slot = slot;
        active_workers = suc p.active_workers;
      })
unfolding take_task
take_task-takes p p' e h = elim (Option-cases (choose p.next_dispatch_slot p.queue)) [
  | inl missing ↦
      absurd (elim (Bool-cases p.stop_requested) [ inl a ↦ ground arith | inr a ↦ ground arith ])
  | inr ((best, slot), found) ↦ (best, slot, found, ground arith, ground arith)
]

take_task-leaves : (p : Pool) → take_task p ≡ leaves → (p.queue ≡ []) × (p.stop_requested ≡ true)
unfolding take_task
take_task-leaves p h = elim (Option-cases (choose p.next_dispatch_slot p.queue)) [
  | inl missing ↦ (choose-none p.next_dispatch_slot p.queue missing, ground arith)
  | inr ((best, slot), found) ↦ absurd (ground arith)
]

module _ (s : System) (i : Inv s) where
  pub worker_takes-Inv :
      (e : QueuedTask) (p : Pool)
      → 0 < s.free
      → take_task s.pool ≡ takes e p
      → Inv (record s { pool = p; free = s.free - 1; executing = e.task ∷ s.executing })
  unfolding erase_at
  worker_takes-Inv e p waits h =
      let (best, slot, found, same, after) = take_task-takes s.pool p e h in
      let place = choose-Stands s.pool.next_dispatch_slot s.pool.queue best slot found in
      rw (same, after)
        (record {
          room =
              let l = length-erase_at best.position s.pool.queue in let r = i.room in omega arith;
          some_worker = i.some_worker;
          active = let a = i.active in omega arith;
          workers = let w = i.workers in omega arith;
          balance = λ t.
              (let kept = i.balance t in
                let left = times-erase_at t s.pool.queue best.position best.entry place in
                let one = times-cons t best.entry.task s.executing in omega arith);
          open_pool = λ o. (let (runs, goes, all) = i.open_pool o in (runs, goes, omega arith));
          drained = λ few.
              (let none_left = i.drained (omega arith) in
                let nothing : get_elem? [] best.position ≡ some best.entry =
                  rw none_left at place in
                absurd (cc nothing));
          still = λ o. absurd (let none_left = i.still o in omega arith);
        })

  pub worker_ends-Inv :
      0 < s.free → take_task s.pool ≡ leaves → Inv (record s { free = s.free - 1 })
  worker_ends-Inv waits h =
      let (none_left, stops) = take_task-leaves s.pool h in
      record {
        room = i.room;
        some_worker = i.some_worker;
        active = i.active;
        workers = let w = i.workers in omega arith;
        balance = i.balance;
        open_pool = λ o. absurd (let (runs, goes, all) = i.open_pool o in cc (stops, goes));
        drained = λ few. none_left;
        still = λ o. absurd (let nobody = i.still o in omega arith);
      }

  pub task_ends-Inv :
      (before : List Task) (t : Task) (behind : List Task)
      → s.executing ≡ before ++ t ∷ behind
      → Inv (record s {
        pool = count_completed s.pool;
        executing = before ++ behind;
        counted = suc s.counted;
        done = t ∷ s.done;
      })
  unfolding count_completed
  task_ends-Inv before t behind h =
      let size = ap length h ∙ length-append before (t ∷ behind) in
      let less = length-append before behind in
      let same : threads s ≡ s.free + length (before ++ behind) + suc s.counted = omega arith in
      record {
        room = i.room;
        some_worker = i.some_worker;
        active = let a = i.active in omega arith;
        workers = let w = i.workers in omega arith;
        balance = λ u.
            (let kept = i.balance u in
              let split = ap (times u) h ∙ times-append u before (t ∷ behind) in
              let joined = times-append u before behind in
              let one = times-cons u t behind in let two = times-cons u t s.done in omega arith);
        open_pool = λ o. (let (runs, goes, all) = i.open_pool o in (runs, goes, omega arith));
        drained = λ few. i.drained (omega arith);
        still = λ o. absurd (let nobody = i.still o in omega arith);
      }

  pub worker_returns-Inv :
      0 < s.counted
      → Inv (record s { pool = leave_task s.pool; counted = s.counted - 1; free = suc s.free })
  unfolding leave_task
  worker_returns-Inv some_one = record {
    room = i.room;
    some_worker = i.some_worker;
    active = let a = i.active in omega arith;
    workers = let w = i.workers in omega arith;
    balance = i.balance;
    open_pool = λ o. (let (runs, goes, all) = i.open_pool o in (runs, goes, omega arith));
    drained = λ few. i.drained (omega arith);
    still = λ o. absurd (let nobody = i.still o in omega arith);
  }
