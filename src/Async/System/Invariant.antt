-- ===== src/Async/System/Invariant.antt =====
-- What holds in every state that the threads around a `ThreadPool` reach.
pub mod Pools
pub mod Callers
pub mod Closing
use toolx_cpp.Prelude.{
  ℕ, zero, suc, ◌+◌, ◌-◌, ◌<◌, ◌≤◌, ◌≡◌, refl, ap, ◌∙◌, arith, Bool, true, false, List, [], ◌∷◌,
  ◌++◌, Option, none, some, map, ◌==◌, if◌then◌else◌, length, length-append, Bool-cases, inl, inr,
  ◌⊎◌, Option-cases, get_elem?, ltb, not, ◌&&◌, ◌||◌,
}
use mathlib.Core.List.{map-append}
use toolx_cpp.Async.Types.{
  ErrorKind, StopMode, drain, cancel_pending, BackpressurePolicy, TaskPriority, normal, Status, ok,
  error, Task,
}
use toolx_cpp.Async.Queue.{QueuedTask}
use toolx_cpp.Async.Pool.{
  Pool, new_pool, begin_start, stop, begin_join, end_join, set_backpressure_policy, reset_stats,
  ScheduledTask, Counters, clear_queue, clear_scheduled,
}
use toolx_cpp.Async.Sections.{
  Enqueue, returned, waits, enqueue_task, enqueue_nothing, timed_wake, plain_wait, Take, takes,
  idles, leaves, take_task, count_completed, leave_task, push_task, finish_enqueue, has_room,
  is_open, refuse, timed_wait,
}
use toolx_cpp.Async.Timers.{
  schedule, add_scheduled, cancel_scheduled, cancelled, take_due, fires, count_fired,
}
use toolx_cpp.Async.System.{
  System, initial, tasks, dropped_by, NoThreads, Enqueues, first, woken, plain,
}

-- How often a task is on a list.
unfoldable pub times : Task → List Task → ℕ
times t [] = 0
times t (u ∷ ts) = if u == t then suc (times t ts) else times t ts

pub times-append : (t : Task) (ts us : List Task) → times t (ts ++ us) ≡ times t ts + times t us
unfolding times
times-append t [] us = omega arith
times-append t (u ∷ ts) us = ground (arith, times-append t ts us)

pub times-cons : (t u : Task) (ts : List Task) → times t (u ∷ ts) ≡ times t ts + times t (u ∷ [])
unfolding times
times-cons t u ts = ground arith

pub times-tasks :
    (t : Task) (q r : List QueuedTask)
    → times t (tasks (q ++ r)) ≡ times t (tasks q) + times t (tasks r)
times-tasks t q r = ap (times t) (map-append (λ e. e.task) q r) ∙ times-append t (tasks q) (tasks r)

abbrev pub threads : System → ℕ
threads s = s.free + length s.executing + s.counted

pub record Inv (s : System) : Type 0 where
  pub room : length s.pool.queue ≤ s.pool.capacity
  pub some_worker : 0 < s.pool.worker_count
  pub active : s.pool.active_workers ≡ length s.executing + s.counted
  pub workers : threads s ≤ s.pool.worker_count
  pub balance :
      (t : Task)
      → times t s.accepted
        ≡ times t s.done + times t s.dropped + times t (tasks s.pool.queue) + times t s.executing
  -- A pool that takes tasks runs and has all its workers.
  pub open_pool :
      s.pool.accepting ≡ true
      → (s.pool.running ≡ true)
        × (s.pool.stop_requested ≡ false)
        × (threads s ≡ s.pool.worker_count)
  -- The first worker to end leaves an empty queue, as does a pool that does not run.
  pub drained : threads s < s.pool.worker_count → s.pool.queue ≡ []
  pub still : s.pool.running ≡ false → threads s ≡ 0

-- A pool that differs in its timers, its policy and its counters.
abbrev pub Alike : Pool → Pool → Type 0
Alike p p' =
    (ss : List ScheduledTask) × (id : ℕ) × (b : BackpressurePolicy) × (c : Counters) × (p'
      ≡ record p { scheduled = ss; next_scheduled_id = id; policy = b; counts = c })

pub Inv-Alike :
    (s : System) (p : Pool) (carried : Option Task) (scheduling : Bool)
    → Inv s
    → Alike s.pool p
    → Inv (record s { pool = p; carried = carried; scheduling = scheduling })
Inv-Alike s p carried scheduling i (ss, id, b, c, e) = rw e (record {
  room = i.room;
  some_worker = i.some_worker;
  active = i.active;
  workers = i.workers;
  balance = i.balance;
  open_pool = i.open_pool;
  drained = i.drained;
  still = i.still;
})

pub Alike-refl : (p : Pool) → Alike p p
Alike-refl p = (p.scheduled, p.next_scheduled_id, p.policy, p.counts, refl)
