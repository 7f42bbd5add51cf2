-- ===== src/Async/Tests.antt =====
-- The thread pool of src/asyncx.cpp on short runs.
use toolx_cpp.Prelude.{
  ◌+◌, ◌<◌, ◌≤◌, ◌≡◌, refl, arith, true, false, List, [], ◌∷◌, inr, ◌⊎◌, length,
}
use toolx_cpp.Async.Types.{drain, cancel_pending, block, high, low, same_priority}
use toolx_cpp.Async.Queue.{
  QueuedTask, oldest_loop, oldest, dispatch_slot, choose_loop, choose, erase_at, oldest_of_all,
}
use toolx_cpp.Async.Queue.Oldest.{tally, is_entry}
use toolx_cpp.Async.Pool.{
  Pool, ScheduledTask, new_pool, resolve_worker_count, begin_start, is_idle, stop, clear_queue,
  clear_scheduled,
}
use toolx_cpp.Async.Sections.{
  takes, take_task, enqueue_task, finish_enqueue, push_task, count_completed, leave_task,
  timed_wake,
}
use toolx_cpp.Async.Timers.{fires, sleeps_until, take_due, find_next_due, next_due_loop, remove_at}
use toolx_cpp.Async.Timers.NextDue.{take_due-fires, ScheduledAt, IsLeast}
use toolx_cpp.Async.Timers.{Due}
use toolx_cpp.Async.Fairness.{Event, accepts, worker_comes, served, accepted-served}
use toolx_cpp.Async.System.{
  System, initial, tasks, Reach, here, next, starts, posts, first, worker_takes, task_ends,
  worker_returns,
}
use toolx_cpp.Async.System.Invariant.{times}
use toolx_cpp.Async.System.Guarantees.{
  reached-bounds, reached-balance, rest_complete, queued-progress,
}

abbrev fresh : Pool
fresh = new_pool 1 0 2 block

abbrev running_pool : Pool
running_pool = record fresh { accepting = true; running = true }

abbrev posted_pool : Pool
posted_pool = push_task 7 low running_pool

abbrev started : System
started = record (initial fresh) { pool = running_pool; free = 1; scheduling = true }

abbrev posted : System
posted = record started { pool = posted_pool; accepted = 7 ∷ [] }

started-Reach : Reach 1 0 2 block started
unfolding new_pool resolve_worker_count begin_start
started-Reach = next here (starts {p = running_pool} refl)

posted-Reach : Reach 1 0 2 block posted
unfolding new_pool enqueue_task finish_enqueue push_task
posted-Reach = next started-Reach (posts 7 low {p = posted_pool} (first false true) refl)

abbrev taken_pool : Pool
taken_pool = record posted_pool { queue = []; next_dispatch_slot = 0; active_workers = 1 }

abbrev taken : System
taken = record posted { pool = taken_pool; free = 0; executing = 7 ∷ [] }

posted-takes :
    take_task posted_pool ≡ takes (record { task = 7; priority = low; sequence = 1 }) taken_pool
unfolding take_task choose choose_loop oldest oldest_loop dispatch_slot same_priority erase_at
    push_task new_pool oldest_of_all
posted-takes = refl

taken-Reach : Reach 1 0 2 block taken
taken-Reach = next posted-Reach (worker_takes (omega arith) posted-takes)

abbrev idle : System
idle = record taken {
  pool = leave_task (count_completed taken_pool);
  executing = [];
  free = 1;
  counted = 0;
  done = 7 ∷ [];
}

idle-Reach : Reach 1 0 2 block idle
idle-Reach = next (next taken-Reach (task_ends [] 7 [] refl)) (worker_returns (omega arith))

idle_test : is_idle idle.pool ≡ true
unfolding leave_task count_completed push_task new_pool
idle_test = refl

reached-bounds_example :
    (length posted.pool.queue ≤ 2)
    × (posted.pool.active_workers ≤ resolve_worker_count 1 0)
    × (0 < resolve_worker_count 1 0)
reached-bounds_example = reached-bounds 1 0 2 block posted posted-Reach

reached-balance_example :
    times 7 posted.accepted
    ≡ times 7 posted.done
      + times 7 posted.dropped
      + times 7 (tasks posted.pool.queue)
      + times 7 posted.executing
reached-balance_example = reached-balance 1 0 2 block posted posted-Reach 7

rest_complete_example : times 7 idle.accepted ≡ times 7 idle.done + times 7 idle.dropped
rest_complete_example = rest_complete 1 0 2 block idle idle-Reach (inr idle_test) 7

posted_waits : 0 < length posted.pool.queue
unfolding push_task new_pool
posted_waits = omega arith

queued-progress_example :
    ((0 < posted.free) × (e : QueuedTask) × (p : Pool) × (take_task posted.pool ≡ takes e p))
    ⊎ ((0 < length posted.executing) ⊎ (0 < posted.counted))
queued-progress_example = queued-progress 1 0 2 block posted posted-Reach posted_waits

abbrev busy_events : List Event
busy_events =
    worker_comes
    ∷ accepts 8 high
    ∷ worker_comes
    ∷ accepts 9 high
    ∷ worker_comes
    ∷ worker_comes
    ∷ worker_comes
    ∷ worker_comes
    ∷ worker_comes
    ∷ []

accepted-served_example :
    0
    < tally
        (is_entry low running_pool.next_task_sequence)
        (served busy_events (push_task 7 low running_pool))
unfolding new_pool
accepted-served_example =
    accepted-served busy_events 7 low running_pool (omega arith) (omega arith) (omega arith)

abbrev due_task : ScheduledTask
due_task = record { id = 1; task = 7; due = 40; interval = 0; periodic = false }

abbrev later_task : ScheduledTask
later_task = record { id = 2; task = 8; due = 50; interval = 10; periodic = true }

abbrev timer_pool : Pool
timer_pool = record running_pool { scheduled = later_task ∷ due_task ∷ [] }

due_test : take_due 45 timer_pool ≡ fires 7 (record running_pool { scheduled = later_task ∷ [] })
unfolding take_due find_next_due next_due_loop remove_at new_pool
due_test = refl

early_test : take_due 39 timer_pool ≡ sleeps_until 40
unfolding take_due find_next_due next_due_loop new_pool
early_test = refl

take_due-fires_example :
    (b : Due) × ScheduledAt timer_pool.scheduled b
    × (b.entry.task ≡ 7)
    × (b.entry.due ≤ 45)
    × IsLeast b.entry.due timer_pool.scheduled
    × (timer_pool.running ≡ true)
    × (timer_pool.scheduler_stop_requested ≡ false)
take_due-fires_example =
    take_due-fires 45 7 timer_pool (record running_pool { scheduled = later_task ∷ [] }) due_test

timeout_test :
    timed_wake true 9 low (record posted_pool { capacity = 1 })
    ≡ timed_wake true 9 high (record posted_pool { capacity = 1 })
unfolding timed_wake push_task new_pool
timeout_test = refl

drain_test : (stop drain posted_pool).queue ≡ posted_pool.queue
unfolding stop clear_queue clear_scheduled push_task new_pool
drain_test = refl

cancel_test : (stop cancel_pending posted_pool).queue ≡ []
unfolding stop clear_queue clear_scheduled push_task new_pool
cancel_test = refl
