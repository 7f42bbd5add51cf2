-- ===== src/Async/System/Invariant/Callers.antt =====
-- `Start` and `EnqueueTask` of src/asyncx.cpp keep what holds of a `ThreadPool` and its threads.
use toolx_cpp.Prelude.{
  ◌+◌, ◌≡◌, refl, arith, true, false, [], ◌∷◌, Option, some, length, length-append,
}
use toolx_cpp.Async.Types.{drain, TaskPriority, Task}
use toolx_cpp.Async.Queue.{QueuedTask}
use toolx_cpp.Async.Pool.{Pool, begin_start}
use toolx_cpp.Async.Sections.{push_task}
use toolx_cpp.Async.System.{System}
use toolx_cpp.Async.System.Invariant.{times-cons, times-tasks, Inv}
use toolx_cpp.Async.System.Invariant.Pools.{Accepts}

pub begin_start-some :
    (p p' : Pool)
    → begin_start p ≡ some p'
    → (p.running ≡ false)
      × (p' ≡ record p {
        stop_mode = drain;
        stop_requested = false;
        scheduler_stop_requested = false;
        accepting = true;
        running = true;
        active_workers = 0;
        next_task_sequence = 1;
        next_dispatch_slot = 0;
      })
unfolding begin_start
begin_start-some p p' h = (ground arith, ground arith)

pub starts-Inv :
    (s : System) (p : Pool)
    → Inv s
    → begin_start s.pool ≡ some p
    → Inv (record s { pool = p; free = s.free + p.worker_count; scheduling = true })
starts-Inv s p i h =
    let (stopped, e) = begin_start-some s.pool p h in
    let nobody = i.still stopped in
    let none_run : length s.executing + s.counted ≡ 0 = omega arith in
    rw e (record {
      room = i.room;
      some_worker = i.some_worker;
      active = omega arith;
      workers = omega arith;
      balance = i.balance;
      open_pool = λ o. (refl, refl, omega arith);
      drained = λ few. absurd (let w = i.some_worker in omega arith);
      still = λ o. absurd (cc o);
    })

pub posts-Inv :
    (s : System) (t : Task) (r : TaskPriority) (p : Pool) (carried : Option Task)
    → Inv s
    → Accepts t r s.pool p
    → Inv (record s { pool = p; carried = carried; accepted = t ∷ s.accepted })
unfolding push_task
posts-Inv s t r p carried i (runs, accepts, room, e) =
    let (_, no_stop, full) = i.open_pool accepts in
    rw e (record {
      room =
          let l =
            length-append s.pool.queue
              (record { task = t; priority = r; sequence = s.pool.next_task_sequence } ∷ []) in
          omega arith;
      some_worker = i.some_worker;
      active = i.active;
      workers = i.workers;
      balance = λ u.
          (let new : QueuedTask = record {
            task = t;
            priority = r;
            sequence = s.pool.next_task_sequence;
          } in
            let kept = i.balance u in
            let one = times-cons u t s.accepted in
            let all = times-tasks u s.pool.queue (new ∷ []) in omega arith);
      open_pool = i.open_pool;
      drained = λ few. absurd (omega arith);
      still = i.still;
    })
