-- ===== src/Async/Pool.antt =====
-- `ThreadPool`: its state, and its functions from one acquisition of the mutex to the next release.
use toolx_cpp.Prelude.{
  ℕ, Bool, true, false, not, ◌&&◌, List, [], ◌∷◌, Option, none, some, ltb, ◌==◌, if◌then◌else◌,
  length,
}
use toolx_cpp.Async.Types.{StopMode, drain, cancel_pending, BackpressurePolicy, Task, add_64}
use toolx_cpp.Async.Queue.{QueuedTask}

pub record ScheduledTask : Type 0 where
  pub id : ℕ
  pub task : Task
  pub due : ℕ
  pub interval : ℕ
  pub periodic : Bool

-- The atomic counters.
pub record Counters : Type 0 where
  pub submitted : ℕ
  pub completed : ℕ
  pub rejected : ℕ
  pub timed_out : ℕ
  pub backpressure_rejected : ℕ
  pub created : ℕ
  pub fired : ℕ
  pub dropped : ℕ
  pub rescheduled : ℕ

abbrev pub no_counts : Counters
no_counts = record {
  submitted = 0;
  completed = 0;
  rejected = 0;
  timed_out = 0;
  backpressure_rejected = 0;
  created = 0;
  fired = 0;
  dropped = 0;
  rescheduled = 0;
}

pub record Pool : Type 0 where
  pub worker_count : ℕ
  pub capacity : ℕ
  pub queue : List QueuedTask
  pub scheduled : List ScheduledTask
  pub active_workers : ℕ
  pub next_scheduled_id : ℕ
  pub next_task_sequence : ℕ
  pub next_dispatch_slot : ℕ
  pub running : Bool
  pub accepting : Bool
  pub stop_requested : Bool
  pub scheduler_stop_requested : Bool
  pub stop_mode : StopMode
  pub policy : BackpressurePolicy
  pub counts : Counters

-- `ResolveWorkerCount`, where `detected` is what the system reports.
unfoldable pub resolve_worker_count : ℕ → ℕ → ℕ
resolve_worker_count requested detected =
    if ltb 0 requested then requested else if detected == 0 then 1 else detected

-- The constructor, up to the call of `Start`.
unfoldable pub new_pool : (requested detected queue_capacity : ℕ) → BackpressurePolicy → Pool
new_pool requested detected queue_capacity policy = record {
  worker_count = resolve_worker_count requested detected;
  capacity = if queue_capacity == 0 then 1 else queue_capacity;
  queue = [];
  scheduled = [];
  active_workers = 0;
  next_scheduled_id = 1;
  next_task_sequence = 1;
  next_dispatch_slot = 0;
  running = false;
  accepting = false;
  stop_requested = false;
  scheduler_stop_requested = false;
  stop_mode = drain;
  policy = policy;
  counts = no_counts;
}

abbrev pub is_empty {ℓ} : {A : Type ℓ} → List A → Bool
is_empty [] = true
is_empty (x ∷ xs) = false

-- `IsIdleLocked`.
abbrev pub is_idle : Pool → Bool
is_idle p = is_empty p.queue && (p.active_workers == 0 && is_empty p.scheduled)

-- `Start` up to the creation of the threads; `none` where the pool runs already.
unfoldable pub begin_start : Pool → Option Pool
begin_start p =
    if p.running
    then none
    else some (record p {
      stop_mode = drain;
      stop_requested = false;
      scheduler_stop_requested = false;
      accepting = true;
      running = true;
      active_workers = 0;
      next_task_sequence = 1;
      next_dispatch_slot = 0;
    })

-- The handler of `Start`, before and behind the joins.
unfoldable pub start_failed : Pool → Pool
start_failed p = record p {
  accepting = false;
  stop_requested = true;
  scheduler_stop_requested = true;
}

unfoldable pub start_undone : Pool → Pool
start_undone p = record p {
  running = false;
  stop_requested = false;
  scheduler_stop_requested = false;
  stop_mode = drain;
}

abbrev pub count_rejected : ℕ → Pool → Pool
count_rejected n p = record p { counts = record p.counts { rejected = add_64 p.counts.rejected n } }

-- The scheduled tasks are dropped; a size of 0 is added as well.
unfoldable pub clear_scheduled : Pool → Pool
clear_scheduled p = record p {
  scheduled = [];
  counts = record p.counts {
    rejected = add_64 p.counts.rejected (length p.scheduled);
    dropped = add_64 p.counts.dropped (length p.scheduled);
  };
}

unfoldable pub clear_queue : StopMode → Pool → Pool
clear_queue drain p = p
clear_queue cancel_pending p = record p {
  queue = [];
  counts = record p.counts { rejected = add_64 p.counts.rejected (length p.queue) };
}

-- `Stop`.
unfoldable pub stop : StopMode → Pool → Pool
stop mode p =
    if not p.running
    then p
    else clear_queue mode (
        clear_scheduled (record p {
          stop_mode = mode;
          accepting = false;
          stop_requested = true;
          scheduler_stop_requested = true;
        }))

-- `Join` before and behind the joins of the threads.
unfoldable pub begin_join : Pool → Pool
begin_join p =
    if p.running && not p.stop_requested
    then clear_scheduled
        (record p { accepting = false; stop_requested = true; scheduler_stop_requested = true })
    else p

unfoldable pub end_join : Pool → Pool
end_join p = record p {
  running = false;
  accepting = false;
  stop_requested = false;
  scheduler_stop_requested = false;
  stop_mode = drain;
}

unfoldable pub set_backpressure_policy : BackpressurePolicy → Pool → Pool
set_backpressure_policy b p = record p { policy = b }

unfoldable pub reset_stats : Pool → Pool
reset_stats p = record p { counts = no_counts }
