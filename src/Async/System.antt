-- ===== src/Async/System.antt =====
-- The threads around a `ThreadPool` of src/asyncx.cpp: callers, workers and the scheduler, each of which
-- runs its sections under the mutex in any order. One thread at a time calls `Join`.
pub mod Invariant
pub mod Workers
pub mod Reached
pub mod Guarantees
use toolx_cpp.Prelude.{
  ℕ, zero, suc, ◌+◌, ◌-◌, ◌<◌, ◌≤◌, ◌≡◌, Bool, true, false, List, [], ◌∷◌, ◌++◌, Option, none, some,
  map, ◌==◌, if◌then◌else◌, length,
}
use toolx_cpp.Async.Types.{
  ErrorKind, StopMode, drain, cancel_pending, BackpressurePolicy, TaskPriority, normal, Status, ok,
  error, Task,
}
use toolx_cpp.Async.Queue.{QueuedTask}
use toolx_cpp.Async.Pool.{
  Pool, new_pool, begin_start, stop, begin_join, end_join, set_backpressure_policy, reset_stats,
}
use toolx_cpp.Async.Sections.{
  Enqueue, returned, waits, enqueue_task, enqueue_nothing, wait_for_idle, timed_wake, plain_wait,
  Take, takes, idles, leaves, take_task, count_completed, leave_task,
}
use toolx_cpp.Async.Timers.{
  schedule, cancel_scheduled, cancelled, Tick, fires, ends, take_due, count_fired,
}

-- `free` workers stand at the wait of their loop, `executing` has the tasks that run, and `counted`
-- workers have run a task and not left it. The scheduler carries a task from one section to the next.
-- Of the tasks that `EnqueueTask` accepted some have run and some were dropped by `Stop`.
pub record System : Type 0 where
  pub pool : Pool
  pub free : ℕ
  pub executing : List Task
  pub counted : ℕ
  pub scheduling : Bool
  pub carried : Option Task
  pub accepted : List Task
  pub done : List Task
  pub dropped : List Task

abbrev pub initial : Pool → System
initial p = record {
  pool = p;
  free = 0;
  executing = [];
  counted = 0;
  scheduling = false;
  carried = none;
  accepted = [];
  done = [];
  dropped = [];
}

abbrev pub tasks : List QueuedTask → List Task
tasks q = map (λ e. e.task) q

-- What `Stop` drops.
abbrev pub dropped_by : StopMode → Pool → List Task
dropped_by drain p = []
dropped_by cancel_pending p = if p.running then tasks p.queue else []

-- The sections of `EnqueueTask`: the first, and those behind a wait.
pub data Enqueues (t : Task) (r : TaskPriority) (p : Pool) : Enqueue → Type 0 where
  first :
      (has_deadline wait_for_slot : Bool)
      → Enqueues t r p (enqueue_task has_deadline wait_for_slot t r p)
  woken : (expired : Bool) → Enqueues t r p (timed_wake expired t r p)
  plain : Enqueues t r p (plain_wait t r p)

abbrev pub NoThreads : System → Type 0
NoThreads s = (s.free ≡ 0) × (s.executing ≡ []) × (s.counted ≡ 0) × (s.scheduling ≡ false)

pub data Step (s : System) : System → Type 0 where
  starts :
      {p : Pool}
      → begin_start s.pool ≡ some p
      → Step s (record s { pool = p; free = s.free + p.worker_count; scheduling = true })
  posts :
      (t : Task) (r : TaskPriority) {p : Pool} {e : Enqueue}
      → Enqueues t r s.pool e
      → e ≡ returned ok p
      → Step s (record s { pool = p; accepted = t ∷ s.accepted })
  refuses :
      (t : Task) (r : TaskPriority) (k : ErrorKind) (b : Bool) {p : Pool} {e : Enqueue}
      → Enqueues t r s.pool e
      → e ≡ returned (error k b) p
      → Step s (record s { pool = p })
  stops :
      (mode : StopMode)
      → Step s (record s { pool = stop mode s.pool; dropped = dropped_by mode s.pool ++ s.dropped })
  begins_join : Step s (record s { pool = begin_join s.pool })
  ends_join : NoThreads s → Step s (record s { pool = end_join s.pool })
  sets_policy :
      (b : BackpressurePolicy) → Step s (record s { pool = set_backpressure_policy b s.pool })
  resets : Step s (record s { pool = reset_stats s.pool })
  schedules :
      (t : Task) (due interval : ℕ) (periodic : Bool)
      → Step s (record s { pool = (schedule t due interval periodic s.pool).0 })
  cancels :
      (id : ℕ) {p : Pool}
      → cancel_scheduled id s.pool ≡ cancelled p
      → Step s (record s { pool = p })
  waits_for_idle :
      (has_deadline expired : Bool) (r : Status) {p : Pool}
      → wait_for_idle has_deadline expired s.pool ≡ returned r p
      → Step s (record s { pool = p })
  worker_takes :
      {e : QueuedTask} {p : Pool}
      → 0 < s.free
      → take_task s.pool ≡ takes e p
      → Step s (record s { pool = p; free = s.free - 1; executing = e.task ∷ s.executing })
  worker_ends : 0 < s.free → take_task s.pool ≡ leaves → Step s (record s { free = s.free - 1 })
  task_ends :
      (before : List Task) (t : Task) (behind : List Task)
      → s.executing ≡ before ++ t ∷ behind
      → Step s (record s {
        pool = count_completed s.pool;
        executing = before ++ behind;
        counted = suc s.counted;
        done = t ∷ s.done;
      })
  worker_returns :
      0 < s.counted
      → Step s (record s { pool = leave_task s.pool; counted = s.counted - 1; free = suc s.free })
  scheduler_takes :
      (now : ℕ) (t : Task) {p : Pool}
      → s.scheduling ≡ true
      → s.carried ≡ none
      → take_due now s.pool ≡ fires t p
      → Step s (record s { pool = p; carried = some t })
  scheduler_posts :
      (t : Task) {p : Pool} {e : Enqueue}
      → s.carried ≡ some t
      → Enqueues t normal s.pool e
      → e ≡ returned ok p
      → Step s (record s { pool = count_fired p; carried = none; accepted = t ∷ s.accepted })
  scheduler_stops :
      (t : Task) (k : ErrorKind) (b : Bool) {p : Pool} {e : Enqueue}
      → s.carried ≡ some t
      → Enqueues t normal s.pool e
      → e ≡ returned (error k b) p
      → Step s (record s { pool = p; carried = none; scheduling = false })
  scheduler_ends :
      (now : ℕ)
      → s.carried ≡ none
      → take_due now s.pool ≡ ends
      → Step s (record s { scheduling = false })

pub data Reach (requested detected capacity : ℕ) (policy : BackpressurePolicy)
    : System → Type 0 where
  here :
      Reach requested detected capacity policy
        (initial (new_pool requested detected capacity policy))
  next :
      {s t : System}
      → Reach requested detected capacity policy s
      → Step s t
      → Reach requested detected capacity policy t
