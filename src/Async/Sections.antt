-- ===== src/Async/Sections.antt =====
-- The sections of `EnqueueTask` and of `WorkerLoop` under the mutex of `ThreadPool`.
use toolx_cpp.Prelude.{
  suc, ◌-◌, Bool, true, false, not, ◌&&◌, ◌||◌, [], ◌∷◌, ◌++◌, none, some, ltb, if◌then◌else◌,
  length,
}
use toolx_cpp.Async.Types.{
  ErrorKind, invalid_argument, timeout, queue_full, queue_closed, not_running, block, reject,
  TaskPriority, Status, ok, error, Task, add_64,
}
use toolx_cpp.Async.Queue.{QueuedTask, erase_at, choose}
use toolx_cpp.Async.Pool.{Pool, count_rejected, is_idle}

-- What a part of `EnqueueTask` comes to: a return, or a wait for `cv_not_full_`.
pub data Enqueue : Type 0 where
  returned : Status → Pool → Enqueue
  waits : Pool → Enqueue

abbrev pub refuse : ErrorKind → Pool → Enqueue
refuse kind p = returned (error kind true) (count_rejected 1 p)

abbrev pub has_room : Pool → Bool
has_room p = ltb (length p.queue) p.capacity

abbrev pub is_open : Pool → Bool
is_open p = p.running && p.accepting

unfoldable pub push_task : Task → TaskPriority → Pool → Pool
push_task t priority p = record p {
  queue = p.queue ++ record { task = t; priority = priority; sequence = p.next_task_sequence } ∷ [];
  next_task_sequence = add_64 p.next_task_sequence 1;
  counts = record p.counts { submitted = add_64 p.counts.submitted 1 };
}

-- The end of `EnqueueTask`.
unfoldable pub finish_enqueue : Task → TaskPriority → Pool → Enqueue
finish_enqueue t priority p =
    if not (is_open p) then refuse queue_closed p else returned ok (push_task t priority p)

-- The loop of a wait with a deadline, from its test on.
unfoldable pub timed_wait : Task → TaskPriority → Pool → Enqueue
timed_wait t priority p =
    if has_room p
    then finish_enqueue t priority p
    else if not (is_open p)
    then refuse queue_closed p
    else waits p

-- Behind `wait_until`, where `expired` says that the deadline has passed.
unfoldable pub timed_wake : Bool → Task → TaskPriority → Pool → Enqueue
timed_wake expired t priority p =
    if expired && not (has_room p)
    then returned (error timeout true)
        (record p { counts = record p.counts { timed_out = add_64 p.counts.timed_out 1 } })
    else timed_wait t priority p

-- The wait with no deadline, at the test of its predicate.
unfoldable pub plain_wait : Task → TaskPriority → Pool → Enqueue
plain_wait t priority p =
    if has_room p || not (is_open p) then finish_enqueue t priority p else waits p

abbrev pub wait_for_room : Bool → Task → TaskPriority → Pool → Enqueue
wait_for_room has_deadline t priority p =
    if has_deadline then timed_wait t priority p else plain_wait t priority p

-- `EnqueueTask` up to the first wait, for a task that is not empty.
unfoldable pub enqueue_task :
    (has_deadline wait_for_slot : Bool) → Task → TaskPriority → Pool → Enqueue
enqueue_task has_deadline wait_for_slot t priority p =
    if not p.running
    then refuse not_running p
    else if not p.accepting
    then refuse queue_closed p
    else if has_room p
    then finish_enqueue t priority p
    else if not wait_for_slot
    then returned (error queue_full true) (record p {
      counts = record p.counts {
        rejected = add_64 p.counts.rejected 1;
        backpressure_rejected = add_64 p.counts.backpressure_rejected 1;
      };
    })
    else wait_for_room has_deadline t priority p

-- `EnqueueTask` on an empty function.
unfoldable pub enqueue_nothing : Pool → Enqueue
enqueue_nothing p = returned (error invalid_argument false) (count_rejected 1 p)

-- `WaitForIdleImpl`, at the test of its predicate.
unfoldable pub wait_for_idle : (has_deadline expired : Bool) → Pool → Enqueue
wait_for_idle has_deadline expired p =
    if is_idle p
    then returned ok p
    else if has_deadline && expired
    then returned (error timeout true)
        (record p { counts = record p.counts { timed_out = add_64 p.counts.timed_out 1 } })
    else waits p

-- `ShouldWaitOnBackpressure`.
unfoldable pub should_wait : Pool → Bool
should_wait p = elim p.policy [ block ↦ true | reject ↦ false ]

-- `WorkerLoop` from the wait on: it takes a task, waits, or leaves the loop.
pub data Take : Type 0 where
  takes : QueuedTask → Pool → Take
  idles : Take
  leaves : Take

unfoldable pub take_task : Pool → Take
take_task p = elim (choose p.next_dispatch_slot p.queue) [
  | none ↦ if p.stop_requested then leaves else idles
  | some (best, slot) ↦ takes best.entry (record p {
    queue = erase_at best.position p.queue;
    next_dispatch_slot = slot;
    active_workers = suc p.active_workers;
  })
]

-- Behind the task: the counter, and the section that leaves it.
unfoldable pub count_completed : Pool → Pool
count_completed p = record p {
  counts = record p.counts { completed = add_64 p.counts.completed 1 };
}

unfoldable pub leave_task : Pool → Pool
leave_task p = record p { active_workers = p.active_workers - 1 }
