-- ===== src/Async/Fairness.antt =====
-- How long a queued task of src/asyncx.cpp waits for a worker, counted in the tasks that are taken.
pub mod Slots
pub mod Turns
use toolx_cpp.Prelude.{
  ℕ, zero, suc, ◌+◌, ◌-◌, ◌*◌, ◌%◌, ◌^◌, ◌≤◌, ◌<◌, ◌≡◌, refl, sym, ap, ◌∙◌, arith, Bool, true,
  false, ◌&&◌, List, [], ◌∷◌, ◌++◌, Option, none, some, Option-cases, Bool-cases, inl, inr, ◌⊎◌,
  ltb, ◌==◌, if◌then◌else◌, get_elem?, length,
}
use toolx_cpp.Async.Types.{TaskPriority, high, normal, low, same_priority, Task, add_64}
use toolx_cpp.Async.Queue.{
  QueuedTask, Place, erase_at, oldest, slot_count, dispatch_slot, choose_loop, choose,
}
use toolx_cpp.Async.Queue.Oldest.{
  tally, tally-append, tally-erase_at, Stands, IsPlaceOf, is_entry, is_before, AtMost,
  oldest-AtMost, oldest-IsPlaceOf,
}
use toolx_cpp.Async.Pool.{Pool}
use toolx_cpp.Async.Sections.{Take, takes, idles, leaves, take_task, push_task}
use toolx_cpp.Async.Fairness.Turns.{Waits, wait_bound, take_task-progress, tally-single}

-- What happens to the queue: a task is accepted, or a worker comes.
pub data Event : Type 0 where
  accepts : Task → TaskPriority → Event
  worker_comes : Event

abbrev pub after_take : Take → Pool → Pool
after_take (takes e pool') pool = pool'
after_take idles pool = pool
after_take leaves pool = pool

abbrev pub taken : Take → List QueuedTask
taken (takes e pool') = e ∷ []
taken idles = []
taken leaves = []

-- The tasks that workers take, in their order.
unfoldable pub served : List Event → Pool → List QueuedTask
served [] pool = []
served (accepts t p ∷ es) pool = served es (push_task t p pool)
served (worker_comes ∷ es) pool =
    taken (take_task pool) ++ served es (after_take (take_task pool) pool)

abbrev pub turns : List Event → ℕ
turns [] = 0
turns (accepts t p ∷ es) = turns es
turns (worker_comes ∷ es) = suc (turns es)

abbrev pub acceptances : List Event → ℕ
acceptances [] = 0
acceptances (accepts t p ∷ es) = suc (acceptances es)
acceptances (worker_comes ∷ es) = acceptances es

not_before : (p : TaskPriority) (s : ℕ) (e : QueuedTask) → s < e.sequence → is_before p s e ≡ false
not_before p s e h = ground arith

push_task-Waits :
    (p : TaskPriority) (s : ℕ) (pool : Pool) (t : Task) (r : TaskPriority)
    → Waits p s pool
    → pool.next_task_sequence + 1 < 2 ^ 64
    → Waits p s (push_task t r pool)
      × (wait_bound p s (push_task t r pool) ≡ wait_bound p s pool)
      × ((push_task t r pool).next_task_sequence ≡ pool.next_task_sequence + 1)
unfolding push_task add_64 wait_bound
push_task-Waits p s pool t r w h =
    let new : QueuedTask = record { task = t; priority = r; sequence = pool.next_task_sequence } in
    let more = tally-append (is_entry p s) pool.queue (new ∷ []) in
    let same = tally-append (is_before p s) pool.queue (new ∷ []) in
    let young : is_before p s new ≡ false = not_before p s new w.numbered in
    let single = tally-single (is_before p s) new in
    let none_more : tally (is_before p s) (new ∷ []) ≡ 0 = rw young at single in
    (
      record { queued = omega arith; numbered = omega arith; slot = w.slot },
      omega arith,
      omega arith,
    )

tally-taken :
    (f : QueuedTask → Bool) (e : QueuedTask) (q : List QueuedTask)
    → f e ≡ true
    → 0 < tally f (e ∷ q)
unfolding tally
tally-taken f e q h = rw h (omega arith)

-- A task that waits is taken within `wait_bound` turns and one, whatever tasks are accepted meanwhile,
-- as long as their numbers do not wrap.
pub served-waiting :
    (es : List Event) (p : TaskPriority) (s : ℕ) (pool : Pool)
    → Waits p s pool
    → pool.next_task_sequence + acceptances es < 2 ^ 64
    → wait_bound p s pool < turns es
    → 0 < tally (is_entry p s) (served es pool)
unfolding served
served-waiting [] p s pool w room h = absurd (omega arith)
served-waiting (accepts t r ∷ es) p s pool w room h =
    let (w', bound, number) = push_task-Waits p s pool t r w (omega arith) in
    served-waiting es p s (push_task t r pool) w' (omega arith) (omega arith)
served-waiting (worker_comes ∷ es) p s pool w room h =
    let (e, pool', step, number, next) = take_task-progress p s pool w in
    rw step (elim next [
      | inl hit ↦ tally-taken (is_entry p s) e (served es pool') hit
      | inr (w', shorter_wait) ↦
          let rest = served-waiting es p s pool' w' (omega arith) (omega arith) in
          let all = tally-append (is_entry p s) (e ∷ []) (served es pool') in omega arith
    ])

-- How many entries there are bounds how many pass a test.
tally-length : (f : QueuedTask → Bool) (q : List QueuedTask) → tally f q ≤ length q
unfolding tally
tally-length f [] = omega arith
tally-length f (e ∷ q) = ground (arith, tally-length f q)

same_entry :
    (t : Task) (p : TaskPriority) (s : ℕ)
    → is_entry p s (record { task = t; priority = p; sequence = s }) ≡ true
unfolding same_priority
same_entry t high s = ground arith
same_entry t normal s = ground arith
same_entry t low s = ground arith

-- A task that is accepted into a pool whose next slot is one of the seven is taken by a worker, whatever
-- its priority and whatever tasks are accepted later: seven turns of workers for each task that was
-- queued before it, and seven more, are enough, as long as the numbers of the tasks do not wrap.
pub accepted-served :
    (es : List Event) (t : Task) (p : TaskPriority) (pool : Pool)
    → pool.next_dispatch_slot < slot_count
    → pool.next_task_sequence + 1 + acceptances es < 2 ^ 64
    → 7 * length pool.queue + 7 ≤ turns es
    → 0 < tally (is_entry p pool.next_task_sequence) (served es (push_task t p pool))
unfolding push_task add_64 wait_bound
accepted-served es t p pool slot room enough =
    let s = pool.next_task_sequence in
    let new : QueuedTask = record { task = t; priority = p; sequence = s } in
    let more = tally-append (is_entry p s) pool.queue (new ∷ []) in
    let same = tally-append (is_before p s) pool.queue (new ∷ []) in
    let hit = tally-taken (is_entry p s) new [] (same_entry t p s) in
    let not_new : is_before p s new ≡ false = ground arith in
    let single = tally-single (is_before p s) new in
    let none_more : tally (is_before p s) (new ∷ []) ≡ 0 = rw not_new at single in
    let few = tally-length (is_before p s) pool.queue in
    served-waiting es p s (push_task t p pool)
      (record { queued = omega arith; numbered = omega arith; slot = slot }) (omega arith)
      (omega arith)
