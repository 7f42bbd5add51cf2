-- ===== src/Async/System/Reached.antt =====
-- What holds in every state that the threads around a `ThreadPool` of src/asyncx.cpp reach.
use toolx_cpp.Prelude.{ℕ, ◌≡◌, refl, ◌∙◌, arith, false, none, some}
use toolx_cpp.Async.Types.{BackpressurePolicy, StopMode, drain, cancel_pending, normal}
use toolx_cpp.Async.Pool.{
  Pool, new_pool, resolve_worker_count, set_backpressure_policy, reset_stats,
}
use toolx_cpp.Async.Pool.{begin_join, end_join, stop, clear_queue, clear_scheduled}
use toolx_cpp.Async.Sections.{count_completed, leave_task, push_task}
use toolx_cpp.Async.Timers.{count_fired}
use toolx_cpp.Async.System.{
  System, initial, Step, starts, posts, refuses, stops, begins_join, ends_join, sets_policy, resets,
  schedules, cancels, waits_for_idle, worker_takes, worker_ends, task_ends, worker_returns,
  scheduler_takes, scheduler_posts, scheduler_stops, scheduler_ends, Reach, here, next,
}
use toolx_cpp.Async.System.Invariant.{times, Inv, Alike, Inv-Alike, Alike-refl}
use toolx_cpp.Async.System.Invariant.Pools.{
  Enqueues-ok, Enqueues-error, schedule-Alike, cancel_scheduled-Alike, take_due-Alike,
  wait_for_idle-Alike,
}
use toolx_cpp.Async.System.Invariant.Callers.{begin_start-some, starts-Inv, posts-Inv}
use toolx_cpp.Async.System.Invariant.Closing.{stop-Inv, begin_join-Inv, end_join-Inv}
use toolx_cpp.Async.System.Workers.{
  take_task-takes, worker_takes-Inv, worker_ends-Inv, task_ends-Inv, worker_returns-Inv,
}

initial-Inv :
    (requested detected capacity : ℕ) (policy : BackpressurePolicy)
    → Inv (initial (new_pool requested detected capacity policy))
unfolding new_pool resolve_worker_count times
initial-Inv requested detected capacity policy = record {
  room = omega arith;
  some_worker = ground arith;
  active = refl;
  workers = omega arith;
  balance = λ t. refl;
  open_pool = λ o. absurd (cc o);
  drained = λ few. refl;
  still = λ o. refl;
}

Step-Inv : (s t : System) → Inv s → Step s t → Inv t
unfolding set_backpressure_policy reset_stats count_fired
Step-Inv s _ i (starts {p} h) = starts-Inv s p i h
Step-Inv s _ i (posts t r {p} e h) = posts-Inv s t r p s.carried i (Enqueues-ok e h)
Step-Inv s _ i (refuses t r k b {p} e h) =
    Inv-Alike s p s.carried s.scheduling i (Enqueues-error e h)
Step-Inv s _ i (stops mode) = stop-Inv s i mode
Step-Inv s _ i begins_join = begin_join-Inv s i
Step-Inv s _ i (ends_join gone) = end_join-Inv s i gone
Step-Inv s _ i (sets_policy b) =
    let p = s.pool in
    Inv-Alike s _ s.carried s.scheduling i (p.scheduled, p.next_scheduled_id, b, p.counts, refl)
Step-Inv s _ i resets =
    let p = s.pool in
    Inv-Alike s _ s.carried s.scheduling i (p.scheduled, p.next_scheduled_id, p.policy, _, refl)
Step-Inv s _ i (schedules t due interval periodic) =
    Inv-Alike s _ s.carried s.scheduling i (schedule-Alike t due interval periodic s.pool)
Step-Inv s _ i (cancels id {p} h) =
    Inv-Alike s p s.carried s.scheduling i (cancel_scheduled-Alike id s.pool p h)
Step-Inv s _ i (waits_for_idle d x r {p} h) =
    Inv-Alike s p s.carried s.scheduling i (wait_for_idle-Alike d x r s.pool p h)
Step-Inv s _ i (worker_takes {e} {p} waits h) = worker_takes-Inv s i e p waits h
Step-Inv s _ i (worker_ends waits h) = worker_ends-Inv s i waits h
Step-Inv s _ i (task_ends before t behind h) = task_ends-Inv s i before t behind h
Step-Inv s _ i (worker_returns some_one) = worker_returns-Inv s i some_one
Step-Inv s _ i (scheduler_takes now t {p} runs nothing h) =
    Inv-Alike s p (some t) s.scheduling i (take_due-Alike now t s.pool p h)
Step-Inv s _ i (scheduler_posts t {p} carries e h) =
    Inv-Alike _ _ none s.scheduling (posts-Inv s t normal p none i (Enqueues-ok e h))
      (p.scheduled, p.next_scheduled_id, p.policy, _, refl)
Step-Inv s _ i (scheduler_stops t k b {p} carries e h) =
    Inv-Alike s p none false i (Enqueues-error e h)
Step-Inv s _ i (scheduler_ends now nothing h) =
    Inv-Alike s s.pool s.carried false i (Alike-refl s.pool)

module _ (requested detected capacity : ℕ) (policy : BackpressurePolicy) where
  pub Reach-Inv : (s : System) → Reach requested detected capacity policy s → Inv s
  Reach-Inv _ here = initial-Inv requested detected capacity policy
  Reach-Inv s (next r h) = Step-Inv _ s (Reach-Inv _ r) h

-- A step leaves the options of the pool.
abbrev Fixed : Pool → Pool → Type 0
Fixed p p' = (p'.capacity ≡ p.capacity) × (p'.worker_count ≡ p.worker_count)

Alike-Fixed : (p p' : Pool) → Alike p p' → Fixed p p'
Alike-Fixed p p' (ss, id, b, c, e) = rw e (refl, refl)

stop-Fixed : (mode : StopMode) (p : Pool) → Fixed p (stop mode p)
unfolding stop clear_queue clear_scheduled
stop-Fixed drain p = (ground arith, ground arith)
stop-Fixed cancel_pending p = (ground arith, ground arith)

Step-Fixed : (s t : System) → Step s t → Fixed s.pool t.pool
unfolding set_backpressure_policy reset_stats count_fired begin_join clear_scheduled end_join
    count_completed leave_task push_task
Step-Fixed s _ (starts {p} h) = let (stopped, e) = begin_start-some s.pool p h in rw e (refl, refl)
Step-Fixed s _ (posts t r {p} e h) =
    let (runs, goes, room, same) = Enqueues-ok e h in rw same (refl, refl)
Step-Fixed s _ (refuses t r k b {p} e h) = Alike-Fixed s.pool p (Enqueues-error e h)
Step-Fixed s _ (stops mode) = stop-Fixed mode s.pool
Step-Fixed s _ begins_join = (ground arith, ground arith)
Step-Fixed s _ (ends_join gone) = (refl, refl)
Step-Fixed s _ (sets_policy b) = (refl, refl)
Step-Fixed s _ resets = (refl, refl)
Step-Fixed s _ (schedules t due interval periodic) =
    Alike-Fixed s.pool _ (schedule-Alike t due interval periodic s.pool)
Step-Fixed s _ (cancels id {p} h) = Alike-Fixed s.pool p (cancel_scheduled-Alike id s.pool p h)
Step-Fixed s _ (waits_for_idle d x r {p} h) =
    Alike-Fixed s.pool p (wait_for_idle-Alike d x r s.pool p h)
Step-Fixed s _ (worker_takes {e} {p} waits h) =
    let (best, slot, found, same, after) = take_task-takes s.pool p e h in rw after (refl, refl)
Step-Fixed s _ (worker_ends waits h) = (refl, refl)
Step-Fixed s _ (task_ends before t behind h) = (refl, refl)
Step-Fixed s _ (worker_returns some_one) = (refl, refl)
Step-Fixed s _ (scheduler_takes now t {p} runs nothing h) =
    Alike-Fixed s.pool p (take_due-Alike now t s.pool p h)
Step-Fixed s _ (scheduler_posts t {p} carries e h) =
    let (runs, goes, room, same) = Enqueues-ok e h in rw same (refl, refl)
Step-Fixed s _ (scheduler_stops t k b {p} carries e h) = Alike-Fixed s.pool p (Enqueues-error e h)
Step-Fixed s _ (scheduler_ends now nothing h) = (refl, refl)

module _ (requested detected capacity : ℕ) (policy : BackpressurePolicy) where
  pub Reach-Fixed :
      (s : System)
      → Reach requested detected capacity policy s
      → Fixed (new_pool requested detected capacity policy) s.pool
  Reach-Fixed _ here = (refl, refl)
  Reach-Fixed t (next {s} r h) =
      let (room, workers) = Reach-Fixed s r in
      let (room', workers') = Step-Fixed s t h in (room' ∙ room, workers' ∙ workers)
