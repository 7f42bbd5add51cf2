-- ===== src/Async/System/Invariant/Pools.antt =====
-- The sections of src/asyncx.cpp that change the timers, the policy and the counters of a pool only,
-- and what `EnqueueTask` accepts.
use toolx_cpp.Prelude.{ℕ, ◌<◌, ◌≡◌, arith, Bool, true, length}
use toolx_cpp.Async.Types.{ErrorKind, TaskPriority, Status, ok, error, Task}
use toolx_cpp.Async.Pool.{Pool}
use toolx_cpp.Async.Sections.{
  wait_for_idle, Enqueue, returned, enqueue_task, timed_wake, plain_wait, push_task, finish_enqueue,
  has_room, timed_wait,
}
use toolx_cpp.Async.Timers.{schedule, add_scheduled, cancel_scheduled, cancelled, take_due, fires}
use toolx_cpp.Async.System.{Enqueues, first, woken, plain}
use toolx_cpp.Async.System.Invariant.{Alike}

-- What `EnqueueTask` needs to accept a task, and what it does then.
abbrev pub Accepts : Task → TaskPriority → Pool → Pool → Type 0
Accepts t r p p' =
    (p.running ≡ true)
    × (p.accepting ≡ true)
    × (length p.queue < p.capacity)
    × (p' ≡ push_task t r p)

finish_enqueue-ok :
    (t : Task) (r : TaskPriority) (p p' : Pool)
    → has_room p ≡ true
    → finish_enqueue t r p ≡ returned ok p'
    → Accepts t r p p'
unfolding finish_enqueue
finish_enqueue-ok t r p p' room h = (ground arith, ground arith, ground arith, ground arith)

timed_wait-ok :
    (t : Task) (r : TaskPriority) (p p' : Pool)
    → timed_wait t r p ≡ returned ok p'
    → Accepts t r p p'
unfolding timed_wait finish_enqueue
timed_wait-ok t r p p' h = (ground arith, ground arith, ground arith, ground arith)

plain_wait-ok :
    (t : Task) (r : TaskPriority) (p p' : Pool)
    → plain_wait t r p ≡ returned ok p'
    → Accepts t r p p'
unfolding plain_wait finish_enqueue
plain_wait-ok t r p p' h = (ground arith, ground arith, ground arith, ground arith)

timed_wake-ok :
    (x : Bool) (t : Task) (r : TaskPriority) (p p' : Pool)
    → timed_wake x t r p ≡ returned ok p'
    → Accepts t r p p'
unfolding timed_wake timed_wait finish_enqueue
timed_wake-ok x t r p p' h = (ground arith, ground arith, ground arith, ground arith)

enqueue_task-ok :
    (d w : Bool) (t : Task) (r : TaskPriority) (p p' : Pool)
    → enqueue_task d w t r p ≡ returned ok p'
    → Accepts t r p p'
unfolding enqueue_task timed_wait plain_wait finish_enqueue
enqueue_task-ok d w t r p p' h = (ground arith, ground arith, ground arith, ground arith)

pub Enqueues-ok :
    {t : Task} {r : TaskPriority} {p p' : Pool} {e : Enqueue}
    → Enqueues t r p e
    → e ≡ returned ok p'
    → Accepts t r p p'
Enqueues-ok {t} {r} {p} {p'} (first d w) h = enqueue_task-ok d w t r p p' h
Enqueues-ok {t} {r} {p} {p'} (woken x) h = timed_wake-ok x t r p p' h
Enqueues-ok {t} {r} {p} {p'} plain h = plain_wait-ok t r p p' h

pub Enqueues-error :
    {t : Task} {r : TaskPriority} {p p' : Pool} {k : ErrorKind} {b : Bool} {e : Enqueue}
    → Enqueues t r p e
    → e ≡ returned (error k b) p'
    → Alike p p'
unfolding enqueue_task timed_wake timed_wait plain_wait finish_enqueue
Enqueues-error {t} {r} {p} {p'} {k} {b} (first d w) h =
    (p.scheduled, p.next_scheduled_id, p.policy, p'.counts, ground arith)
Enqueues-error {t} {r} {p} {p'} {k} {b} (woken x) h =
    (p.scheduled, p.next_scheduled_id, p.policy, p'.counts, ground arith)
Enqueues-error {t} {r} {p} {p'} {k} {b} plain h =
    (p.scheduled, p.next_scheduled_id, p.policy, p'.counts, ground arith)

pub schedule-Alike :
    (t : Task) (due interval : ℕ) (periodic : Bool) (p : Pool)
    → Alike p (schedule t due interval periodic p).0
unfolding schedule add_scheduled
schedule-Alike t due interval periodic p =
    let p' = (schedule t due interval periodic p).0 in
    (p'.scheduled, p'.next_scheduled_id, p'.policy, p'.counts, ground arith)

pub cancel_scheduled-Alike :
    (id : ℕ) (p p' : Pool) → cancel_scheduled id p ≡ cancelled p' → Alike p p'
unfolding cancel_scheduled
cancel_scheduled-Alike id p p' h =
    (p'.scheduled, p.next_scheduled_id, p.policy, p'.counts, ground arith)

pub take_due-Alike : (now : ℕ) (t : Task) (p p' : Pool) → take_due now p ≡ fires t p' → Alike p p'
unfolding take_due
take_due-Alike now t p p' h = (p'.scheduled, p.next_scheduled_id, p.policy, p'.counts, ground arith)

pub wait_for_idle-Alike :
    (has_deadline expired : Bool) (r : Status) (p p' : Pool)
    → wait_for_idle has_deadline expired p ≡ returned r p'
    → Alike p p'
unfolding wait_for_idle
wait_for_idle-Alike d x r p p' h =
    (p.scheduled, p.next_scheduled_id, p.policy, p'.counts, ground arith)
