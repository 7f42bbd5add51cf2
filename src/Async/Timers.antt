-- ===== src/Async/Timers.antt =====
-- The scheduled tasks of `ThreadPool`. A time is a number of ticks of the steady clock.
pub mod NextDue
use toolx_cpp.Prelude.{
  ℕ, zero, suc, ◌+◌, Bool, true, false, not, ◌&&◌, ◌||◌, List, [], ◌∷◌, ◌++◌, Option, none, some,
  ltb, ◌==◌, if◌then◌else◌, length,
}
use toolx_cpp.Async.Types.{
  ErrorKind, invalid_argument, queue_closed, not_running, not_found, Task, add_64,
}
use toolx_cpp.Async.Pool.{ScheduledTask, Pool, Counters, count_rejected}

-- A result of a call that schedules: the new identifier, or an error.
pub data Scheduled : Type 0 where
  scheduled_as : (id : ℕ) → Scheduled
  refused : ErrorKind → (retryable : Bool) → Scheduled

unfoldable pub add_scheduled : Task → (due interval : ℕ) → Bool → Pool → Pool
add_scheduled t due interval periodic p = record p {
  scheduled =
      p.scheduled
      ++ record {
        id = p.next_scheduled_id;
        task = t;
        due = due;
        interval = interval;
        periodic = periodic;
      }
        ∷ [];
  next_scheduled_id = add_64 p.next_scheduled_id 1;
  counts = record p.counts { created = add_64 p.counts.created 1 };
}

-- The section of `PostDelayedUntil` and of `ScheduleEvery`.
unfoldable pub schedule : Task → (due interval : ℕ) → Bool → Pool → Pool × Scheduled
schedule t due interval periodic p =
    if not p.running
    then (count_rejected 1 p, refused not_running true)
    else if not p.accepting
    then (count_rejected 1 p, refused queue_closed true)
    else (add_scheduled t due interval periodic p, scheduled_as p.next_scheduled_id)

unfoldable pub post_delayed_until : Task → (due : ℕ) → Pool → Pool × Scheduled
post_delayed_until t due p = schedule t due 0 false p

unfoldable pub schedule_every :
    Task → (interval now : ℕ) → (run_immediately : Bool) → Pool → Pool × Scheduled
schedule_every t interval now run_immediately p =
    if interval == 0
    then (p, refused invalid_argument false)
    else schedule t (if run_immediately then now else now + interval) interval true p

-- `FindScheduledByIdLocked` with the erasure.
unfoldable pub erase_scheduled : ℕ → List ScheduledTask → Option (List ScheduledTask)
erase_scheduled id [] = none
erase_scheduled id (s ∷ ss) =
    if s.id == id
    then some ss
    else (elim (erase_scheduled id ss) [ none ↦ none | some rest ↦ some (s ∷ rest) ])

-- What `CancelScheduled` returns.
pub data Cancel : Type 0 where
  cancelled : Pool → Cancel
  bad_id : Cancel
  unknown_id : Cancel

unfoldable pub cancel_scheduled : ℕ → Pool → Cancel
cancel_scheduled id p = if id == 0 then bad_id else elim (erase_scheduled id p.scheduled) [
  | none ↦ unknown_id
  | some rest ↦ cancelled (record p {
    scheduled = rest;
    counts = record p.counts {
      rejected = add_64 p.counts.rejected 1;
      dropped = add_64 p.counts.dropped 1;
    };
  })
]

-- `FindNextDueLocked`, the loop from position `i` on with the best so far.
pub record Due : Type 0 where
  pub position : ℕ
  pub entry : ScheduledTask

unfoldable pub next_due_loop : ℕ → Due → List ScheduledTask → Due
next_due_loop i best [] = best
next_due_loop i best (s ∷ ss) =
    next_due_loop (suc i)
      (if ltb s.due best.entry.due then record { position = i; entry = s } else best) ss

unfoldable pub find_next_due : List ScheduledTask → Option Due
find_next_due [] = none
find_next_due (s ∷ ss) = some (next_due_loop 0 (record { position = 0; entry = s }) (s ∷ ss))

unfoldable pub replace_at : ℕ → ScheduledTask → List ScheduledTask → List ScheduledTask
replace_at i t [] = []
replace_at zero t (s ∷ ss) = t ∷ ss
replace_at (suc i) t (s ∷ ss) = s ∷ replace_at i t ss

unfoldable pub remove_at : ℕ → List ScheduledTask → List ScheduledTask
remove_at i [] = []
remove_at zero (s ∷ ss) = ss
remove_at (suc i) (s ∷ ss) = s ∷ remove_at i ss

-- `SchedulerLoop` from the wait on: it takes a due task, waits for a change or for a time, or ends.
pub data Tick : Type 0 where
  fires : Task → Pool → Tick
  sleeps : Tick
  sleeps_until : (due : ℕ) → Tick
  ends : Tick

abbrev pub fire : Due → ℕ → Pool → Tick
fire best now p = fires best.entry.task (
    if best.entry.periodic
    then record p {
      scheduled =
          replace_at best.position (record best.entry { due = now + best.entry.interval })
            p.scheduled;
      counts = record p.counts { rescheduled = add_64 p.counts.rescheduled 1 };
    }
    else record p { scheduled = remove_at best.position p.scheduled })

unfoldable pub take_due : ℕ → Pool → Tick
take_due now p =
    if p.scheduler_stop_requested || not p.running then ends else elim (find_next_due p.scheduled) [
      | none ↦ sleeps
      | some best ↦ if ltb now best.entry.due then sleeps_until best.entry.due else fire best now p
    ]

-- Behind a dispatch that was accepted.
unfoldable pub count_fired : Pool → Pool
count_fired p = record p { counts = record p.counts { fired = add_64 p.counts.fired 1 } }
