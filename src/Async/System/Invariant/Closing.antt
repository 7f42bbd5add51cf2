-- ===== src/Async/System/Invariant/Closing.antt =====
-- `Stop` and `Join` of src/asyncx.cpp keep what holds of a `ThreadPool` and its threads.
use toolx_cpp.Prelude.{
  ◌≡◌, refl, ap, arith, true, false, [], ◌++◌, length, Bool-cases, inl, inr, ◌⊎◌, not, ◌&&◌,
}
use toolx_cpp.Async.Types.{StopMode, drain, cancel_pending}
use toolx_cpp.Async.Pool.{Pool, stop, begin_join, end_join, clear_queue, clear_scheduled}
use toolx_cpp.Async.System.{System, tasks, dropped_by, NoThreads}
use toolx_cpp.Async.System.Invariant.{times, times-append, threads, Inv}

-- A pool that `Stop` or `Join` closes.
abbrev closed : StopMode → Pool → Pool
closed mode p = record p {
  stop_mode = mode;
  accepting = false;
  stop_requested = true;
  scheduler_stop_requested = true;
}

stop-runs :
    (mode : StopMode) (p : Pool)
    → p.running ≡ true
    → stop mode p ≡ clear_queue mode (clear_scheduled (closed mode p))
unfolding stop
stop-runs mode p h = ground arith

stop-still : (mode : StopMode) (p : Pool) → p.running ≡ false → stop mode p ≡ p
unfolding stop
stop-still mode p h = ground arith

begin_join-cases :
    (p : Pool) → (begin_join p ≡ p) ⊎ (begin_join p ≡ clear_scheduled (closed p.stop_mode p))
unfolding begin_join
begin_join-cases p = elim (Bool-cases (p.running && not p.stop_requested)) [
  | inl closes ↦ inr (ground arith)
  | inr same ↦ inl (ground arith)
]

dropped_by-still : (mode : StopMode) (p : Pool) → p.running ≡ false → dropped_by mode p ≡ []
dropped_by-still drain p h = refl
dropped_by-still cancel_pending p h = ground arith

dropped_by-runs : (p : Pool) → p.running ≡ true → dropped_by cancel_pending p ≡ tasks p.queue
dropped_by-runs p h = ground arith

module _ (s : System) (i : Inv s) where
  closed-Inv : (mode : StopMode) → Inv (record s { pool = clear_scheduled (closed mode s.pool) })
  unfolding clear_scheduled
  closed-Inv mode = record {
    room = i.room;
    some_worker = i.some_worker;
    active = i.active;
    workers = i.workers;
    balance = i.balance;
    open_pool = λ o. absurd (cc o);
    drained = i.drained;
    still = i.still;
  }

  cleared-Inv : Inv (record s {
    pool = clear_queue cancel_pending (clear_scheduled (closed cancel_pending s.pool));
    dropped = tasks s.pool.queue ++ s.dropped;
  })
  unfolding clear_queue clear_scheduled times
  cleared-Inv = record {
    room = omega arith;
    some_worker = i.some_worker;
    active = i.active;
    workers = i.workers;
    balance = λ t.
        (let kept = i.balance t in
          let all = times-append t (tasks s.pool.queue) s.dropped in omega arith);
    open_pool = λ o. absurd (cc o);
    drained = λ few. refl;
    still = i.still;
  }

  pub stop-Inv :
      (mode : StopMode)
      → Inv (record s { pool = stop mode s.pool; dropped = dropped_by mode s.pool ++ s.dropped })
  unfolding clear_queue
  stop-Inv mode = elim (Bool-cases s.pool.running) [
    | inr stopped ↦ rw (stop-still mode s.pool stopped, dropped_by-still mode s.pool stopped) i
    | inl runs ↦ rw (stop-runs mode s.pool runs) (running mode runs)
  ]
    where
      running :
          (m : StopMode)
          → s.pool.running ≡ true
          → Inv (record s {
            pool = clear_queue m (clear_scheduled (closed m s.pool));
            dropped = dropped_by m s.pool ++ s.dropped;
          })
      running drain runs = closed-Inv drain
      running cancel_pending runs = rw (dropped_by-runs s.pool runs) cleared-Inv

  pub begin_join-Inv : Inv (record s { pool = begin_join s.pool })
  begin_join-Inv = elim (begin_join-cases s.pool) [
    | inl same ↦ rw same i
    | inr closes ↦ rw closes (closed-Inv s.pool.stop_mode)
  ]

  pub end_join-Inv : NoThreads s → Inv (record s { pool = end_join s.pool })
  unfolding end_join
  end_join-Inv (free, executing, counted, scheduling) =
      let idle : length s.executing ≡ 0 = ap length executing in
      let nobody : threads s ≡ 0 = omega arith in
      record {
        room = i.room;
        some_worker = i.some_worker;
        active = i.active;
        workers = i.workers;
        balance = i.balance;
        open_pool = λ o. absurd (cc o);
        drained = i.drained;
        still = λ o. nobody;
      }
