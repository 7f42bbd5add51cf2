-- ===== src/Async/Fairness/Turns.antt =====
-- What a turn of `WorkerLoop` of src/asyncx.cpp leaves of the way of a queued task.
use toolx_cpp.Prelude.{
  ℕ, suc, ◌+◌, ◌*◌, ◌%◌, ◌≤◌, ◌<◌, ◌≡◌, refl, sym, ◌∙◌, arith, Bool, true, false, List, [], ◌∷◌,
  some, Option-cases, Bool-cases, inl, inr, ◌⊎◌, ◌==◌, if◌then◌else◌,
}
use toolx_cpp.Async.Types.{TaskPriority, high, normal, low, same_priority}
use toolx_cpp.Async.Queue.{QueuedTask, Place, erase_at, oldest, slot_count, dispatch_slot, choose}
use toolx_cpp.Async.Queue.Oldest.{
  tally, tally-erase_at, Stands, IsPlaceOf, is_entry, is_before, oldest-AtMost, oldest-IsPlaceOf,
}
use toolx_cpp.Async.Pool.{Pool}
use toolx_cpp.Async.Sections.{takes, take_task}
use toolx_cpp.Async.Fairness.Slots.{distance, last_slot-priority, choose-Chosen}

-- The number of tasks that are taken before an entry is, at most.
unfoldable pub wait_bound : TaskPriority → ℕ → Pool → ℕ
wait_bound p s pool =
    slot_count * tally (is_before p s) pool.queue + distance pool.next_dispatch_slot p

-- An entry waits in the queue, and those that come behind it get larger numbers.
pub record Waits (p : TaskPriority) (s : ℕ) (pool : Pool) : Type 0 where
  pub queued : 0 < tally (is_entry p s) pool.queue
  pub numbered : s < pool.next_task_sequence
  pub slot : pool.next_dispatch_slot < slot_count

same_priority-eq : (a b : TaskPriority) → same_priority a b ≡ true → a ≡ b
unfolding same_priority
same_priority-eq high high h = refl
same_priority-eq normal normal h = refl
same_priority-eq low low h = refl
same_priority-eq high normal h = absurd (cc h)
same_priority-eq high low h = absurd (cc h)
same_priority-eq normal high h = absurd (cc h)
same_priority-eq normal low h = absurd (cc h)
same_priority-eq low high h = absurd (cc h)
same_priority-eq low normal h = absurd (cc h)

same_priority_refl : (a : TaskPriority) → same_priority a a ≡ true
unfolding same_priority
same_priority_refl high = refl
same_priority_refl normal = refl
same_priority_refl low = refl

-- Each turn goes past a slot, so that the way to the last one of the priority gets shorter.
distance-lt :
    (next off : ℕ) (p : TaskPriority)
    → next < slot_count
    → off < distance next p
    → distance (((next + off) % slot_count + 1) % slot_count) p < distance next p
distance-lt next off high h k = omega arith
distance-lt next off normal h k = omega arith
distance-lt next off low h k = omega arith

-- A turn of another priority comes before the last slot.
other_turn :
    (next off : ℕ) (p : TaskPriority) (q : List QueuedTask) (best : Place)
    → next < slot_count
    → off ≤ distance next p
    → oldest (dispatch_slot ((next + off) % slot_count)) q ≡ some best
    → same_priority best.entry.priority p ≡ false
    → off < distance next p
other_turn next off p q best h le g other = elim (Bool-cases (off == distance next p)) [
  | inr differ ↦ ground arith
  | inl same ↦
      let e : off ≡ distance next p = ground arith in
      let g' : oldest p q ≡ some best = rw (← last_slot-priority next p h) (rw (← e) g) in
      let place : IsPlaceOf p q (some best) = rw g' at (oldest-IsPlaceOf p q) in
      absurd (cc (place.1, other))
]

-- A turn of the priority takes an entry that is no younger.
own_turn :
    (p other : TaskPriority) (s : ℕ) (q : List QueuedTask) (best : Place)
    → 0 < tally (is_entry p s) q
    → oldest other q ≡ some best
    → same_priority best.entry.priority p ≡ true
    → best.entry.sequence ≤ s
own_turn p other s q best queued g own =
    let place : IsPlaceOf other q (some best) = rw g at (oldest-IsPlaceOf other q) in
    let here : best.entry.priority ≡ p = same_priority-eq best.entry.priority p own in
    let there : best.entry.priority ≡ other = same_priority-eq best.entry.priority other place.1 in
    let g' : oldest p q ≡ some best = rw (← (sym there ∙ here)) g in
    rw g' at (oldest-AtMost p s q queued)

pub tally-single :
    (f : QueuedTask → Bool) (e : QueuedTask) → tally f (e ∷ []) ≡ (if f e then 1 else 0)
unfolding tally
tally-single f e = refl

shorter :
    (p : TaskPriority) (s next off : ℕ) (q : List QueuedTask) (best : Place)
    → next < slot_count
    → 0 < tally (is_entry p s) q
    → off ≤ distance next p
    → oldest (dispatch_slot ((next + off) % slot_count)) q ≡ some best
    → is_entry p s best.entry ≡ false
    → slot_count * tally (is_before p s) (erase_at best.position q)
        + distance (((next + off) % slot_count + 1) % slot_count) p
      < slot_count * tally (is_before p s) q + distance next p
shorter p s next off q best h queued le g miss =
    let place : IsPlaceOf (dispatch_slot ((next + off) % slot_count)) q (some best) =
      rw g at (oldest-IsPlaceOf (dispatch_slot ((next + off) % slot_count)) q) in
    let erased = tally-erase_at (is_before p s) q best.position best.entry place.0 in
    let single = tally-single (is_before p s) best.entry in
    elim (Bool-cases (same_priority best.entry.priority p)) [
      | inl own ↦
          let older = own_turn p _ s q best queued g own in
          let before : is_before p s best.entry ≡ true = ground arith in
          let one : tally (is_before p s) (best.entry ∷ []) ≡ 1 = rw before at single in omega arith
      | inr other ↦
          let near = distance-lt next off p h (other_turn next off p q best h le g other) in
          let before : is_before p s best.entry ≡ false = rw other refl in
          let none_less : tally (is_before p s) (best.entry ∷ []) ≡ 0 = rw before at single in
          omega arith
    ]

-- The pool behind a turn.
abbrev pub after_turn : Place → ℕ → Pool → Pool
after_turn best slot pool = record pool {
  queue = erase_at best.position pool.queue;
  next_dispatch_slot = slot;
  active_workers = suc pool.active_workers;
}

pub take_task-found :
    (pool : Pool) (best : Place) (slot : ℕ)
    → choose pool.next_dispatch_slot pool.queue ≡ some (best, slot)
    → take_task pool ≡ takes best.entry (after_turn best slot pool)
unfolding take_task
take_task-found pool best slot e = rw (e, take_task)

-- The turn that comes for a waiting entry.
turn :
    (p : TaskPriority) (s : ℕ) (pool : Pool)
    → Waits p s pool
    → (b : Place) × (oldest
          (dispatch_slot
            ((pool.next_dispatch_slot + distance pool.next_dispatch_slot p) % slot_count))
          pool.queue
        ≡ some b)
turn p s pool w = elim (Option-cases (oldest p pool.queue)) [
  | inl e ↦ absurd (rw e at (oldest-AtMost p s pool.queue w.queued))
  | inr (b, e) ↦ (b, rw (last_slot-priority pool.next_dispatch_slot p w.slot) e)
]

still_queued :
    (p : TaskPriority) (s : ℕ) (q : List QueuedTask) (best : Place)
    → 0 < tally (is_entry p s) q
    → Stands q best
    → is_entry p s best.entry ≡ false
    → 0 < tally (is_entry p s) (erase_at best.position q)
still_queued p s q best h stands miss =
    let erased = tally-erase_at (is_entry p s) q best.position best.entry stands in
    let single = tally-single (is_entry p s) best.entry in
    let none_less : tally (is_entry p s) (best.entry ∷ []) ≡ 0 = rw miss at single in omega arith

-- A worker that comes takes a task: the one in question, or one after which the wait is shorter.
pub take_task-progress :
    (p : TaskPriority) (s : ℕ) (pool : Pool)
    → Waits p s pool
    → (e : QueuedTask) × (pool' : Pool) × (take_task pool ≡ takes e pool')
      × (pool'.next_task_sequence ≡ pool.next_task_sequence)
      × ((is_entry p s e ≡ true) ⊎ (Waits p s pool' × (wait_bound p s pool' < wait_bound p s pool)))
unfolding wait_bound
take_task-progress p s pool w =
    let next = pool.next_dispatch_slot in
    let (b, e) = turn p s pool w in
    let (best, off, r, le, g) = choose-Chosen next (distance next p) pool.queue b (omega arith) e in
    let slot = ((next + off) % slot_count + 1) % slot_count in
    (
      best.entry,
      after_turn best slot pool,
      take_task-found pool best slot r,
      refl,
      elim (Bool-cases (is_entry p s best.entry)) [
        | inl hit ↦ inl hit
        | inr miss ↦ inr (
          record {
            queued =
                still_queued p s pool.queue best w.queued
                  (rw g at
                    (oldest-IsPlaceOf (dispatch_slot ((next + off) % slot_count)) pool.queue)).0
                  miss;
            numbered = w.numbered;
            slot = omega arith;
          },
          shorter p s next off pool.queue best w.slot w.queued le g miss,
        )
      ],
    )
