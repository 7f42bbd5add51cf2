-- ===== src/Async/Timers/NextDue.antt =====
-- Which scheduled task `SchedulerLoop` of src/asyncx.cpp fires, and when.
use toolx_cpp.Prelude.{
  ℕ, zero, suc, ◌+◌, ◌≤◌, ◌≡◌, refl, sym, arith, true, false, List, [], ◌∷◌, some, Option-cases,
  Bool-cases, inl, inr, ltb, get_elem?,
}
use mathlib.Core.Path.{subst}
use toolx_cpp.Async.Types.{Task}
use toolx_cpp.Async.Pool.{ScheduledTask, Pool}
use toolx_cpp.Async.Timers.{Due, next_due_loop, find_next_due, fires, take_due}

abbrev pub ScheduledAt : List ScheduledTask → Due → Type 0
ScheduledAt ss b = get_elem? ss b.position ≡ some b.entry

abbrev pub IsLeast : ℕ → List ScheduledTask → Type 0
IsLeast due ss = (j : ℕ) (e : ScheduledTask) → get_elem? ss j ≡ some e → due ≤ e.due

cons-IsLeast :
    (due : ℕ) (s : ScheduledTask) (ss : List ScheduledTask)
    → due ≤ s.due
    → IsLeast due ss
    → IsLeast due (s ∷ ss)
cons-IsLeast due s ss h k zero e f = ground arith
cons-IsLeast due s ss h k (suc j) e f = k j e f

next_due_loop-earlier :
    (i : ℕ) (best : Due) (s : ScheduledTask) (ss : List ScheduledTask)
    → ltb s.due best.entry.due ≡ true
    → next_due_loop i best (s ∷ ss) ≡ next_due_loop (suc i) (record { position = i; entry = s }) ss
unfolding next_due_loop
next_due_loop-earlier i best s ss h = rw (h, next_due_loop)

next_due_loop-later :
    (i : ℕ) (best : Due) (s : ScheduledTask) (ss : List ScheduledTask)
    → ltb s.due best.entry.due ≡ false
    → next_due_loop i best (s ∷ ss) ≡ next_due_loop (suc i) best ss
unfolding next_due_loop
next_due_loop-later i best s ss h = rw (h, next_due_loop)

-- What the loop comes to.
abbrev LeastOf : List ScheduledTask → Due → List ScheduledTask → Due → Type 0
LeastOf all best ss b = ScheduledAt all b × (b.entry.due ≤ best.entry.due) × IsLeast b.entry.due ss

next_due_loop-IsLeast :
    (all : List ScheduledTask) (i : ℕ) (best : Due) (ss : List ScheduledTask)
    → ((j : ℕ) (e : ScheduledTask) → get_elem? ss j ≡ some e → get_elem? all (i + j) ≡ some e)
    → ScheduledAt all best
    → LeastOf all best ss (next_due_loop i best ss)
unfolding next_due_loop
next_due_loop-IsLeast all i best [] sub h = (h, omega arith, λ j e k. absurd (cc k))
next_due_loop-IsLeast all i best (s ∷ ss) sub h =
    let tail : (j : ℕ) (e : ScheduledTask)
        → get_elem? ss j ≡ some e
        → get_elem? all (suc i + j) ≡ some e =
      λ j e k. (let same : suc i + j ≡ i + suc j = omega arith in rw same (sub (suc j) e k)) in
    let here : get_elem? all i ≡ some s =
      let same : i + 0 ≡ i = omega arith in rw same at (sub 0 s refl) in
    elim (Bool-cases (ltb s.due best.entry.due)) [
      | inl earlier ↦
          let (stands, le, least) =
            next_due_loop-IsLeast all (suc i) (record { position = i; entry = s }) ss tail here in
          subst (LeastOf all best (s ∷ ss)) (sym (next_due_loop-earlier i best s ss earlier))
            (stands, ground arith, cons-IsLeast _ s ss le least)
      | inr later ↦
          let (stands, le, least) = next_due_loop-IsLeast all (suc i) best ss tail h in
          subst (LeastOf all best (s ∷ ss)) (sym (next_due_loop-later i best s ss later))
            (stands, le, cons-IsLeast _ s ss (ground arith) least)
    ]

find_next_due-IsLeast :
    (ss : List ScheduledTask) (b : Due)
    → find_next_due ss ≡ some b
    → ScheduledAt ss b × IsLeast b.entry.due ss
unfolding find_next_due
find_next_due-IsLeast [] b h = absurd (cc h)
find_next_due-IsLeast (s ∷ ss) b h =
    let (stands, le, least) =
      next_due_loop-IsLeast (s ∷ ss) 0 (record { position = 0; entry = s }) (s ∷ ss)
        (λ j e k. let same : 0 + j ≡ j = omega arith in rw same k) refl in
    let same : next_due_loop 0 (record { position = 0; entry = s }) (s ∷ ss) ≡ b = ground arith in
    (rw same at stands, rw same at least)

-- The scheduler fires a task only at or after its time, and only one whose time is the earliest of all
-- that are scheduled, while the pool runs and nobody has asked it to stop.
pub take_due-fires :
    (now : ℕ) (t : Task) (p p' : Pool)
    → take_due now p ≡ fires t p'
    → (b : Due) × ScheduledAt p.scheduled b
      × (b.entry.task ≡ t)
      × (b.entry.due ≤ now)
      × IsLeast b.entry.due p.scheduled
      × (p.running ≡ true)
      × (p.scheduler_stop_requested ≡ false)
unfolding take_due
take_due-fires now t p p' h = elim (Option-cases (find_next_due p.scheduled)) [
  | inl missing ↦ absurd (ground arith)
  | inr (b, found) ↦
      let (stands, least) = find_next_due-IsLeast p.scheduled b found in
      (b, stands, ground arith, ground arith, least, ground arith, ground arith)
]
