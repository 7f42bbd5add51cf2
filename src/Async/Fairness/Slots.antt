-- ===== src/Async/Fairness/Slots.antt =====
-- Which slot the loop of `WorkerLoop` of src/asyncx.cpp stops at.
use toolx_cpp.Prelude.{
  ℕ, zero, suc, ◌+◌, ◌-◌, ◌%◌, ◌≤◌, ◌<◌, ◌≡◌, ◌∙◌, arith, List, Option, none, some, Option-cases,
  Bool-cases, inl, inr, ◌==◌,
}
use toolx_cpp.Async.Types.{TaskPriority, high, normal, low}
use toolx_cpp.Async.Queue.{
  QueuedTask, Place, oldest, slot_count, dispatch_slot, choose_loop, choose,
}

-- The last slot of a priority, and the slots from `next` to it.
abbrev last_slot : TaskPriority → ℕ
last_slot high = 3
last_slot normal = 5
last_slot low = 6

abbrev pub distance : ℕ → TaskPriority → ℕ
distance next p = (last_slot p + slot_count - next) % slot_count

pub last_slot-priority :
    (next : ℕ) (p : TaskPriority)
    → next < slot_count
    → dispatch_slot ((next + distance next p) % slot_count) ≡ p
unfolding dispatch_slot
last_slot-priority next high h =
    let e : (next + distance next high) % slot_count ≡ 3 = omega arith in rw e
last_slot-priority next normal h =
    let e : (next + distance next normal) % slot_count ≡ 5 = omega arith in rw e
last_slot-priority next low h =
    let e : (next + distance next low) % slot_count ≡ 6 = omega arith in rw e

-- What is chosen where a slot is reached: the place, the slot, and the way to it.
abbrev pub Chosen : ℕ → ℕ → List QueuedTask → Option (Place × ℕ) → Type 0
Chosen next bound q r =
    (best : Place) × (off : ℕ) × (r ≡ some (best, ((next + off) % slot_count + 1) % slot_count))
    × (off ≤ bound)
    × (oldest (dispatch_slot ((next + off) % slot_count)) q ≡ some best)

choose_loop-hit :
    (left offset next : ℕ) (q : List QueuedTask) (c : Place)
    → oldest (dispatch_slot ((next + offset) % slot_count)) q ≡ some c
    → choose_loop (suc left) offset next q
      ≡ some (c, ((next + offset) % slot_count + 1) % slot_count)
unfolding choose_loop
choose_loop-hit left offset next q c f = rw (f, choose_loop)

choose_loop-miss :
    (left offset next : ℕ) (q : List QueuedTask)
    → oldest (dispatch_slot ((next + offset) % slot_count)) q ≡ none
    → choose_loop (suc left) offset next q ≡ choose_loop left (suc offset) next q
unfolding choose_loop
choose_loop-miss left offset next q f = rw (f, choose_loop)

choose-found :
    (next : ℕ) (q : List QueuedTask) (r : Place × ℕ)
    → choose_loop slot_count 0 next q ≡ some r
    → choose next q ≡ some r
unfolding choose
choose-found next q r e = rw (e, choose)

later_slot :
    (offset next bound : ℕ) (q : List QueuedTask) (b : Place)
    → offset ≤ bound
    → oldest (dispatch_slot ((next + bound) % slot_count)) q ≡ some b
    → oldest (dispatch_slot ((next + offset) % slot_count)) q ≡ none
    → offset < bound
later_slot offset next bound q b h e f = elim (Bool-cases (offset == bound)) [
  | inl same ↦ absurd (let s : offset ≡ bound = ground arith in cc (rw s at f, e))
  | inr other ↦ ground arith
]

choose_loop-Chosen :
    (left offset next bound : ℕ) (q : List QueuedTask) (b : Place)
    → offset ≤ bound
    → bound < offset + left
    → oldest (dispatch_slot ((next + bound) % slot_count)) q ≡ some b
    → Chosen next bound q (choose_loop left offset next q)
choose_loop-Chosen zero offset next bound q b h k e = absurd (omega arith)
choose_loop-Chosen (suc left) offset next bound q b h k e =
    elim (Option-cases (oldest (dispatch_slot ((next + offset) % slot_count)) q)) [
      | inr (c, f) ↦ (c, offset, choose_loop-hit left offset next q c f, h, f)
      | inl f ↦
          let more = later_slot offset next bound q b h e f in
          let (c, off, r, le, g) =
            choose_loop-Chosen left (suc offset) next bound q b (omega arith) (omega arith) e in
          (c, off, choose_loop-miss left offset next q f ∙ r, le, g)
    ]

pub choose-Chosen :
    (next bound : ℕ) (q : List QueuedTask) (b : Place)
    → bound < slot_count
    → oldest (dispatch_slot ((next + bound) % slot_count)) q ≡ some b
    → Chosen next bound q (choose next q)
choose-Chosen next bound q b h e =
    let (c, off, r, le, g) =
      choose_loop-Chosen slot_count 0 next bound q b (omega arith) (omega arith) e in
    (c, off, choose-found next q _ r, le, g)
