-- ===== src/Async/Queue/Chosen.antt =====
-- What the loop over the slots of `WorkerLoop` of src/asyncx.cpp chooses.
use toolx_cpp.Prelude.{
  ℕ, zero, suc, ◌+◌, ◌%◌, ◌≤◌, ◌≡◌, refl, arith, Bool, true, false, List, [], ◌∷◌, Option, none,
  some, Option-cases, inl, inr, if◌then◌else◌, get_elem?, length,
}
use toolx_cpp.Async.Queue.{
  QueuedTask, Place, erase_at, is_older, oldest, oldest_of_all, slot_count, dispatch_slot,
  choose_loop, choose,
}
use toolx_cpp.Async.Queue.Oldest.{Stands, IsPlaceOf, oldest-IsPlaceOf}

-- A place that stands in the queue, if there is one.
abbrev Found : List QueuedTask → Option Place → Type 0
Found q none = Unit {0}
Found q (some b) = Stands q b

Found-if :
    (q : List QueuedTask) (b : Bool) (c d : Option Place)
    → Found q c
    → Found q d
    → Found q (if b then c else d)
Found-if q true c d h k = h
Found-if q false c d h k = k

oldest_of_all-Found :
    (all : List QueuedTask) (i : ℕ) (chosen : Option Place) (q : List QueuedTask)
    → ((j : ℕ) (e : QueuedTask) → get_elem? q j ≡ some e → get_elem? all (i + j) ≡ some e)
    → Found all chosen
    → Found all (oldest_of_all i chosen q)
unfolding oldest_of_all
oldest_of_all-Found all i chosen [] sub h = h
oldest_of_all-Found all i chosen (e ∷ q) sub h =
    oldest_of_all-Found all (suc i) _ q
      (λ j f k. let same : suc i + j ≡ i + suc j = omega arith in rw same (sub (suc j) f k))
      (Found-if all (is_older e chosen) (some (record { position = i; entry = e })) chosen
        (let same : i + 0 ≡ i = omega arith in rw same at (sub 0 e refl)) h)

abbrev IsFound : Option Place → Type 0
IsFound none = ⊥
IsFound (some b) = Unit {0}

IsFound-if : (b : Bool) (c d : Option Place) → IsFound c → IsFound d → IsFound (if b then c else d)
IsFound-if true c d h k = h
IsFound-if false c d h k = k

oldest_of_all-IsFound :
    (i : ℕ) (chosen : Option Place) (q : List QueuedTask)
    → IsFound chosen
    → IsFound (oldest_of_all i chosen q)
unfolding oldest_of_all
oldest_of_all-IsFound i chosen [] h = h
oldest_of_all-IsFound i chosen (e ∷ q) h =
    oldest_of_all-IsFound (suc i) _ q
      (IsFound-if (is_older e chosen) (some (record { position = i; entry = e })) chosen tt h)

choose_loop-Stands :
    (left offset next : ℕ) (q : List QueuedTask) (best : Place) (slot : ℕ)
    → choose_loop left offset next q ≡ some (best, slot)
    → Stands q best
unfolding choose_loop
choose_loop-Stands zero offset next q best slot h = absurd (cc h)
choose_loop-Stands (suc left) offset next q best slot h =
    let p = dispatch_slot ((next + offset) % slot_count) in
    elim (Option-cases (oldest p q)) [
      | inl missing ↦ choose_loop-Stands left (suc offset) next q best slot (ground arith)
      | inr (b, found) ↦
          (let same : b ≡ best = ground arith in
            let place : IsPlaceOf p q (some b) = rw found at (oldest-IsPlaceOf p q) in
            rw same at (place.0))
    ]

oldest_of_all-Stands :
    (q : List QueuedTask) (best : Place) → oldest_of_all 0 none q ≡ some best → Stands q best
oldest_of_all-Stands q best h =
    let place =
      oldest_of_all-Found q 0 none q (λ j e k. let same : 0 + j ≡ j = omega arith in rw same k)
        tt in
    rw h at place

-- The choice stands in the queue.
pub choose-Stands :
    (next : ℕ) (q : List QueuedTask) (best : Place) (slot : ℕ)
    → choose next q ≡ some (best, slot)
    → Stands q best
unfolding choose
choose-Stands next q best slot h = elim (Option-cases (choose_loop slot_count 0 next q)) [
  | inr (found, e) ↦ choose_loop-Stands slot_count 0 next q best slot (ground arith)
  | inl missing ↦ elim (Option-cases (oldest_of_all 0 none q)) [
    | inl none_left ↦ absurd (ground arith)
    | inr (b, e) ↦ oldest_of_all-Stands q best (ground arith)
  ]
]

-- There is one unless the queue is empty.
pub choose-none : (next : ℕ) (q : List QueuedTask) → choose next q ≡ none → q ≡ []
unfolding choose oldest_of_all
choose-none next [] h = refl
choose-none next (e ∷ q) h =
    let found = oldest_of_all-IsFound 1 (some (record { position = 0; entry = e })) q tt in
    elim (Option-cases (oldest_of_all 1 (some (record { position = 0; entry = e })) q)) [
      | inl missing ↦ absurd (rw missing at found)
      | inr (b, there) ↦ absurd (ground arith)
    ]

pub length-erase_at : (i : ℕ) (q : List QueuedTask) → length (erase_at i q) ≤ length q
unfolding erase_at
length-erase_at i [] = omega arith
length-erase_at zero (e ∷ q) = omega arith
length-erase_at (suc i) (e ∷ q) = let rest = length-erase_at i q in omega arith
