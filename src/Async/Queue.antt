-- ===== src/Async/Queue.antt =====
-- The queue of `ThreadPool`, and the choice of the next task in `WorkerLoop`.
pub mod Oldest
pub mod Chosen
use toolx_cpp.Prelude.{
  ℕ, zero, suc, ◌+◌, ◌%◌, Bool, true, false, ◌&&◌, List, [], ◌∷◌, ◌++◌, Option, none, some, ltb,
  if◌then◌else◌,
}
use toolx_cpp.Async.Types.{TaskPriority, high, normal, low, Task, same_priority}

pub record QueuedTask : Type 0 where
  pub task : Task
  pub priority : TaskPriority
  pub sequence : ℕ

-- An entry with its position in the queue.
pub record Place : Type 0 where
  pub position : ℕ
  pub entry : QueuedTask

-- `queue_.erase(best)`.
unfoldable pub erase_at : ℕ → List QueuedTask → List QueuedTask
erase_at i [] = []
erase_at zero (e ∷ q) = q
erase_at (suc i) (e ∷ q) = e ∷ erase_at i q

abbrev pub is_older : QueuedTask → Option Place → Bool
is_older e none = true
is_older e (some best) = ltb e.sequence best.entry.sequence

-- `find_oldest_with_priority`, the loop from position `i` on with what is chosen so far.
unfoldable pub oldest_loop : TaskPriority → ℕ → Option Place → List QueuedTask → Option Place
oldest_loop p i chosen [] = chosen
oldest_loop p i chosen (e ∷ q) =
    oldest_loop p (suc i)
      (if same_priority e.priority p && is_older e chosen
        then some (record { position = i; entry = e })
        else chosen)
      q

unfoldable pub oldest : TaskPriority → List QueuedTask → Option Place
oldest p q = oldest_loop p 0 none q

-- The oldest entry of all, which is taken if no slot has one.
unfoldable pub oldest_of_all : ℕ → Option Place → List QueuedTask → Option Place
oldest_of_all i chosen [] = chosen
oldest_of_all i chosen (e ∷ q) =
    oldest_of_all (suc i)
      (if is_older e chosen then some (record { position = i; entry = e }) else chosen) q

-- `kDispatchSlots`.
abbrev pub slot_count : ℕ
slot_count = 7

unfoldable pub dispatch_slot : ℕ → TaskPriority
dispatch_slot slot = if ltb slot 4 then high else if ltb slot 6 then normal else low

-- The loop over the slots from `offset` on, and the slot behind the one that has an entry.
unfoldable pub choose_loop : ℕ → ℕ → ℕ → List QueuedTask → Option (Place × ℕ)
choose_loop zero offset next q = none
choose_loop (suc left) offset next q =
    let slot = (next + offset) % slot_count in
    let rest = choose_loop left (suc offset) next q in
    elim (oldest (dispatch_slot slot) q) [
      | some best ↦ some (best, (slot + 1) % slot_count)
      | none ↦ rest
    ]

unfoldable pub choose : ℕ → List QueuedTask → Option (Place × ℕ)
choose next q = elim (choose_loop slot_count 0 next q) [
  | some found ↦ some found
  | none ↦ elim (oldest_of_all 0 none q) [
    | none ↦ none
    | some best ↦ some (best, (next + 1) % slot_count)
  ]
]
