-- ===== src/Async/Types.antt =====
-- The types of include/asyncx.h.
use toolx_cpp.Prelude.{ℕ, ◌+◌, ◌%◌, ◌^◌, Bool, true, false}

pub data ErrorKind : Type 0 where
  no_error invalid_argument timeout queue_full queue_closed not_running not_found internal
        cancelled :
      ErrorKind

pub data StopMode : Type 0 where
  drain cancel_pending : StopMode

pub data BackpressurePolicy : Type 0 where
  block reject : BackpressurePolicy

pub data TaskPriority : Type 0 where
  high normal low : TaskPriority

-- What a call returns.
pub data Status : Type 0 where
  ok : Status
  error : ErrorKind → (retryable : Bool) → Status

-- A task is named by a number; two posts of one function are two tasks.
abbrev pub Task : Type 0
Task = ℕ

-- A uint64_t counter goes up.
unfoldable pub add_64 : ℕ → ℕ → ℕ
add_64 n k = (n + k) % 2 ^ 64

unfoldable pub same_priority : TaskPriority → TaskPriority → Bool
same_priority high high = true
same_priority normal normal = true
same_priority low low = true
same_priority _ _ = false
