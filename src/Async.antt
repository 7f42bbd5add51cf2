-- ===== src/Async.antt =====
-- The thread pool of src/asyncx.cpp and include/asyncx.h.
pub mod Types
pub mod Queue
pub mod Pool
pub mod Sections
pub mod Timers
pub mod Fairness
pub mod System
mod Tests
