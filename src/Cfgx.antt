-- ===== src/Cfgx.antt =====
-- The configuration library: include/cfgx.h and src/cfgx.cpp.
pub mod Error
pub mod Path
pub mod Node
pub mod Access
pub mod Canonical
pub mod Merge
pub mod Message
pub mod Json
pub mod Overrides
pub mod Compose
mod Tests
