-- ===== src/Cfgx/Tests.antt =====
-- The path and access functions of src/cfgx.cpp on a small configuration of two layers.
pub mod Data
mod Paths
mod Json
mod Changes
mod Layering
mod Composed
