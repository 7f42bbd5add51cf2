-- ===== src/Schemax.antt =====
-- The schema validator of src/schemax.cpp.
pub mod Numbers
pub mod Nodes
pub mod Paths
pub mod Compile
pub mod Issue
pub mod Validate
pub mod Issues
pub mod Parts
pub mod Accepted
pub mod Report
pub mod Laws
pub mod Fuel
pub mod Conforms
pub mod Complete
mod Tests
