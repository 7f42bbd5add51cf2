-- ===== src/Httpx.antt =====
-- The client of src/httpx.cpp and include/httpx.h: what it does around the transport.
pub mod Types
pub mod Client
pub mod Calls
pub mod Circuit
pub mod Cookies
pub mod DotSegments
mod Tests
