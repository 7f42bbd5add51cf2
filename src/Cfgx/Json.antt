-- ===== src/Cfgx/Json.antt =====
-- The JSON reader and writer of src/cfgx.cpp: the class `JsonParser` with `ParseJson`, and
-- `EscapeJsonString`, `AppendJson` and `ToJson`.
pub mod Cursor
pub mod Text
pub mod Number
pub mod Parser
pub mod Printer
pub mod Spaces
pub mod Values
pub mod Within
pub mod Rounds
pub mod Texts
pub mod Weights
pub mod RoundTrip
pub mod Progress
pub mod Fuel
