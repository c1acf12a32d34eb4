-- ===== src/Examples.antt =====
-- Tests, and the theorems at concrete inputs.
pub mod Frames
pub mod Batches
pub mod Slots
pub mod Messages
pub mod Objects
pub mod Values
pub mod Polling
pub mod Structures
pub mod Times
pub mod Requests
pub mod Tables
