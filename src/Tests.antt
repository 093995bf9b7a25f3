-- ===== src/Tests.antt =====
-- A small world, and the theorems at it.
pub mod Demo
pub mod Objects
pub mod Values
pub mod Tables
pub mod Chunks
pub mod Callbacks
pub mod Goroutines
pub mod References
pub mod Sequences
pub mod Functions
pub mod Userdata
pub mod Typing
