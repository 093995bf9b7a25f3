-- ===== src/Ffi.antt =====
-- The functions that Rust exports to Go, under rustlib/rustlib/src, as far as the memory that they
-- allocate, read and free is concerned.
pub mod Boxes
pub mod Multi
pub mod Tables
pub mod Ownership
