-- ===== src/Value.antt =====
-- vm/value.go: the Go values, and their conversion to and from the values of the C interface.
pub mod Types
pub mod Clone
pub mod Convert
pub mod Scalars
pub mod Sending
pub mod Cloning
pub mod Taking
pub mod ErrorValues
pub mod Refused
pub mod Typing
