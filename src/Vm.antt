-- ===== src/Vm.antt =====
-- vm/vm.go.
pub mod Strings
pub mod Create
pub mod Debug
