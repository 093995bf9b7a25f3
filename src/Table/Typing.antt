-- ===== src/Table/Typing.antt =====
-- The methods of vm/table.go on typed values.
pub mod Steps
pub mod Bodies
pub mod Shapes
pub mod Arguments
pub mod Defaults
pub mod Others
pub mod Obedient
pub mod Methods
pub mod Programs
