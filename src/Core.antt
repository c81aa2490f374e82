-- ===== src/Core.antt =====
-- include/chronos/core: the enumerations, numbers and records that all parts share.
pub mod Enums
pub mod Numbers
pub mod Structs
pub mod Whole
pub mod Positions
pub mod Errors
