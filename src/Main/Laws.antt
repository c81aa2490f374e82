-- ===== src/Main/Laws.antt =====
-- What the traces of the two modes hold.
pub mod Ticks
pub mod Client
pub mod Modes
pub mod Phases
mod Segments
pub mod LiveOrder
pub mod ReplayOrder
