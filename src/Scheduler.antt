-- ===== src/Scheduler.antt =====
-- internal/scheduler: the tick loop.
pub mod Overlap
pub mod Tick
