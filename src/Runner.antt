-- ===== src/Runner.antt =====
-- internal/runner: one execution of a skill, with what it calls.
pub mod Cost
pub mod Session
pub mod Turns
pub mod Load
pub mod Execute
pub mod Leaves
pub mod Phases
pub mod Bounds
pub mod Metered
pub mod Unfilled
pub mod Statuses
