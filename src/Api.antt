-- ===== src/Api.antt =====
-- internal/api: the endpoints that a runner calls, and the manual trigger.
pub mod Response
pub mod Auth
pub mod AutoPause
pub mod Finalize
pub mod Events
pub mod Secrets
pub mod RunContext
pub mod Trigger
pub mod Keeps
