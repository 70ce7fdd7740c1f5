-- ===== src/Command.antt =====
-- cmd/cronfoundry/runner.go: the subcommand that executes one run over the API.
pub mod Clip
pub mod Delivery
pub mod Finalizing
pub mod Accepted
pub mod Client
pub mod Http
pub mod Once
