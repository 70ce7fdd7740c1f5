-- ===== src/Tests.antt =====
-- Ticks and requests on small worlds.
mod Data
mod Scheduling
mod Requests
mod Manifests
mod Contexts
mod Reports
mod Triggers
mod Runs
mod Reporting
mod Syncing
mod Codec
mod Browsing
mod Servers
