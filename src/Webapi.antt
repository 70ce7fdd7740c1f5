-- ===== src/Webapi.antt =====
-- internal/webapi: the limits in front of the browser's endpoints.
pub mod RateLimit
pub mod Response
pub mod Session
pub mod Auth
pub mod Oauth
pub mod Keeps
pub mod Schedules
pub mod Webhook
pub mod Users
