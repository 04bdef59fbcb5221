-- ===== src/Api.antt =====
-- internal/api: the settings and the HTTP handlers.
pub mod Settings
pub mod Http
pub mod Jobs
pub mod Browse
pub mod Configure
