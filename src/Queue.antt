-- ===== src/Queue.antt =====
-- internal/queue: the job table, the service behind the API and the runner behind the ticker.
pub mod Job
pub mod World
pub mod Store
pub mod Engine
pub mod Status
pub mod Paths
pub mod Service
pub mod Archive
pub mod Runner
pub mod Consistent
pub mod Count
pub mod Daemon
