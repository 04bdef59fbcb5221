-- ===== src/Dlq.antt =====
-- cmd/dlq: the command line.
pub mod Add
pub mod Status
