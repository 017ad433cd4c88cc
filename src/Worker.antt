-- ===== src/Worker.antt =====
-- internal/cleanup, internal/covermirror and internal/repository/r2: the consumers of the two queues.
pub mod Bucket
pub mod Cleanup
pub mod Covers
