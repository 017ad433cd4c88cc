-- ===== src/Service.antt =====
-- internal/service: the media service over the catalog repository, R2 and the two queues.
pub mod Ports
pub mod Cleanup
pub mod Covers
pub mod Reading
pub mod Media
pub mod Deletes
pub mod Feed
pub mod SubTypes
