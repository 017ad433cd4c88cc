-- ===== src/Domain.antt =====
-- The entities of internal/domain.
pub mod Media
pub mod Feed
pub mod Jobs
