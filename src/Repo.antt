-- ===== src/Repo.antt =====
-- internal/repository/d1: the SQL statements of the catalog repository as functions on the tables.
-- A SELECT is a read of the tables, an INSERT, UPDATE or DELETE a change of them, each one remote
-- call. Foreign keys are taken as not enforced, which is what the deletes of the source allow for.
pub mod Reads
pub mod Taxonomy
pub mod Writes
pub mod Feed
