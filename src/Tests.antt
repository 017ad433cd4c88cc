-- ===== src/Tests.antt =====
-- Concrete inputs at which the properties apply.
mod Shelf
mod Catalog
mod Feeds
mod Drain
mod Covers
mod SubTypes
mod Tokens
mod Access
mod Accounts
mod Clients
mod Logins
mod Routes
mod Links
