-- ===== src/Connections.antt =====
-- internal/service/connection_service.go and what it stands on: the OAuth connections to the outside
-- providers, their table, and the flow from the redirect to the tokens.
pub mod Url
pub mod Table
pub mod Flow
pub mod Sealed
pub mod Round
pub mod Renewal
pub mod Secrets
pub mod Suggestions
pub mod Search
