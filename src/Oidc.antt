-- ===== src/Oidc.antt =====
-- internal/oidc: the provider's tokens and consents, and its accounts.
pub mod Store
pub mod Refresh
pub mod Tokens
pub mod Scopes
pub mod Claims
pub mod Consent
pub mod Gate
pub mod Reply
pub mod Users
pub mod UserAdmin
pub mod Registration
pub mod Clients
pub mod Dcr
pub mod Requests
pub mod Login
pub mod Userinfo
