-- ===== src/Modules/Oidc.antt =====
-- modules/oidc: the session in a cookie, the access rules, and the login with the provider.
pub mod Session
pub mod Login
pub mod Access
pub mod Middleware
pub mod Renewal
