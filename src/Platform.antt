-- ===== src/Platform.antt =====
-- pkg/platform: authentication throttling and access control.
pub mod LoginGuard
pub mod Rbac
pub mod Tenants
pub mod Users
pub mod Tokens
pub mod Session
mod Examples
