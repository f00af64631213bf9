-- ===== src/Web.antt =====
-- pkg/web: the console's API.
pub mod RateLimit
pub mod Login
mod Examples
