-- ===== src/Web.antt =====
-- src/web: the administrators' accounts and sessions, and what stands before the handlers.
pub mod Tokens
pub mod Users
pub mod Sessions
pub mod Calls
pub mod Access
pub mod Lockout
pub mod Accounts
pub mod Limiter
pub mod Windows
pub mod Gate
pub mod Nested
pub mod Cookies
pub mod Handlers
pub mod Admission
