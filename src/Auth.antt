-- ===== src/Auth.antt =====
-- apps/api/src/auth
pub mod Subject
pub mod Tokens
pub mod Access
pub mod Guards
pub mod Passwords
pub mod Service
pub mod Controller
pub mod Lockout
pub mod Otp
pub mod Scope
