-- ===== src/Auth.antt =====
-- Sessions and who may pass: the service, the accounts, the two middlewares, and what they guarantee.
pub mod Authorization
pub mod Middleware
pub mod Rotation
pub mod Revocation
pub mod Access
pub mod Ending
pub mod Service
pub mod Accounts
pub mod Signup
