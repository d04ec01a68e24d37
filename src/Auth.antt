-- ===== src/Auth.antt =====
-- server/include/auth and server/src/auth: the accounts' tokens.
pub mod Tokens
pub mod Users
pub mod Service
