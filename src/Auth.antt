-- ===== src/Auth.antt =====
-- pkg/auth: what a service asks of a token that was verified, and which scopes its routes enforce.
pub mod Scopes
pub mod Gate
pub mod Surface
pub mod Token
pub mod Audience
