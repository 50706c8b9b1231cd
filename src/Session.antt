-- ===== src/Session.antt =====
-- app/shared/session: sessions of entities and users, kept in Valkey.
pub mod Models
pub mod Keys
pub mod Repository
pub mod EntityLaws
mod Agree
pub mod History
pub mod UserSessions
pub mod Security
pub mod Tokens
pub mod Validation
pub mod Service
pub mod Requests
pub mod Consistency
