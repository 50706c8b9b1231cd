-- ===== src/E2e.antt =====
-- app/shared/e2e and app/domain/auth: the encrypted session protocol.
pub mod Crypto
pub mod SessionStore
pub mod Middleware
pub mod Login
pub mod Routes
pub mod Password
pub mod Account
pub mod Changed
pub mod Traffic
pub mod Renewal
pub mod Handshake
pub mod Resolution
