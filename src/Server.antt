-- ===== src/Server.antt =====
-- The auth provider's server (auth-provider/server).
pub mod Store
pub mod Runtime
pub mod Token
pub mod Outbox
pub mod Access
pub mod Mfa
pub mod Auth
pub mod UserInfo
pub mod Authorization
pub mod Publisher
pub mod Admin
pub mod Samples
mod Tests
