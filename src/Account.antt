-- ===== src/Account.antt =====
-- account: the account client, its credential store, its wire protocol and its token checks.
pub mod Error
pub mod Url
pub mod Secret
pub mod Endpoint
pub mod Model
pub mod Config
pub mod Store
pub mod Payload
pub mod Wire
pub mod Action
pub mod Client
pub mod Request
pub mod Oidc
pub mod Tests
