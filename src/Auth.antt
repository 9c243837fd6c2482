-- ===== src/Auth.antt =====
-- pkg/auth: authentication of requests.
pub mod Examples
pub mod Context
pub mod Encryption
pub mod Flow
pub mod Csrf
pub mod Login
pub mod Token
pub mod Sms
pub mod Hmac
pub mod Signature
pub mod Schema
pub mod Gate
mod Tests
mod KeyTests
mod Codes
mod CodeTests
