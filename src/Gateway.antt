-- ===== src/Gateway.antt =====
-- internal/gateway: the reverse proxy through which the holders of a share use the account's login.
pub mod Credentials
pub mod Tokens
pub mod Headers
pub mod Proxy
pub mod Betas
pub mod Serving
pub mod Metering
pub mod Admission
