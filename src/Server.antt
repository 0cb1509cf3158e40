-- ===== src/Server.antt =====
-- cmd/clawdh-server: the gateway's upstream over the panel's database, and its background writer.
pub mod Backoff
pub mod Writer
pub mod Upstream
pub mod Stored
