-- ===== src/Usage.antt =====
-- internal/usage: what the page shows of each account's plan.
pub mod Client
pub mod Gateway
pub mod Service
pub mod Steps
pub mod Waits
pub mod Others
pub mod Quiet
pub mod Left
pub mod Shown
pub mod Ages
pub mod Kept
