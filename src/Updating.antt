-- ===== src/Updating.antt =====
-- internal/updater: how the installed program keeps itself current.
pub mod Release
pub mod Checksums
pub mod Swap
pub mod Install
pub mod Schedule
pub mod Verified
pub mod Safe
pub mod Paused
pub mod Settled
pub mod Fields
pub mod Published
