-- ===== src/Switching.antt =====
-- internal/switching and internal/cli: moving a running session to another account.
pub mod Triggers
pub mod Rules
pub mod Relaunch
pub mod Moves
pub mod Told
