-- ===== src/Shell.antt =====
-- internal/shellrc: what clawdh writes into a shell's startup files.
pub mod Block
pub mod Search
pub mod Kept
