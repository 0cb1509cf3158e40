-- ===== src/Local.antt =====
-- internal/accounts: the accounts of one machine.
pub mod Names
pub mod Free
pub mod Manager
pub mod Distinct
pub mod Operations
