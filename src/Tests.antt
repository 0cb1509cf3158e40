-- ===== src/Tests.antt =====
-- A small panel, gateway, queue and machine, on which the code is run and the theorems are applied.
pub mod Panel
pub mod Gateway
pub mod Jobs
pub mod Server
pub mod Local
pub mod Shell
pub mod Switching
pub mod Metering
pub mod Updating
pub mod Usage
pub mod Boards
