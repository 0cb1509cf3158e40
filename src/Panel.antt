-- ===== src/Panel.antt =====
-- The panel (panel/*.go): the state it keeps, the operations on it, and the handlers' decisions.
pub mod Model
pub mod Roster
pub mod Answer
pub mod Store
pub mod Spans
pub mod Presence
pub mod Builds
pub mod Limits
pub mod LoginEnds
pub mod Updates
pub mod Accounts
pub mod Lending
pub mod WellFormed
pub mod People
pub mod Calls
pub mod Access
