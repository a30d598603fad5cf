-- ===== src/Teams.antt =====
-- The teams of the database: no name twice among teams, among the channels of a team and among the
-- threads of a channel, and no subscriber twice.
pub mod Distinct
pub mod Invariant
pub mod Commands
pub mod Creating
pub mod Reached
