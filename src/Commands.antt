-- ===== src/Commands.antt =====
-- server/commands: one module for each command or group of commands.
pub mod Login
pub mod Create
pub mod Answers
pub mod Info
pub mod Listing
pub mod Messages
pub mod Subscriptions
pub mod Context
pub mod Users
pub mod Handling
