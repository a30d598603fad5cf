-- ===== src/Frame.antt =====
-- What a command may do to the server, as a list of writes that a property has to survive.
pub mod Writes
pub mod Commands
pub mod Answered
pub mod Lasting
