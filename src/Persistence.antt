-- ===== src/Persistence.antt =====
-- server/saveManager: the database as a JSON text, and back.
pub mod Json
pub mod Maps
pub mod Numbers
pub mod Parser
pub mod Printer
pub mod Decoder
pub mod Saving
pub mod Documents
pub mod Strings
pub mod Reading
pub mod Printed
pub mod Decoded
pub mod RoundTrip
pub mod Restart
pub mod Stray
pub mod Session
