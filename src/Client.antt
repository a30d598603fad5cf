-- ===== src/Client.antt =====
-- The client: the lines that are typed, the connection to the server, the messages that come, and
-- the event loop.
pub mod Schemas
pub mod CommandLine
pub mod Quotes
pub mod Validation
pub mod Sending
pub mod Integers
pub mod Calls
pub mod Events
pub mod Status
pub mod Router
pub mod Network
pub mod System
pub mod Connecting
pub mod Connected
pub mod Running
pub mod Frames
pub mod Application
pub mod Stream
pub mod Growing
pub mod Wire
pub mod Framing
pub mod Decimals
pub mod Delivered
pub mod Listed
pub mod Items
pub mod Shown
pub mod Notified
