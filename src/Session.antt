-- ===== src/Session.antt =====
-- What a connection sees of the server.
pub mod Chunks
pub mod Delivery
pub mod Choosing
pub mod Logging
pub mod UserNames
pub mod Polling
pub mod Total
