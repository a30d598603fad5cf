-- ===== src/Answering.antt =====
-- Handlers that only answer: what they leave behind is one text more in the write buffer of the
-- client that asked.
pub mod Sending
pub mod Queries
pub mod Unauthenticated
