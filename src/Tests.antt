-- ===== src/Tests.antt =====
-- The theorems at work on small servers.
mod Samples
mod Sessions
mod Parsing
mod Storing
mod Handling
mod Typing
mod Saving
mod Receiving
mod Serving
mod Starting
