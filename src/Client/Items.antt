-- ===== src/Client/Items.antt =====
-- How the server writes the items of its lists, and what the client makes of each.
pub mod Kinds
pub mod Places
pub mod People
