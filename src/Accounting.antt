-- ===== src/Accounting.antt =====
-- The number of connections that the database holds for each user, against the client table.
pub mod Counts
pub mod Users
pub mod Invariant
pub mod Login
pub mod Logout
pub mod Commands
pub mod Fresh
pub mod Supply
pub mod Loop
pub mod Bounds
