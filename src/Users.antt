-- ===== src/Users.antt =====
-- internal/components/user: user management.
pub mod Listing
pub mod Refusals
pub mod Operations
pub mod Invariant
pub mod Frames
mod Tests
