-- ===== src/Services.antt =====
-- internal/components/service: services, their versions, and the name-sorted view.
pub mod Operations
pub mod Effects
pub mod Bodies
pub mod Writes
pub mod Invariant
pub mod Preservation
pub mod Frames
pub mod Races
pub mod Pagination
pub mod Panics
pub mod Worker
mod Tests
