-- ===== src/Chat.antt =====
-- Chat rooms: who is in a group, who governs it, and the log of both.
pub mod Steps
pub mod Rooms
pub mod Membership
pub mod Creation
pub mod Groups
mod Tests
