-- ===== src/Dispatch/Safe.antt =====
-- The handlers keep the record of who is in which room.
pub mod Lobby
pub mod Games
pub mod Talk
pub mod Doors
pub mod Whole
