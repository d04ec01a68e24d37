-- ===== src/Room.antt =====
-- server/include/room/room.h and server/src/room: one room with its players, its vote and its engine.
-- A seat that may be -1 is an option; the calls that change a seat get `none` for a negative one.
pub mod Vote
pub mod Emotion
pub mod Data
pub mod Seats
pub mod Rounds
pub mod Spectators
pub mod Life
pub mod Registry
pub mod TaskQueue
