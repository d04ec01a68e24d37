-- ===== src/Dispatch.antt =====
-- server/src/network/message_dispatcher.cpp: the messages of the clients, and what the server does
-- with them.
pub mod Wire
pub mod Data
pub mod Rounds
pub mod Lobby
pub mod Play
pub mod Bots
pub mod Talk
pub mod Dismiss
pub mod Route
pub mod Ids
pub mod After
pub mod Stay
pub mod Safe
pub mod Requests
pub mod Turns
pub mod Stuck
pub mod Quoted
pub mod Dissolved
pub mod Queue
