-- ===== src/Network.antt =====
-- server/include/network and server/src/network: the sessions of the players.
pub mod Sessions
