-- ===== src/Voice.antt =====
-- server/include/voice: the packets of the voice server.
pub mod Packet
pub mod Rooms
