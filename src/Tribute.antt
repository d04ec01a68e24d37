-- ===== src/Tribute.antt =====
-- server/include/game/tribute.h and server/src/game/tribute.cpp: which cards losers give to winners before a
-- round, and which they get back. Seats that may be -1 are `Option ℕ`; the numbers -1 and 999 that
-- start the searches are the `none` of a best order so far. A card id that is not in the deck makes
-- `getCardById` throw: such a call is `none`.
pub mod Data
pub mod Choice
pub mod Planning
pub mod Moves
pub mod Round
