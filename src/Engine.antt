-- ===== src/Engine.antt =====
-- server/include/game/game_engine.h and server/src/game/game_engine.cpp: one table's game. An
-- operation gives the engine afterwards and its result; `none` is a call that throws or does not end.
pub mod Table
pub mod Start
pub mod View
pub mod Bot
pub mod TributePhase
pub mod Play
