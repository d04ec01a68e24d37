-- ===== src/Lib.antt =====
-- The core of the Guandan server. In server/include/game and server/src/game: cards, patterns, turns,
-- ranks, levels, tributes, the engine that a room drives, and its bots. In server/include/room and
-- server/src/room: the rooms, their votes and their manager. Around them: the sessions of the players
-- (network) and the dispatcher of their messages, their accounts and tokens (user and auth), and the
-- packets and rooms of the voice server (voice). Four or six players in two teams play tricks with two
-- or three decks.
--
-- How the parts interact. GameEngine keeps the state of one game: the table (GameState), the levels
-- of the teams (TeamProgress), the previous round and the tribute. `startGame` and `startNextRound`
-- deal; a tribute phase may come first; `playCards` and `pass` are the play. A play is read by the
-- card analyzer, compared by the rule engine, taken from a hand, and followed by the turn manager;
-- when a team has finished, the ranks are completed, the settlement counts them and the progress
-- takes the result over. A Room keeps its players on their seats, says who is ready, drives the engine
-- from round to round, and runs the vote to dismiss it; the RoomManager knows all rooms, and the room
-- of each player. What a player is shown is the engine's view, taken from the player's own seat or,
-- for one who has finished, from that of a partner. A message comes in on a session, which the
-- SessionManager binds to a player; a token from the TokenManager stands for an account. The
-- MessageDispatcher puts a message on the task queue of a room, and its handlers call the room, its
-- engine and the manager, answer the session, tell the players of the room and time the next turn.
--
-- Which file models what:
--   Base        shared names, tests on numbers, lists, bags, maps and integers
--   Cards       types.h, card.h, card.cpp, room_config.h, room_config.cpp; Cards/Deck: deck.cpp
--   State       game_state.h, game_state.cpp, hand.h, hand.cpp
--   Rules       card_pattern.h, rule_engine.cpp (`canBeat`)
--   Turns       turn_manager.cpp
--   Analyzer    card_analyzer.cpp; Groups: `groupByRank`; Kinds: singles to bombs; Runs: straights,
--               three pairs and two triples
--   Progress    Ranks: finish_rank.cpp; Settlement: settlement.cpp; Teams: team_progress.cpp
--   Tribute     tribute.cpp; Data: its records and look-ups; Choice: which card is given; Planning:
--               `planRound`; Moves: `assignTributes` and `computeFirstPlayerSeat`; Round:
--               `resolveRound`
--   Engine      game_engine.cpp; Table: the state and the operations outside the play; Start: the
--               deal; TributePhase: `submitTribute` and `submitReturn`; Play: `playCards` and `pass`;
--               View: `buildViewFor`; Bot: bot_player.cpp
--   Room        room.h, room.cpp; Data: the record and its tests; Seats: joining, leaving, bots and
--               readiness; Rounds: the vote, the settlement and the starts; Spectators: who watches
--               whom; Vote: dismiss_vote.cpp; Emotion: emotion.cpp; Life: the calls on a room in any
--               order; Registry: room_manager.cpp, and what `handleLeaveRoom` does to the rooms
--               TaskQueue: room_task_queue.cpp
--   Dispatch    message_dispatcher.cpp; Wire: reading and writing JSON text; Data: the messages, the
--               server's state and what a call gives off; Rounds: views, timers and how rounds
--               follow; Lobby, Play, Talk and Dismiss: the handlers; Bots: the tasks of the bots;
--               Route: the way of a message to its handler
--   Network     session_manager.h, session_manager.cpp, and `resolvePlayerId` of the dispatcher
--   Auth        Tokens: token_manager.h, token_manager.cpp; Users: user_store.cpp, and of
--               auth_service.cpp `validateToken` and `updateAvatarPreset`; Service: the other
--               operations of auth_service.cpp
--   Voice       Packet: voice_packet.h; Rooms: voice_room_manager.cpp
--   Samples     concrete tables on which the results are applied
-- Functions keep the names of the source in snake case. The children of a module that are not named
-- here hold proofs.
--
-- How the code is translated. Numbers are natural; an `int` that the source sets to -1 for "none" is
-- an Option; a level upgrade, which may be negative, is an integer; card ids wrap at 2 ^ 16 where the
-- deck numbers them, and a level cast to a rank at 2 ^ 8. Levels and counters do not overflow in play
-- and are not bounded. `std::array` is a list of its entries; a write past its end, undefined in the
-- source, changes nothing here. A call that throws is `none`. An operation of the engine gives the
-- engine after it and its result. The order in which `std::shuffle` leaves the deck is an argument of
-- the operations that deal. A `std::sort` is an insertion sort with the comparison of the source.
--
-- Loops run over as many steps as the source gives them. The one loop without a bound, which skips
-- finished players after a turn, has fuel 2: a turn already looks all round the table for a player
-- who has not finished, so one step finds one where there is one; else the source does not end, and
-- the model gives `none`.
--
-- The bot's loop runs over all subsets of a hand, as often as the source's; a hand of more than 31
-- cards would shift out of the `int` that counts them, and gives `none`. Filling a room with bots has
-- as much fuel as the room has seats, and each round takes one.
--
-- Room ids are drawn at random outside the code modelled here: the draws are an argument of
-- `create_room`. A shared pointer to a room is the room's id. The clock is an argument. The manager's
-- lock makes each of its calls one step; calls on one room run one after the other on its task queue.
--
-- A handler of the dispatcher gives the server after it and its effects in their order: answers to a
-- session, messages to players, tasks for a room's queue, and timers set and taken back. The JSON text
-- of an answer is kept as the values that it is written from. The text of a request is read as the
-- source reads it, but for `parseMessage`: a message that does not parse is `none`. The task of a
-- timer or a queue runs on a room that the manager still knows; a room that has been dissolved while a
-- task waits is not followed any further. A loop that goes on over a vector after it has been erased
-- from has no defined behaviour and is `none`. The access token for LiveKit is an argument.
--
-- Not modelled: the texts of the answers and of the user file, the sockets and the HTTP and WebSocket
-- servers, the timer thread and the thread pool, the hash of passwords and the saving of pictures
-- (arguments of the operations that call them), and the clients around all this.
pub mod Base
pub mod Cards
pub mod Dispatch
pub mod Rules
pub mod State
pub mod Turns
pub mod Progress
pub mod Analyzer
pub mod Tribute
pub mod Engine
pub mod Room
pub mod Voice
pub mod Network
pub mod Auth
pub mod Samples
