-- ===== src/Room/Rounds.antt =====
-- server/src/room/room.cpp: the rounds and the vote of a room. A call that throws or does not end is
-- `none`.
pub mod Opening
pub mod Seated
pub mod Table
use gd_server.Base.{
  Bool, List, Option, [], all, any, false, if◌then◌else◌, is_empty, leb, none, not, replicate, set,
  some, true, ℕ, ◌==◌, ◌>>=◌, ◌||◌, ◌∷◌,
}
use gd_server.Cards.{Card, code_is_ok, to_game_rule_config}
use gd_server.Engine.Start.{start_game, start_next_round}
use gd_server.Engine.Table.{GameEngine, PlayResult, init, set_player_ready, update_config}
use gd_server.Room.Data.{
  Room, RoomPlayer, in_play, in_settlement, in_waiting, is_bot_player, is_full, over, room_phase_eq,
}
use gd_server.Room.Vote.{DismissVoteEntry, cancel, record_vote, start}

unfoldable pub human_vote_entries : List RoomPlayer → List DismissVoteEntry
human_vote_entries [] = []
human_vote_entries (p ∷ ps) =
    let rest = human_vote_entries ps in
    if p.is_bot
    then rest
    else record { player_id = p.id; nickname = p.nickname; voted = false; agree = false } ∷ rest

unfoldable pub request_dismiss : Room → ℕ → Room × Bool
request_dismiss r player_id =
    let humans = human_vote_entries r.players in
    let started = start r.dismiss_vote player_id humans in
    if is_bot_player player_id
      || r.dismiss_vote.active
      || is_empty humans
      || not (any (λ h. h.player_id == player_id) humans)
    then (r, false)
    else (record r { dismiss_vote = started.0 }, started.1)

unfoldable pub vote_dismiss : Room → ℕ → Bool → Room × Bool
vote_dismiss r player_id agree =
    let voted = record_vote r.dismiss_vote player_id agree in
    if is_bot_player player_id then (r, false) else (record r { dismiss_vote = voted.0 }, voted.1)

unfoldable pub cancel_dismiss_vote : Room → Room
cancel_dismiss_vote r = record r { dismiss_vote = cancel r.dismiss_vote }

unfoldable pub set_enable_tribute : Room → ℕ → Bool → Room × Bool
set_enable_tribute r player_id enabled =
    let config = record (r.config) { enable_tribute = enabled } in
    if not (room_phase_eq r.phase in_waiting)
      || not (player_id == r.owner_id)
      || is_bot_player player_id
    then (r, false)
    else (
      record r { config = config; engine = update_config r.engine (to_game_rule_config config) },
      true,
    )

unfoldable pub clear_spectate_targets : Room → Room
clear_spectate_targets r = record r { spectate_targets = [] }

-- The loop of `enterSettlement` over the engine.
reset_ready : GameEngine → List RoomPlayer → GameEngine
reset_ready e [] = e
reset_ready e (p ∷ ps) = reset_ready (set_player_ready e p.id p.is_bot) ps

-- The same loop over the players.
unfoldable pub only_bots_ready : List RoomPlayer → List RoomPlayer
only_bots_ready [] = []
only_bots_ready (p ∷ ps) = record p { is_ready = p.is_bot } ∷ only_bots_ready ps

unfoldable pub enter_settlement : Room → Room
unfolding reset_ready only_bots_ready
enter_settlement r = record r {
  phase = in_settlement;
  players = only_bots_ready r.players;
  engine = reset_ready r.engine r.players;
}

unfoldable pub room_all_ready : Room → Bool
room_all_ready r = if not (is_full r) then false else all (λ p. p.is_ready) r.players

-- What follows the call of the engine in `startGame` and `startNextRound`.
begin_round : Room → GameEngine × PlayResult → Room × Bool
begin_round r (engine, result) =
    let after = record r { engine = engine } in
    if code_is_ok result.code
    then (record (clear_spectate_targets after) { phase = in_play }, true)
    else (after, false)

unfoldable pub start_next_round_of : (List Card → List Card) → Room → Option (Room × Bool)
unfolding begin_round
start_next_round_of shuffle r =
    if not (room_phase_eq r.phase in_settlement)
    then some (r, false)
    else if not (room_all_ready r)
    then some (r, false)
    else (start_next_round shuffle r.engine >>= λ out. some (begin_round r out))

unfoldable pub finish_match : Room → Room
finish_match r = record r { phase = over }

-- The loop that puts the ids on their seats; `none` where it returns false.
place_ids : ℕ → List RoomPlayer → List ℕ → Option (List ℕ)
place_ids n [] ids = some ids
place_ids n (p ∷ ps) ids = elim p.seat_index [
  | none ↦ none
  | some seat ↦ let rest = place_ids n ps (set ids seat p.id) in if leb n seat then none else rest
]

pub all_set_ready : GameEngine → List RoomPlayer → GameEngine
all_set_ready e [] = e
all_set_ready e (p ∷ ps) = all_set_ready (set_player_ready e p.id true) ps

-- The game with the ids on their seats.
open_game : (List Card → List Card) → Room → List ℕ → Option (Room × Bool)
unfolding all_set_ready begin_round
open_game shuffle r ids =
    let seated = all_set_ready (init r.engine r.room_id ids) r.players in
    if any (λ id. id == 0) ids
    then some (r, false)
    else (start_game shuffle seated >>= λ out. some (begin_round r out))

-- The guards are those of the room alone: the phase is not among them.
unfoldable pub start_game_of : (List Card → List Card) → Room → Option (Room × Bool)
unfolding place_ids open_game
start_game_of shuffle r =
    if not (room_all_ready r)
    then some (r, false)
    else elim (place_ids r.config.max_players r.players (replicate r.config.max_players 0)) [
      | none ↦ some (r, false)
      | some ids ↦ open_game shuffle r ids
    ]
