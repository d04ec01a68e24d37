-- ===== src/Room/Rounds/Opening.antt =====
-- The starts keep the players and the settings of the room.

use gd_server.Base.{
  Bool, List, Option, any, arith, false, if◌then◌else◌, none, not, refl, replicate, some, true, ℕ,
  ◌==◌, ◌>>=◌, ◌≡◌,
}
use gd_server.Cards.{Card}
use gd_server.Engine.Table.{GameEngine, PlayResult}
use gd_server.Room.Data.{Room, in_settlement, room_phase_eq}
use gd_server.Room.Rounds.{
  begin_round, clear_spectate_targets, open_game, place_ids, room_all_ready, start_game_of,
  start_next_round_of,
}

abbrev pub SameRoom : Room → Option (Room × Bool) → Type 0
SameRoom r none = Unit {0}
SameRoom r (some (t, b)) = (t.players ≡ r.players) × (t.config ≡ r.config)

begin_round-Same :
    (r : Room) (out : GameEngine × PlayResult) → SameRoom r (some (begin_round r out))
unfolding begin_round clear_spectate_targets
begin_round-Same r (e, result) = ground arith

begun-Same :
    (r : Room) (m : Option (GameEngine × PlayResult))
    → SameRoom r (m >>= λ out. some (begin_round r out))
begun-Same r none = tt
begun-Same r (some out) = begin_round-Same r out

if-Same :
    (r : Room) (c : Bool) (x y : Option (Room × Bool))
    → SameRoom r x
    → SameRoom r y
    → SameRoom r (if c then x else y)
if-Same r true x y h k = h
if-Same r false x y h k = k

open_game-Same :
    (shuffle : List Card → List Card) (r : Room) (ids : List ℕ)
    → SameRoom r (open_game shuffle r ids)
unfolding open_game
open_game-Same shuffle r ids = if-Same r (any (λ id. id == 0) ids) _ _ (refl, refl) (begun-Same r _)

pub start_game_of-Same :
    (shuffle : List Card → List Card) (r : Room) → SameRoom r (start_game_of shuffle r)
unfolding start_game_of
start_game_of-Same shuffle r =
    if-Same r (not (room_all_ready r)) _ _ (refl, refl)
      (seated (place_ids r.config.max_players r.players (replicate r.config.max_players 0)))
  where
    seated :
        (o : Option (List ℕ))
        → SameRoom r (elim o [ none ↦ some (r, false) | some ids ↦ open_game shuffle r ids ])
    seated none = (refl, refl)
    seated (some ids) = open_game-Same shuffle r ids

pub start_next_round_of-Same :
    (shuffle : List Card → List Card) (r : Room) → SameRoom r (start_next_round_of shuffle r)
unfolding start_next_round_of
start_next_round_of-Same shuffle r =
    if-Same r (not (room_phase_eq r.phase in_settlement)) _ _ (refl, refl)
      (if-Same r (not (room_all_ready r)) _ _ (refl, refl) (begun-Same r _))
