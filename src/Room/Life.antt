-- ===== src/Room/Life.antt =====
-- The calls on a room, in any order, and what holds after them.
pub mod Kept
use gd_server.Base.{Bool, List, Option, count, some, ℕ, ◌<◌, ◌≡◌, ◌≢◌}
use gd_server.Cards.{Card}
use gd_server.Engine.Table.{GameEngine}
use gd_server.Room.Data.{PlayerJoinInfo, Room, k_bot_id_base}
use gd_server.Room.Rounds.{
  cancel_dismiss_vote, enter_settlement, finish_match, request_dismiss, set_enable_tribute,
  start_game_of, start_next_round_of, vote_dismiss,
}
use gd_server.Room.Seats.{change_seat, fill_bots, join, leave, ready, sync_player_profile, unready}
use gd_server.Room.Seats.Taken.{IsSeated, ids_of_room}
use gd_server.Room.Spectators.{set_spectate_target}

-- What the server does to a room. A player who joins has an id that is not 0.
pub data RoomStep (r : Room) : Room → Type 0 where
  joins : (id : ℕ) (info : PlayerJoinInfo) → id ≢ 0 → RoomStep r (join r id info).0
  leaves : (id : ℕ) → RoomStep r (leave r id)
  renames : (id : ℕ) (info : PlayerJoinInfo) → RoomStep r (sync_player_profile r id info).0
  prepares : (id : ℕ) → RoomStep r (ready r id).0
  hesitates : (id : ℕ) → RoomStep r (unready r id).0
  moves : (id : ℕ) (seat : Option ℕ) → RoomStep r (change_seat r id seat).0
  fills :
      ((a : ℕ) → k_bot_id_base < a → count a (ids_of_room r.players) ≡ 0) → RoomStep r (fill_bots r)
  asks : (id : ℕ) → RoomStep r (request_dismiss r id).0
  votes : (id : ℕ) (agree : Bool) → RoomStep r (vote_dismiss r id agree).0
  drops : RoomStep r (cancel_dismiss_vote r)
  sets : (id : ℕ) (enabled : Bool) → RoomStep r (set_enable_tribute r id enabled).0
  watches : (id seat : ℕ) → RoomStep r (set_spectate_target r id seat).0
  settles : RoomStep r (enter_settlement r)
  starts :
      (shuffle : List Card → List Card) (t : Room) (b : Bool)
      → start_game_of shuffle r ≡ some (t, b)
      → RoomStep r t
  goes_on :
      (shuffle : List Card → List Card) (t : Room) (b : Bool)
      → start_next_round_of shuffle r ≡ some (t, b)
      → RoomStep r t
  ends : RoomStep r (finish_match r)
  -- The engine's own calls go past the room.
  plays : (e : GameEngine) → RoomStep r (record r { engine = e })

pub data RoomReach (r : Room) : Room → Type 0 where
  here : RoomReach r r
  after : {s t : Room} → RoomReach r s → RoomStep s t → RoomReach r t

-- The players have their own ids and seats, all in the room.
abbrev pub RoomInv : Room → Type 0
RoomInv r = IsSeated r.players r.config.max_players
