-- ===== src/Room/Registry.antt =====
-- server/src/room/room_manager.cpp: all rooms, and the room of each player. The map from ids to
-- rooms is an association list; the shared pointer to a room is its id. The ids that
-- `generateRoomId` draws are an argument.
pub mod Humans
pub mod Members
pub mod Leaving
pub mod Reached
use gd_server.Base.{
  Bool, List, Option, String, [], erase_at, erase_text, false, find_at, find_text, has_at,
  if◌then◌else◌, none, not, put_at, put_text, some, true, ℕ, ◌>>=◌, ◌∷◌,
}
use gd_server.Cards.{from_mode_name, solo}
use gd_server.Room.Data.{PlayerJoinInfo, Room, RoomPlayer, is_bot_player, is_room_empty, new_room}
use gd_server.Room.Seats.{fill_bots, join, leave}

pub record RoomManager : Type 0 where
  pub rooms : List (String × Room)
  pub player_rooms : List (ℕ × String)
  pub has_executor : Bool

-- `RoomManager{}`, and `setRoomExecutor`.
abbrev pub new_manager : RoomManager
new_manager = record { rooms = []; player_rooms = []; has_executor = false }

unfoldable pub set_room_executor : RoomManager → Bool → RoomManager
set_room_executor m executor = record m { has_executor = executor }

-- The loop that draws a room id until it is new; `none` where the draws end.
pub fresh_room_id : List (String × Room) → List String → Option String
fresh_room_id rooms [] = none
fresh_room_id rooms (id ∷ ids) = elim (find_text rooms id) [
  | none ↦ some id
  | some r ↦ fresh_room_id rooms ids
]

-- The room that a player creates.
unfoldable pub opened_room : String → ℕ → PlayerJoinInfo → String → Room
opened_room id owner profile mode =
    let config = from_mode_name mode in
    let joined = (join (new_room id owner config) owner profile).0 in
    elim config.mode [ solo ↦ fill_bots joined | _ ↦ joined ]

unfoldable pub create_room :
    List String → RoomManager → ℕ → PlayerJoinInfo → String → Option (RoomManager × Option String)
unfolding fresh_room_id
create_room ids m owner profile mode =
    if has_at m.player_rooms owner
    then some (m, none)
    else (fresh_room_id m.rooms ids >>= λ id.
        if not m.has_executor
        then some (m, none)
        else some (
          record m {
            rooms = put_text m.rooms id (opened_room id owner profile mode);
            player_rooms = put_at m.player_rooms owner id;
          },
          some id,
        ))

-- A join that fails leaves the room as it is.
unfoldable pub join_room : RoomManager → String → ℕ → PlayerJoinInfo → RoomManager × Bool
join_room m room_id player_id profile =
    if has_at m.player_rooms player_id then (m, false) else elim (find_text m.rooms room_id) [
      | none ↦ (m, false)
      | some room ↦
          let joined = join room player_id profile in
          if joined.1
          then (
            record m {
              rooms = put_text m.rooms room_id joined.0;
              player_rooms = put_at m.player_rooms player_id room_id;
            },
            true,
          )
          else (m, false)
    ]

unfoldable pub get_room : RoomManager → String → Option Room
get_room m room_id = find_text m.rooms room_id

-- The loop over the players of the room that goes.
unfoldable pub erase_humans : List RoomPlayer → List (ℕ × String) → List (ℕ × String)
erase_humans [] rooms = rooms
erase_humans (p ∷ ps) rooms =
    erase_humans ps (if is_bot_player p.id then rooms else erase_at rooms p.id)

unfoldable pub remove_room : RoomManager → String → RoomManager
unfolding erase_humans
remove_room m room_id = elim (find_text m.rooms room_id) [
  | none ↦ m
  | some room ↦ record m {
    rooms = erase_text m.rooms room_id;
    player_rooms = erase_humans room.players m.player_rooms;
  }
]

unfoldable pub find_room_by_player : RoomManager → ℕ → Option Room
find_room_by_player m player_id = find_at m.player_rooms player_id >>= λ id. find_text m.rooms id

-- The room of the player goes when it is empty.
pub drop_if_empty : List (String × Room) → String → List (String × Room)
drop_if_empty rooms id = elim (find_text rooms id) [
  | none ↦ rooms
  | some room ↦ if is_room_empty room then erase_text rooms id else rooms
]

unfoldable pub remove_player_from_room : RoomManager → ℕ → RoomManager
unfolding drop_if_empty
remove_player_from_room m player_id =
    if is_bot_player player_id then m else elim (find_at m.player_rooms player_id) [
      | none ↦ m
      | some id ↦ record m {
        rooms = drop_if_empty m.rooms id;
        player_rooms = erase_at m.player_rooms player_id;
      }
    ]

-- What `handleLeaveRoom` does to the rooms.
unfoldable pub handle_leave_room : RoomManager → ℕ → RoomManager
handle_leave_room m player_id = elim (find_at m.player_rooms player_id) [
  | none ↦ m
  | some id ↦ elim (find_text m.rooms id) [
    | none ↦ m
    | some room ↦
        remove_player_from_room (record m { rooms = put_text m.rooms id (leave room player_id) })
          player_id
  ]
]
