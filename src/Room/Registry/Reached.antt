-- ===== src/Room/Registry/Reached.antt =====
-- The calls on the manager, in any order. A call on one room reaches it through its pointer.

use gd_server.Base.{Bool, List, Option, String, find_text, put_text, some, true, ℕ, ◌<◌, ◌≡◌}
use gd_server.Room.Data.{PlayerJoinInfo, Room, contains_player, k_bot_id_base}
use gd_server.Room.Registry.{
  RoomManager, create_room, find_room_by_player, handle_leave_room, join_room, new_manager,
  remove_room, set_room_executor,
}
use gd_server.Room.Registry.Leaving.{handle_leave_room-IsConsistent, remove_room-IsConsistent}
use gd_server.Room.Registry.Members.{
  IsConsistent, changes-IsConsistent, create_room-IsConsistent, join_room-IsConsistent,
}

-- What the server does to its rooms: it puts bots into a room and takes players out of it, but takes
-- a player in by the manager alone.
pub data RegistryStep (m : RoomManager) : RoomManager → Type 0 where
  makes :
      (ids : List String) (owner : ℕ) (info : PlayerJoinInfo) (mode : String) (n : RoomManager)
      (made : Option String)
      → create_room ids m owner info mode ≡ some (n, made)
      → RegistryStep m n
  admits : (id : String) (a : ℕ) (info : PlayerJoinInfo) → RegistryStep m (join_room m id a info).0
  closes : (id : String) → RegistryStep m (remove_room m id)
  lets_go : (a : ℕ) → RegistryStep m (handle_leave_room m a)
  runs : (b : Bool) → RegistryStep m (set_room_executor m b)
  alters :
      (id : String) (r s : Room)
      → find_text m.rooms id ≡ some r
      → ((a : ℕ) → a < k_bot_id_base → contains_player s a ≡ true → contains_player r a ≡ true)
      → RegistryStep m (record m { rooms = put_text m.rooms id s })

pub data RegistryReach : RoomManager → Type 0 where
  start_up : RegistryReach new_manager
  call : {m n : RoomManager} → RegistryReach m → RegistryStep m n → RegistryReach n

RegistryStep-IsConsistent : {m n : RoomManager} → RegistryStep m n → IsConsistent m → IsConsistent n
unfolding set_room_executor
RegistryStep-IsConsistent {m = m} (makes ids owner info mode n made h) c =
    create_room-IsConsistent ids m n owner info mode made h c
RegistryStep-IsConsistent {m = m} (admits id a info) c = join_room-IsConsistent m id a info c
RegistryStep-IsConsistent {m = m} (closes id) c = remove_room-IsConsistent m id c
RegistryStep-IsConsistent {m = m} (lets_go a) c = handle_leave_room-IsConsistent m a c
RegistryStep-IsConsistent (runs b) c = record { members = c.members }
RegistryStep-IsConsistent {m = m} (alters id r s at_id fewer) c =
    changes-IsConsistent m id r s at_id fewer c

RegistryReach-IsConsistent : {m : RoomManager} → RegistryReach m → IsConsistent m
RegistryReach-IsConsistent start_up = record { members = λ id r a h k human. absurd (cc h) }
RegistryReach-IsConsistent (call before step) =
    RegistryStep-IsConsistent step (RegistryReach-IsConsistent before)

-- Whatever has been called on the manager, in any order, a player who is no bot and is in a room is
-- found in that room by the look-up, and so is in no second one. Calls on a room itself take no
-- player in.
pub reached_player_room :
    (m : RoomManager) (id : String) (r : Room) (a : ℕ)
    → RegistryReach m
    → find_text m.rooms id ≡ some r
    → contains_player r a ≡ true
    → a < k_bot_id_base
    → (find_room_by_player m a ≡ some r)
      × ((other : String) (s : Room)
          → find_text m.rooms other ≡ some s
          → contains_player s a ≡ true
          → other ≡ id)
unfolding find_room_by_player
reached_player_room m id r a reach h k human =
    let c = RegistryReach-IsConsistent reach in
    let there = c.members id r a h k human in
    (rw there h, λ other s h' k'. cc (there, c.members other s a h' k' human))
