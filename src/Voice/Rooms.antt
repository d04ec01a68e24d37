-- ===== src/Voice/Rooms.antt =====
-- voice_room_manager.h and voice_room_manager.cpp: who talks to whom, and at which address. The maps
-- are association lists; the clock is an argument, in the ticks that idleness is measured in.
pub mod Members
pub mod Kept
pub mod Peers
use text.Mathlib.Text.{◌==◌ as str_eq}
use gd_server.Base.{
  List, Option, String, [], elem, erase_at, erase_text, find_at, find_text, if◌then◌else◌, is_empty,
  ltb, none, put_at, put_text, remove_all, some, ℕ, ◌++◌, ◌-◌, ◌==◌, ◌>>=◌, ◌∷◌,
}

pub record VoiceSocketAddr : Type 0 where
  pub address : ℕ
  pub port : ℕ

pub record VoiceClient : Type 0 where
  pub user_id : ℕ
  pub room_id : String
  pub addr : VoiceSocketAddr
  pub last_seen : ℕ

pub record VoiceRoomManager : Type 0 where
  pub clients : List (ℕ × VoiceClient)
  pub room_members : List (String × List ℕ)

-- `VoiceRoomManager{}`.
abbrev pub no_voices : VoiceRoomManager
no_voices = record { clients = []; room_members = [] }

unfoldable pub remove_from_room : List (String × List ℕ) → String → ℕ → List (String × List ℕ)
remove_from_room rooms room_id user_id = elim (find_text rooms room_id) [
  | none ↦ rooms
  | some members ↦
      let left = remove_all members user_id in
      if is_empty left then erase_text rooms room_id else put_text rooms room_id left
]

-- The members of a room, and none where there is no such room.
abbrev pub members_of : List (String × List ℕ) → String → List ℕ
members_of rooms room_id = elim (find_text rooms room_id) [ none ↦ [] | some members ↦ members ]

-- The end of `join`.
unfoldable pub add_member : List (String × List ℕ) → String → ℕ → List (String × List ℕ)
add_member rooms room_id user_id =
    let members = members_of rooms room_id in
    put_text rooms room_id (if elem user_id members then members else members ++ user_id ∷ [])

-- The user's old room, if it is another one, without the user.
unfoldable pub leave_old : VoiceRoomManager → ℕ → String → List (String × List ℕ)
unfolding remove_from_room
leave_old m user_id room_id = elim (find_at m.clients user_id) [
  | none ↦ m.room_members
  | some old ↦
      let left = remove_from_room m.room_members old.room_id user_id in
      if str_eq old.room_id room_id then m.room_members else left
]

unfoldable pub join_voice_room :
    VoiceRoomManager → ℕ → ℕ → String → VoiceSocketAddr → VoiceRoomManager
unfolding leave_old add_member
join_voice_room m now user_id room_id addr =
    let client : VoiceClient = record {
      user_id = user_id;
      room_id = room_id;
      addr = addr;
      last_seen = now;
    } in
    record {
      clients = put_at m.clients user_id client;
      room_members = add_member (leave_old m user_id room_id) room_id user_id;
    }

unfoldable pub leave_voice_room : VoiceRoomManager → ℕ → VoiceRoomManager
unfolding remove_from_room
leave_voice_room m user_id = elim (find_at m.clients user_id) [
  | none ↦ m
  | some client ↦ record {
    clients = erase_at m.clients user_id;
    room_members = remove_from_room m.room_members client.room_id user_id;
  }
]

unfoldable pub touch_voice : VoiceRoomManager → ℕ → ℕ → VoiceSocketAddr → VoiceRoomManager
touch_voice m now user_id addr = elim (find_at m.clients user_id) [
  | none ↦ m
  | some client ↦ record m {
    clients = put_at m.clients user_id (record client { addr = addr; last_seen = now });
  }
]

-- The loop of `peersExcept` over the members.
pub peers_in : List (ℕ × VoiceClient) → ℕ → List ℕ → List VoiceSocketAddr
peers_in clients user_id [] = []
peers_in clients user_id (member ∷ members) =
    let rest = peers_in clients user_id members in
    let found : List VoiceSocketAddr = elim (find_at clients member) [
      | none ↦ rest
      | some c ↦ c.addr ∷ rest
    ] in
    if member == user_id then rest else found

unfoldable pub peers_except : VoiceRoomManager → ℕ → String → List VoiceSocketAddr
unfolding peers_in
peers_except m user_id room_id = peers_in m.clients user_id (members_of m.room_members room_id)

unfoldable pub room_id_for_user : VoiceRoomManager → ℕ → Option String
room_id_for_user m user_id = find_at m.clients user_id >>= λ c. some c.room_id

-- The loop of `pruneIdle` over the clients there were.
pub prune_from : ℕ → ℕ → List (ℕ × VoiceClient) → VoiceRoomManager → VoiceRoomManager
prune_from now max_idle [] m = m
prune_from now max_idle ((id, c) ∷ clients) m =
    prune_from now max_idle clients
      (if ltb max_idle (now - c.last_seen) then leave_voice_room m id else m)

unfoldable pub prune_idle : VoiceRoomManager → ℕ → ℕ → VoiceRoomManager
unfolding prune_from
prune_idle m now max_idle = prune_from now max_idle m.clients m
