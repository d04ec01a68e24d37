-- ===== src/Room/Seats.antt =====
-- server/src/room/room.cpp: who is in the room, on which seat.
pub mod Taken
pub mod Kept
pub mod Filled
pub mod Joined
use text.Mathlib.Text.{◌==◌ as str_eq}
use gd_server.Base.{
  Bool, List, Option, String, [], any, false, if◌then◌else◌, keep, leb, none, not, some, suc, true,
  zero, ℕ, ◌%◌, ◌&&◌, ◌++◌, ◌+◌, ◌==◌, ◌||◌, ◌∷◌,
}
use gd_server.Engine.Table.{set_player_ready}
use gd_server.Room.Data.{
  PlayerJoinInfo, Room, RoomPlayer, contains_player, empty_room_player, in_settlement, in_waiting,
  is_bot_player, is_full, is_seat_taken, k_bot_id_base, room_phase_eq,
}

-- The loop of `firstEmptySeat`, with `k` seats left, at seat `i`.
first_empty_from : Room → ℕ → ℕ → Option ℕ
first_empty_from r zero i = none
first_empty_from r (suc k) i =
    let rest = first_empty_from r k (i + 1) in if not (is_seat_taken r i 0) then some i else rest

unfoldable pub first_empty_seat : Room → Option ℕ
unfolding first_empty_from
first_empty_seat r = first_empty_from r r.config.max_players 0

-- The names of the bots: `kBotNames[botIndex % 5]`.
pub bot_name : ℕ → String
bot_name n =
    if n == 0
    then "机器人A"
    else if n == 1
    then "机器人B"
    else if n == 2
    then "机器人C"
    else if n == 3
    then "机器人D"
    else "机器人E"

abbrev pub bot_at : ℕ → ℕ → RoomPlayer
bot_at seat bot_index = record empty_room_player {
  id = k_bot_id_base + (bot_index + 1);
  nickname = bot_name (bot_index % 5);
  seat_index = some seat;
  is_ready = true;
  is_owner = false;
  is_bot = true;
}

unfoldable pub add_bot_at_seat : Room → ℕ → ℕ → Room × Bool
add_bot_at_seat r seat_index bot_index =
    if leb r.config.max_players seat_index
    then (r, false)
    else if is_seat_taken r seat_index 0
    then (r, false)
    else (record r { players = r.players ++ bot_at seat_index bot_index ∷ [] }, true)

-- One round of the loop of `fillBots`: the room, or `none` where the loop ends.
unfoldable pub fill_step : Room → ℕ → Option Room
unfolding first_empty_seat add_bot_at_seat
fill_step r bot_index = if is_full r then none else elim (first_empty_seat r) [
  | none ↦ none
  | some seat ↦
      let added = add_bot_at_seat r seat bot_index in if added.1 then some added.0 else none
]

-- The loop with fuel; each round adds a player.
unfoldable pub fill_from : ℕ → Room → ℕ → Room
unfolding fill_step
fill_from zero r bot_index = r
fill_from (suc fuel) r bot_index = elim (fill_step r bot_index) [
  | none ↦ r
  | some next ↦ fill_from fuel next (bot_index + 1)
]

unfoldable pub fill_bots : Room → Room
unfolding fill_from
fill_bots r = fill_from r.config.max_players r 0

abbrev pub joiner : Room → ℕ → PlayerJoinInfo → ℕ → RoomPlayer
joiner r player_id info seat = record empty_room_player {
  id = player_id;
  nickname = info.nickname;
  avatar = info.avatar;
  avatar_preset = info.avatar_preset;
  seat_index = some seat;
  is_owner = player_id == r.owner_id;
}

unfoldable pub join : Room → ℕ → PlayerJoinInfo → Room × Bool
join r player_id info =
    if is_bot_player player_id
    then (r, false)
    else if is_full r
    then (r, false)
    else if contains_player r player_id
    then (r, false)
    else elim (first_empty_seat r) [
      | none ↦ (r, false)
      | some seat ↦ (record r { players = r.players ++ joiner r player_id info seat ∷ [] }, true)
    ]

-- A loop that changes the first player that passes a test, if there is one.
pub change_first :
    (RoomPlayer → Bool) → (RoomPlayer → RoomPlayer) → List RoomPlayer → List RoomPlayer
change_first test change [] = []
change_first test change (p ∷ ps) =
    let rest = change_first test change ps in if test p then change p ∷ ps else p ∷ rest

abbrev pub with_profile : PlayerJoinInfo → RoomPlayer → RoomPlayer
with_profile info p = record p {
  nickname = if not (str_eq info.nickname "") then info.nickname else p.nickname;
  avatar = info.avatar;
  avatar_preset = info.avatar_preset;
}

unfoldable pub sync_player_profile : Room → ℕ → PlayerJoinInfo → Room × Bool
unfolding change_first
sync_player_profile r player_id info =
    let wanted = λ (p : RoomPlayer). p.id == player_id && not p.is_bot in
    if is_bot_player player_id || not (any wanted r.players)
    then (r, false)
    else (record r { players = change_first wanted (with_profile info) r.players }, true)

unfoldable pub leave : Room → ℕ → Room
leave r player_id =
    if is_bot_player player_id
    then r
    else record r { players = keep (λ p. not (p.id == player_id)) r.players }

-- The phases in which players say that they are ready.
abbrev pub may_prepare : Room → Bool
may_prepare r = room_phase_eq r.phase in_waiting || room_phase_eq r.phase in_settlement

-- The first player with the id, as `ready` finds it.
pub find_player : List RoomPlayer → ℕ → Option RoomPlayer
find_player [] id = none
find_player (p ∷ ps) id = if p.id == id then some p else find_player ps id

unfoldable pub ready : Room → ℕ → Room × Bool
unfolding change_first find_player
ready r player_id =
    if not (may_prepare r) then (r, false) else elim (find_player r.players player_id) [
      | none ↦ (r, false)
      | some p ↦ (
        record r {
          players =
              change_first (λ q. q.id == player_id) (λ q. record q { is_ready = true }) r.players;
          engine = if p.is_bot then r.engine else set_player_ready r.engine player_id true;
        },
        true,
      )
    ]

unfoldable pub unready : Room → ℕ → Room × Bool
unfolding change_first
unready r player_id =
    if not (may_prepare r) || is_bot_player player_id || not (contains_player r player_id)
    then (r, false)
    else (
      record r {
        players =
            change_first (λ q. q.id == player_id) (λ q. record q { is_ready = false }) r.players;
      },
      true,
    )

abbrev pub moved_to : ℕ → RoomPlayer → RoomPlayer
moved_to seat p = record p { seat_index = some seat; is_ready = false }

unfoldable pub change_seat : Room → ℕ → Option ℕ → Room × Bool
unfolding change_first
change_seat r player_id none = (r, false)
change_seat r player_id (some seat) =
    if not (room_phase_eq r.phase in_waiting)
      || is_bot_player player_id
      || leb r.config.max_players seat
      || is_seat_taken r seat player_id
      || not (contains_player r player_id)
    then (r, false)
    else (
      record r { players = change_first (λ q. q.id == player_id) (moved_to seat) r.players },
      true,
    )
