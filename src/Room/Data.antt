-- ===== src/Room/Data.antt =====
-- server/include/room/room.h: a room and its players. The maps of the room are association lists.
-- The task queue and the broadcast callback are no part of the state modelled here.

use gd_server.Base.{
  Bool, List, Option, String, [], any, false, is_empty, leb, length, none, not, some, true, ℕ, ◌%◌,
  ◌&&◌, ◌+◌, ◌==◌, ◌^◌,
}
use gd_server.Cards.{PlayerStatus, RoomConfig, online, to_game_rule_config}
use gd_server.Engine.Table.{GameEngine, new_engine}
use gd_server.Room.Vote.{DismissVote, no_vote}
use gd_server.Turns.{seat_eq}

abbrev pub k_bot_id_base : ℕ
k_bot_id_base = 9000000000

abbrev pub is_bot_player : ℕ → Bool
is_bot_player id = leb k_bot_id_base id

pub data RoomPhase : Type 0 where
  created in_waiting in_play in_settlement over : RoomPhase

abbrev pub room_phase_eq : RoomPhase → RoomPhase → Bool
room_phase_eq created created = true
room_phase_eq in_waiting in_waiting = true
room_phase_eq in_play in_play = true
room_phase_eq in_settlement in_settlement = true
room_phase_eq over over = true
room_phase_eq _ _ = false

pub record PlayerJoinInfo : Type 0 where
  pub nickname : String
  pub avatar : String
  pub avatar_preset : String

pub record RoomPlayer : Type 0 where
  pub id : ℕ
  pub nickname : String
  pub avatar : String
  pub avatar_preset : String
  pub seat_index : Option ℕ
  pub is_ready : Bool
  pub is_owner : Bool
  pub is_bot : Bool
  pub status : PlayerStatus

-- `RoomPlayer{}`.
abbrev pub empty_room_player : RoomPlayer
empty_room_player = record {
  id = 0;
  nickname = "";
  avatar = "";
  avatar_preset = "";
  seat_index = none;
  is_ready = false;
  is_owner = false;
  is_bot = false;
  status = online;
}

pub record Room : Type 0 where
  pub room_id : String
  pub owner_id : ℕ
  pub config : RoomConfig
  pub phase : RoomPhase
  pub players : List RoomPlayer
  pub engine : GameEngine
  pub dismiss_vote : DismissVote
  pub spectate_targets : List (ℕ × ℕ)
  pub emotion_event_id : ℕ

-- The constructor.
abbrev pub new_room : String → ℕ → RoomConfig → Room
new_room room_id owner_id config = record {
  room_id = room_id;
  owner_id = owner_id;
  config = config;
  phase = in_waiting;
  players = [];
  engine = new_engine (to_game_rule_config config);
  dismiss_vote = no_vote;
  spectate_targets = [];
  emotion_event_id = 0;
}

unfoldable pub is_full : Room → Bool
is_full r = leb r.config.max_players (length r.players)

unfoldable pub is_room_empty : Room → Bool
is_room_empty r = is_empty r.players

abbrev pub sits_at : Option ℕ → RoomPlayer → Bool
sits_at seat p = seat_eq p.seat_index seat

-- `isSeatTaken(seat, exceptId)`; the default for `exceptId` is 0.
unfoldable pub is_seat_taken : Room → ℕ → ℕ → Bool
is_seat_taken r seat except_id =
    any (λ p. sits_at (some seat) p && not (p.id == except_id)) r.players

unfoldable pub contains_player : Room → ℕ → Bool
contains_player r player_id = any (λ p. p.id == player_id) r.players

-- The event ids are 64 bits wide.
unfoldable pub next_emotion_event_id : Room → Room × ℕ
next_emotion_event_id r =
    let n = (r.emotion_event_id + 1) % 2 ^ 64 in (record r { emotion_event_id = n }, n)
