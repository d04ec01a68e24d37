-- ===== src/Dispatch/Data.antt =====
-- message.h and the members of message_dispatcher.h: the messages, the server's state, and what a
-- call gives off. The JSON text of an answer is kept as the values that it is written from.

use gd_server.Auth.Users.{AuthService}
use gd_server.Base.{
  Bool, List, Option, String, [], find_at, find_text, none, put_text, some, ℕ, ◌>>=◌, ◌∷◌,
}
use gd_server.Cards.{Card, ErrorCode, not_in_room, ok}
use gd_server.Engine.View.{PlayerView}
use gd_server.Network.Sessions.{SessionManager, resolve_player_id}
use gd_server.Progress.Settlement.{SettlementResult}
use gd_server.Room.Data.{PlayerJoinInfo, Room, RoomPhase, RoomPlayer}
use gd_server.Room.Emotion.{EmotionRateLimiter}
use gd_server.Room.Registry.{RoomManager}
use gd_server.Room.Vote.{DismissVote}
use gd_server.State.{PlayerState}
use gd_server.Tribute.Data.{TributeRoundResult}

pub record Message : Type 0 where
  pub protocol_version : ℕ
  pub type : String
  pub request_id : ℕ
  pub room_id : String
  pub turn_id : ℕ
  pub state_version : ℕ
  pub error_code : ErrorCode
  pub data_json : String
  pub cards : List ℕ
  pub token : String

-- `dataJson` of an answer.
pub data Payload : Type 0 where
  no_data : Payload
  login_data : ℕ → String → Option Room → Payload
  created_data : String → String → ℕ → Payload
  room_data : Room → Payload
  player_data : ℕ → Payload
  named_data : ℕ → String → Payload
  seat_data : ℕ → ℕ → Payload
  options_data : Bool → Payload
  view_data : PlayerView → Room → Payload
  tribute_data : TributeRoundResult → Payload
  played_data : ℕ → List ℕ → ℕ → Bool → ℕ → Option ℕ → ℕ → ℕ → Payload
  passed_data : ℕ → Option ℕ → Option ℕ → Bool → ℕ → ℕ → Payload
  settled_data : SettlementResult → List PlayerState → Payload
  chat_data : ℕ → ℕ → String → Bool → Payload
  emotion_data : ℕ → ℕ → ℕ → ℕ → ℕ → Payload
  emotion_refused : String → Payload
  speaking_data : ℕ → Bool → Payload
  voice_data : ℕ → Bool → Bool → Payload
  signal_data : ℕ → String → String → String → String → String → Option (Option ℕ) → Payload
  access_data : String → String → Payload
  vote_data : DismissVote → Payload

-- A message that goes out.
pub record Answer : Type 0 where
  pub type : String
  pub request_id : ℕ
  pub room_id : String
  pub error_code : ErrorCode
  pub content : Payload

-- `Message{}`.
abbrev pub blank_answer : Answer
blank_answer = record {
  type = "";
  request_id = 0;
  room_id = "";
  error_code = ok;
  content = no_data;
}

-- What is put on the task queue of a room.
pub data Task : Type 0 where
  bot_turn : ℕ → Task
  bot_tributes : Task
  sync_profile : ℕ → ℕ → PlayerJoinInfo → RoomPhase → Task
  show_state : Task
  handle_message : ℕ → Message → Task

-- What a call does outside the server's state: an answer to a session, a message to a player, a
-- task for a room, a timer for a task, and a timer that is taken back.
pub data Effect : Type 0 where
  sends : ℕ → Answer → Effect
  pushes : ℕ → Answer → Effect
  posts : String → Task → Effect
  sets_timer : String → ℕ → String → Task → Effect
  cancels_timer : String → Effect

pub record Server : Type 0 where
  pub manager : RoomManager
  pub sessions : SessionManager
  pub auth : AuthService
  pub limiter : EmotionRateLimiter
  pub live_kit_enabled : Bool

abbrev pub turn_timeout_seconds : ℕ
turn_timeout_seconds = 30

-- What a call takes from outside: `std::to_string`, the shuffle, the room ids that are drawn, the
-- clocks, and the access token for a room, an identity and a name.
pub record Env : Type 0 where
  pub to_string : ℕ → String
  pub shuffle : List Card → List Card
  pub room_ids : List String
  pub steady_ms : ℕ
  pub steady_hours : ℕ
  pub server_time_ms : ℕ
  pub access_token : String → String → String → String

-- A handler's result, and that of a call on one room; `none` is a call that throws.
abbrev pub Out : Type 0
Out = Option (Server × List Effect)

abbrev pub RoomOut : Type 0
RoomOut = Option (Room × List Effect)

-- `sendError`.
abbrev pub send_error : ℕ → Message → ErrorCode → Effect
send_error session msg code =
    sends session
      (record blank_answer { type = "error"; request_id = msg.request_id; error_code = code })

-- An answer of a type to a request about a room.
abbrev pub answer : String → Message → Room → Payload → Answer
answer type msg room content = record blank_answer {
  type = type;
  request_id = msg.request_id;
  room_id = room.room_id;
  content = content;
}

-- A message of a type about a room that answers no request.
abbrev pub news : String → Room → Payload → Answer
news type room content = record blank_answer {
  type = type;
  room_id = room.room_id;
  content = content;
}

-- The loop of `broadcastToRoom`.
push_all : List RoomPlayer → Answer → List Effect
push_all [] a = []
push_all (p ∷ ps) a = pushes p.id a ∷ push_all ps a

unfoldable pub broadcast_to_room : Room → Answer → List Effect
unfolding push_all
broadcast_to_room room a = push_all room.players a

-- `room_state` to all.
abbrev pub broadcast_state : Room → List Effect
broadcast_state room = broadcast_to_room room (news "room_state" room (room_data room))

-- The room with the id, as the shared pointer reaches it.
abbrev pub put_room : Server → String → Room → Server
put_room s id room = record s {
  manager = record (s.manager) { rooms = put_text s.manager.rooms id room };
}

abbrev pub save_room : Server → String → RoomOut → Out
save_room s id out = out >>= λ (o : Room × List Effect). some (put_room s id o.0, o.1)

abbrev pub refuse : Server → ℕ → Message → ErrorCode → Out
refuse s session msg code = some (s, send_error session msg code ∷ [])

-- The room of a player with its id.
unfoldable pub room_of : RoomManager → ℕ → Option (String × Room)
room_of m player_id =
    find_at m.player_rooms player_id >>= λ id. find_text m.rooms id >>= λ r. some (id, r)

-- How most handlers begin: the player of the session, and the room of the player.
unfoldable pub with_room : Env → Server → ℕ → Message → (Server → ℕ → String → Room → Out) → Out
with_room env s session msg rest =
    let (sessions, player_id) = resolve_player_id env.to_string s.sessions session in
    let known = record s { sessions = sessions } in
    elim (room_of s.manager player_id) [
      | none ↦ refuse known session msg not_in_room
      | some (id, room) ↦ rest known player_id id room
    ]
