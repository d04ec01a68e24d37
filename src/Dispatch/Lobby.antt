-- ===== src/Dispatch/Lobby.antt =====
-- message_dispatcher.cpp: the requests of players outside a game.
use text.Mathlib.Text.{◌==◌ as str_eq}
use gd_server.Auth.Users.{AuthService, UserRecord, user_of_token}
use gd_server.Base.{
  List, Option, String, [], if◌then◌else◌, none, not, some, ℕ, ◌++◌, ◌==◌, ◌>>=◌, ◌∷◌,
}
use gd_server.Cards.{
  ErrorCode, already_in_room, invalid_state, not_room_owner, room_full, room_not_found,
  unauthorized,
}
use gd_server.Dispatch.Data.{
  Effect, Env, Message, Out, Server, answer, blank_answer, broadcast_state, broadcast_to_room,
  created_data, login_data, named_data, news, options_data, player_data, posts, put_room, refuse,
  room_data, save_room, seat_data, sends, show_state, sync_profile, with_room,
}
use gd_server.Dispatch.Rounds.{try_start_next_round}
use gd_server.Dispatch.Wire.{
  as_int, extract_json_bool_from_data, extract_json_string_from_data, extract_json_uint_from_data,
}
use gd_server.Engine.Table.{done}
use gd_server.Network.Sessions.{
  SessionManager, authenticate, bind_player, ensure_session, get_session, resolve_player_id,
}
use gd_server.Room.Data.{PlayerJoinInfo, Room, is_full, is_room_empty, over, room_phase_eq}
use gd_server.Room.Registry.{
  RoomManager, create_room, find_room_by_player, get_room, handle_leave_room, join_room,
}
use gd_server.Room.Rounds.{set_enable_tribute}
use gd_server.Room.Seats.{change_seat, ready, unready}

unfoldable pub join_info_from_user : UserRecord → PlayerJoinInfo
join_info_from_user user = record {
  nickname = user.nickname;
  avatar = user.avatar;
  avatar_preset = user.avatar_preset;
}

-- `info` with a name and nothing else.
abbrev pub named_only : String → PlayerJoinInfo
named_only nickname = record { nickname = nickname; avatar = ""; avatar_preset = "" }

-- The service afterwards, and the profile.
unfoldable pub join_info_from_session :
    AuthService → SessionManager → ℕ → ℕ → AuthService × PlayerJoinInfo
unfolding join_info_from_user
join_info_from_session auth sessions now session_id = elim (get_session sessions session_id) [
  | none ↦ (auth, named_only "Player")
  | some session ↦
      let own = named_only (if str_eq session.nickname "" then "Player" else session.nickname) in
      let (checked, found) = user_of_token auth now session.token in
      if str_eq session.token ""
      then (auth, own)
      else elim found [ some user ↦ (checked, join_info_from_user user) | none ↦ (checked, own) ]
]

-- Is the player back in a room that has not ended?
abbrev pub live_room : Option Room → Option Room
live_room none = none
live_room (some room) = if room_phase_eq room.phase over then none else some room

-- The task that follows a login into a room.
abbrev rejoin : ℕ → ℕ → PlayerJoinInfo → Option Room → List Effect
rejoin session player_id profile none = []
rejoin session player_id profile (some room) =
    posts room.room_id (sync_profile session player_id profile room.phase) ∷ []

-- The part of `handleLogin` that follows the check of the token.
unfoldable pub login_as : Env → Server → ℕ → Message → UserRecord → Out
unfolding join_info_from_user
login_as env s session msg user =
    let known = ensure_session s.sessions session in
    let (bound, player_id) = bind_player known session user.id user.nickname in
    let sessions = (authenticate bound session msg.token).0 in
    let room = live_room (find_room_by_player s.manager player_id) in
    let result = record blank_answer {
      type = "login_result";
      request_id = msg.request_id;
      content = login_data player_id user.nickname room;
    } in
    some (
      record s { sessions = sessions },
      sends session result ∷ rejoin session player_id (join_info_from_user user) room,
    )

unfoldable pub handle_login : Env → Server → ℕ → Message → Out
unfolding login_as
handle_login env s session msg =
    let (auth, found) = user_of_token s.auth env.steady_hours msg.token in
    let known = record s { auth = auth } in
    elim found [
      | none ↦ refuse known session msg unauthorized
      | some user ↦ login_as env known session msg user
    ]

abbrev pub mode_asked : Message → String
mode_asked msg =
    let mode = extract_json_string_from_data msg.data_json "mode" in
    if str_eq mode "" then "six" else mode

-- The answers to a room that has been made: `config().modeName` and `config().maxPlayers` are those
-- of the room.
unfoldable pub room_made : Server → ℕ → Message → RoomManager × Option String → Out
room_made s session msg (manager, none) =
    refuse (record s { manager = manager }) session msg already_in_room
room_made s session msg (manager, some id) = get_room manager id >>= λ (room : Room).
    let made = record blank_answer {
      type = "room_created";
      request_id = msg.request_id;
      content = created_data room.room_id room.config.mode_name room.config.max_players;
    } in
    some (record s { manager = manager }, sends session made ∷ posts room.room_id show_state ∷ [])

unfoldable pub handle_create_room : Env → Server → ℕ → Message → Out
unfolding room_made
handle_create_room env s session msg =
    let (sessions, player_id) = resolve_player_id env.to_string s.sessions session in
    let (auth, profile) = join_info_from_session s.auth sessions env.steady_hours session in
    let known = record s { sessions = sessions; auth = auth } in
    create_room env.room_ids s.manager player_id profile (mode_asked msg) >>= λ made.
    room_made known session msg made

-- Why a player did not get into a room.
unfoldable pub join_refusal : Option Room → ErrorCode
join_refusal none = room_not_found
join_refusal (some room) = if is_full room then room_full else already_in_room

-- The answers to a player who has got into a room.
unfoldable pub room_joined : Server → ℕ → Message → ℕ → String → Option Room → Out
room_joined s session msg player_id nickname none = none
room_joined s session msg player_id nickname (some room) =
    let joined = record (answer "room_joined" msg room (room_data room)) {
      room_id = msg.room_id;
    } in
    some (
      s,
      sends session joined
            ∷ broadcast_to_room room (news "player_joined" room (named_data player_id nickname))
          ++ broadcast_state room,
    )

unfoldable pub handle_join_room : Env → Server → ℕ → Message → Out
unfolding join_refusal room_joined
handle_join_room env s session msg =
    let (sessions, player_id) = resolve_player_id env.to_string s.sessions session in
    let (auth, profile) = join_info_from_session s.auth sessions env.steady_hours session in
    let (manager, joined) = join_room s.manager msg.room_id player_id profile in
    let known = record s { manager = manager; sessions = sessions; auth = auth } in
    let room = get_room manager msg.room_id in
    if joined
    then room_joined known session msg player_id profile.nickname room
    else refuse known session msg (join_refusal room)

-- What those who stay in the room get to hear.
abbrev left_news : Option Room → List Effect
left_news none = []
left_news (some room) = if is_room_empty room then [] else broadcast_state room

unfoldable pub handle_leave : Env → Server → ℕ → Message → Out
handle_leave env s session msg = with_room env s session msg λ known player_id id room.
    let manager = handle_leave_room known.manager player_id in
    let gone = record blank_answer {
      type = "player_left";
      request_id = msg.request_id;
      content = player_data player_id;
    } in
    some (
      record known { manager = manager },
      sends session gone ∷ left_news (get_room manager room.room_id),
    )

-- The answer of the room to `ready` is not looked at.
unfoldable pub handle_ready : Env → Server → ℕ → Message → Out
handle_ready env s session msg = with_room env s session msg λ known player_id id room.
    let prepared = (ready room player_id).0 in
    let told =
      broadcast_to_room prepared (answer "player_ready" msg prepared (player_data player_id))
      ++ broadcast_state prepared in
    save_room known id
      (try_start_next_round env prepared >>= λ (o : Room × List Effect). some (o.0, told ++ o.1))

unfoldable pub handle_unready : Env → Server → ℕ → Message → Out
handle_unready env s session msg = with_room env s session msg λ known player_id id room.
    let (hesitant, changed) = unready room player_id in
    let told =
      broadcast_to_room hesitant (answer "player_unready" msg hesitant (player_data player_id))
      ++ broadcast_state hesitant in
    if not changed
    then refuse known session msg invalid_state
    else some (put_room known id hesitant, told)

-- `seat_index`, as an `int`: `none` is negative.
abbrev pub int_field : Message → String → Option ℕ
int_field msg key = as_int (extract_json_uint_from_data msg.data_json key)

unfoldable pub handle_change_seat : Env → Server → ℕ → Message → Out
handle_change_seat env s session msg = with_room env s session msg λ known player_id id room.
    elim (int_field msg "seat_index") [
      | none ↦ refuse known session msg invalid_state
      | some seat ↦
          let (moved, changed) = change_seat room player_id (some seat) in
          let told =
            broadcast_to_room moved (answer "seat_changed" msg moved (seat_data player_id seat))
            ++ broadcast_state moved in
          if not changed
          then refuse known session msg invalid_state
          else some (put_room known id moved, told)
    ]

unfoldable pub handle_set_room_options : Env → Server → ℕ → Message → Out
handle_set_room_options env s session msg = with_room env s session msg λ known player_id id room.
    let enable = extract_json_bool_from_data msg.data_json "enable_tribute" in
    let (changed, done) = set_enable_tribute room player_id enable in
    let updated = answer "room_options_updated" msg changed (options_data enable) in
    if not (room.owner_id == player_id)
    then refuse known session msg not_room_owner
    else if not done
    then refuse known session msg invalid_state
    else some (put_room known id changed, sends session updated ∷ broadcast_state changed)
