-- ===== src/Dispatch/Route.antt =====
-- message_dispatcher.cpp: which handler a message gets to, and on which queue.
use text.Mathlib.Text.{◌==◌ as str_eq}
use gd_server.Base.{
  Bool, List, Option, String, [], if◌then◌else◌, ltb, none, not, some, ℕ, ◌&&◌, ◌>>=◌, ◌∷◌,
}
use gd_server.Cards.{invalid_message, unknown_type}
use gd_server.Dispatch.Bots.{execute_bot_tribute_actions, execute_bot_turn}
use gd_server.Dispatch.Data.{
  Effect, Env, Message, Out, Server, Task, blank_answer, bot_tributes, bot_turn, broadcast_state,
  handle_message, news, posts, refuse, room_data, save_room, sends, show_state, sync_profile,
}
use gd_server.Dispatch.Dismiss.{handle_request_dismiss, handle_vote_dismiss}
use gd_server.Dispatch.Lobby.{
  handle_change_seat, handle_create_room, handle_join_room, handle_leave, handle_login,
  handle_ready, handle_set_room_options, handle_unready,
}
use gd_server.Dispatch.Play.{
  handle_pass, handle_play_cards, handle_start_game, handle_submit_return, handle_submit_tribute,
}
use gd_server.Dispatch.Rounds.{send_player_view}
use gd_server.Dispatch.Talk.{
  handle_ping, handle_reconnect, handle_seat_chat, handle_send_emotion, handle_spectate_teammate,
  handle_voice_join, handle_voice_signal, handle_voice_speaking, handle_voice_state,
}
use gd_server.Network.Sessions.{resolve_player_id}
use gd_server.Room.Data.{Room, RoomPhase, in_play, in_settlement, room_phase_eq}
use gd_server.Room.Registry.{RoomManager, find_room_by_player, get_room}
use gd_server.Room.Seats.{sync_player_profile}

-- What a message asks for, by its type.
pub data Kind : Type 0 where
  login create_room_kind join_room_kind leave_room ready_kind unready_kind : Kind
  change_seat_kind set_room_options start_game_kind play_cards_kind pass_kind : Kind
  submit_tribute_kind submit_return_kind spectate_teammate reconnect : Kind
  request_dismiss_kind vote_dismiss_kind voice_state seat_chat send_emotion_kind : Kind
  voice_speaking voice_join voice_signal ping unknown_kind : Kind

kind_in : List (String × Kind) → String → Kind
kind_in [] type = unknown_kind
kind_in ((name, kind) ∷ kinds) type = if str_eq type name then kind else kind_in kinds type

abbrev pub known_kinds : List (String × Kind)
known_kinds =
    ("login", login)
    ∷ ("create_room", create_room_kind)
    ∷ ("join_room", join_room_kind)
    ∷ ("leave_room", leave_room)
    ∷ ("ready", ready_kind)
    ∷ ("unready", unready_kind)
    ∷ ("change_seat", change_seat_kind)
    ∷ ("set_room_options", set_room_options)
    ∷ ("start_game", start_game_kind)
    ∷ ("play_cards", play_cards_kind)
    ∷ ("pass", pass_kind)
    ∷ ("submit_tribute", submit_tribute_kind)
    ∷ ("submit_return", submit_return_kind)
    ∷ ("spectate_teammate", spectate_teammate)
    ∷ ("reconnect", reconnect)
    ∷ ("request_dismiss", request_dismiss_kind)
    ∷ ("vote_dismiss", vote_dismiss_kind)
    ∷ ("voice_state", voice_state)
    ∷ ("seat_chat", seat_chat)
    ∷ ("send_emotion", send_emotion_kind)
    ∷ ("voice_speaking", voice_speaking)
    ∷ ("voice_join", voice_join)
    ∷ ("voice_signal", voice_signal)
    ∷ ("ping", ping)
    ∷ []

unfoldable pub kind_of : Message → Kind
unfolding kind_in
kind_of msg = kind_in known_kinds msg.type

unfoldable pub handle_kind : Kind → Env → Server → ℕ → Message → Out
handle_kind login env s session msg = handle_login env s session msg
handle_kind create_room_kind env s session msg = handle_create_room env s session msg
handle_kind join_room_kind env s session msg = handle_join_room env s session msg
handle_kind leave_room env s session msg = handle_leave env s session msg
handle_kind ready_kind env s session msg = handle_ready env s session msg
handle_kind unready_kind env s session msg = handle_unready env s session msg
handle_kind change_seat_kind env s session msg = handle_change_seat env s session msg
handle_kind set_room_options env s session msg = handle_set_room_options env s session msg
handle_kind start_game_kind env s session msg = handle_start_game env s session msg
handle_kind play_cards_kind env s session msg = handle_play_cards env s session msg
handle_kind pass_kind env s session msg = handle_pass env s session msg
handle_kind submit_tribute_kind env s session msg = handle_submit_tribute env s session msg
handle_kind submit_return_kind env s session msg = handle_submit_return env s session msg
handle_kind spectate_teammate env s session msg = handle_spectate_teammate env s session msg
handle_kind reconnect env s session msg = handle_reconnect env s session msg
handle_kind request_dismiss_kind env s session msg = handle_request_dismiss env s session msg
handle_kind vote_dismiss_kind env s session msg = handle_vote_dismiss env s session msg
handle_kind voice_state env s session msg = handle_voice_state env s session msg
handle_kind seat_chat env s session msg = handle_seat_chat env s session msg
handle_kind send_emotion_kind env s session msg = handle_send_emotion env s session msg
handle_kind voice_speaking env s session msg = handle_voice_speaking env s session msg
handle_kind voice_join env s session msg = handle_voice_join env s session msg
handle_kind voice_signal env s session msg = handle_voice_signal env s session msg
handle_kind ping env s session msg = handle_ping s session
handle_kind unknown_kind env s session msg = refuse s session msg unknown_type

unfoldable pub dispatch_message : Env → Server → ℕ → Message → Out
unfolding handle_kind
dispatch_message env s session msg = handle_kind (kind_of msg) env s session msg

unfoldable pub should_run_on_room_queue : String → Bool
should_run_on_room_queue type =
    not (str_eq type "login") && not (str_eq type "ping") && not (str_eq type "create_room")

-- The room that the message names, if there is one.
abbrev named_room : RoomManager → Message → Option Room
named_room m msg = if str_eq msg.room_id "" then none else get_room m msg.room_id

-- The sessions afterwards, and the room whose queue the message is for.
unfoldable pub resolve_room_for_dispatch : Env → Server → ℕ → Message → Server × Option Room
resolve_room_for_dispatch env s session msg =
    let (sessions, player_id) = resolve_player_id env.to_string s.sessions session in
    elim (named_room s.manager msg) [
      | some room ↦ (s, some room)
      | none ↦ (
        record s { sessions = sessions },
        if ltb 0 player_id then find_room_by_player s.manager player_id else none,
      )
    ]

unfoldable pub post_room_message : Env → Server → ℕ → Message → Out
unfolding dispatch_message
post_room_message env s session msg =
    let (known, found) = resolve_room_for_dispatch env s session msg in
    let room : Option Room = elim found [
      | some r ↦ some r
      | none ↦ if str_eq msg.type "join_room" then named_room known.manager msg else none
    ] in
    elim room [
      | none ↦ dispatch_message env known session msg
      | some r ↦ some (known, posts r.room_id (handle_message session msg) ∷ [])
    ]

-- `none` is a text that does not parse; the error answers request 0.
unfoldable pub dispatch : Env → Server → ℕ → Option Message → Out
unfolding dispatch_message post_room_message
dispatch env s session none =
    let failure = record blank_answer { type = "error"; error_code = invalid_message } in
    some (s, sends session failure ∷ [])
dispatch env s session (some msg) =
    if not (should_run_on_room_queue msg.type)
    then dispatch_message env s session msg
    else post_room_message env s session msg

-- The task of a login: the profile, then the state and the view.
synced : Room → ℕ → RoomPhase → ℕ → Option (List Effect)
synced room session phase player_id =
    let state = sends session (news "room_state" room (room_data room)) in
    let view = send_player_view room player_id "game_snapshot" in
    let shown = view >>= λ es. some (state ∷ es) in
    if room_phase_eq phase in_play
    then view
    else if room_phase_eq phase in_settlement
    then shown
    else some (state ∷ [])

-- A task that the queue of a room runs.
unfoldable pub run_task : Env → Server → String → Room → Task → Out
unfolding synced dispatch_message
run_task env s id room (bot_turn bot) = save_room s id (execute_bot_turn env room bot)
run_task env s id room bot_tributes = save_room s id (execute_bot_tribute_actions room)
run_task env s id room (sync_profile session player_id profile phase) =
    let known = (sync_player_profile room player_id profile).0 in
    save_room s id (synced known session phase player_id >>= λ es. some (known, es))
run_task env s id room show_state = some (s, broadcast_state room)
run_task env s id room (handle_message session msg) = dispatch_message env s session msg
