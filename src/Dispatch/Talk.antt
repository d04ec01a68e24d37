-- ===== src/Dispatch/Talk.antt =====
-- message_dispatcher.cpp: the requests of players that leave the game as it is.
use Prim.Native.String.{len}
use text.Mathlib.Text.{◌==◌ as str_eq}
use gd_server.Base.{
  List, Option, String, [], if◌then◌else◌, ltb, none, not, some, ℕ, ◌%◌, ◌++◌, ◌==◌, ◌>>=◌, ◌^◌,
  ◌||◌, ◌∷◌,
}
use gd_server.Cards.{internal_error, invalid_message, invalid_state}
use gd_server.Dispatch.Data.{
  Answer, Effect, Env, Message, Out, Server, access_data, answer, blank_answer, broadcast_to_room,
  chat_data, emotion_data, emotion_refused, news, no_data, pushes, put_room, refuse, room_data,
  sends, signal_data, speaking_data, view_data, voice_data, with_room,
}
use gd_server.Dispatch.Rounds.{send_player_view}
use gd_server.Dispatch.Wire.{
  after_first, as_int, extract_json_bool_from_data, extract_json_string_from_data,
  extract_json_uint_from_data,
}
use gd_server.Engine.Play.Turn.{counted}
use gd_server.Engine.View.{build_view_for}
use gd_server.Room.Data.{
  Room, RoomPlayer, contains_player, in_play, next_emotion_event_id, room_phase_eq,
}
use gd_server.Room.Emotion.{is_valid_emotion_type, try_acquire}
use gd_server.Room.Spectators.{resolve_view_anchor, set_spectate_target}

unfoldable pub handle_spectate_teammate : Env → Server → ℕ → Message → Out
handle_spectate_teammate env s session msg = with_room env s session msg λ known player_id id room.
    let asked = as_int (extract_json_uint_from_data msg.data_json "target_seat_index") in
    if not (room_phase_eq room.phase in_play)
    then refuse known session msg invalid_state
    else elim asked [
      | none ↦ refuse known session msg invalid_state
      | some seat ↦
          let (watching, changed) = set_spectate_target room player_id seat in
          let view =
            build_view_for watching.engine player_id (resolve_view_anchor watching player_id) in
          let shown = view >>= λ v. some (
            put_room known id watching,
            sends session (answer "spectate_changed" msg watching (view_data v watching)) ∷ [],
          ) in
          if not changed then refuse known session msg invalid_state else shown
    ]

unfoldable pub handle_reconnect : Env → Server → ℕ → Message → Out
handle_reconnect env s session msg = with_room env s session msg λ known player_id id room.
    let back = sends session (answer "reconnect_ok" msg room no_data) in
    let snapshot =
      send_player_view room player_id "game_snapshot" >>= λ es. some (known, back ∷ es) in
    if room_phase_eq room.phase in_play
    then snapshot
    else some (known, back ∷ sends session (news "room_state" room (room_data room)) ∷ [])

-- The seat of the first player with the id; `none` where there is no such player, or none yet.
seat_in : List RoomPlayer → ℕ → Option ℕ
seat_in [] id = none
seat_in (p ∷ ps) id = if p.id == id then p.seat_index else seat_in ps id

unfoldable pub handle_seat_chat : Env → Server → ℕ → Message → Out
unfolding seat_in
handle_seat_chat env s session msg = with_room env s session msg λ known player_id id room.
    let content = extract_json_string_from_data msg.data_json "content" in
    let emoji = extract_json_bool_from_data msg.data_json "is_emoji" in
    if str_eq content "" || ltb 64 (len content)
    then refuse known session msg invalid_message
    else elim (seat_in room.players player_id) [
      | none ↦ refuse known session msg invalid_state
      | some seat ↦ some (
        known,
        broadcast_to_room room (news "seat_chat" room (chat_data player_id seat content emoji))
            ++ sends session (answer "seat_chat_ack" msg room no_data) ∷ [],
      )
    ]

abbrev emotion_error : Server → ℕ → Message → Room → String → Out
emotion_error s session msg room code =
    some (s, sends session (answer "emotion_error" msg room (emotion_refused code)) ∷ [])

-- The emotion has got past the checks and the limit.
unfoldable pub send_emotion : Env → Server → ℕ → Message → ℕ → String → Room → ℕ → ℕ → Out
send_emotion env s session msg sender id room target emotion =
    let (counted, event) = next_emotion_event_id room in
    let content = emotion_data event sender target emotion env.server_time_ms in
    some (
      put_room s id counted,
      broadcast_to_room counted (news "emotion_event" counted content)
          ++ sends session (answer "send_emotion_ack" msg counted content) ∷ [],
    )

unfoldable pub handle_send_emotion : Env → Server → ℕ → Message → Out
unfolding send_emotion
handle_send_emotion env s session msg = with_room env s session msg λ known sender id room.
    let target = extract_json_uint_from_data msg.data_json "target_player_id" in
    let emotion = extract_json_uint_from_data msg.data_json "emotion_type" % 2 ^ 32 in
    let (limiter, free) = try_acquire known.limiter env.steady_ms sender in
    let limited = record known { limiter = limiter } in
    if target == 0 || not (is_valid_emotion_type emotion)
    then emotion_error known session msg room "INVALID_EMOTION_TYPE"
    else if sender == target
    then emotion_error known session msg room "CANNOT_SEND_TO_SELF"
    else if not (contains_player room target)
    then emotion_error known session msg room "TARGET_NOT_IN_ROOM"
    else if not free
    then emotion_error limited session msg room "TOO_FREQUENT"
    else send_emotion env limited session msg sender id room target emotion

unfoldable pub handle_voice_speaking : Env → Server → ℕ → Message → Out
handle_voice_speaking env s session msg = with_room env s session msg λ known player_id id room.
    let speaking = extract_json_bool_from_data msg.data_json "speaking" in
    some (
      known,
      broadcast_to_room room (news "voice_speaking" room (speaking_data player_id speaking))
          ++ sends session (answer "voice_speaking_ack" msg room no_data) ∷ [],
    )

unfoldable pub handle_voice_state : Env → Server → ℕ → Message → Out
handle_voice_state env s session msg = with_room env s session msg λ known player_id id room.
    let mic = extract_json_bool_from_data msg.data_json "mic_enabled" in
    let speaker = extract_json_bool_from_data msg.data_json "speaker_enabled" in
    some (
      known,
      broadcast_to_room room (news "voice_state" room (voice_data player_id mic speaker))
          ++ sends session (answer "voice_state_ack" msg room no_data) ∷ [],
    )

-- The signal as it is passed on. A line index is there if the request names one.
abbrev signal_news : Message → Room → ℕ → Answer
signal_news msg room player_id =
    let text = λ (key : String). extract_json_string_from_data msg.data_json key in
    let index = as_int (extract_json_uint_from_data msg.data_json "sdp_mline_index") in
    let named = after_first "\"sdp_mline_index\"" msg.data_json >>= λ rest. some index in
    news "voice_signal" room (
      signal_data player_id (text "signal") (text "sdp") (text "sdp_type") (text "candidate")
        (text "sdp_mid") named)

-- The loop over all players but one.
push_others : List RoomPlayer → ℕ → Answer → List Effect
push_others [] id a = []
push_others (p ∷ ps) id a =
    let rest = push_others ps id a in if p.id == id then rest else pushes p.id a ∷ rest

unfoldable pub handle_voice_signal : Env → Server → ℕ → Message → Out
unfolding push_others
handle_voice_signal env s session msg = with_room env s session msg λ known player_id id room.
    let to_player = extract_json_uint_from_data msg.data_json "to_player_id" in
    let forward = signal_news msg room player_id in
    let ack = sends session (answer "voice_signal_ack" msg room no_data) in
    if str_eq (extract_json_string_from_data msg.data_json "signal") ""
    then refuse known session msg invalid_message
    else if to_player == 0
    then some (known, push_others room.players player_id forward ++ ack ∷ [])
    else if not (contains_player room to_player) || to_player == player_id
    then refuse known session msg invalid_state
    else some (known, pushes to_player forward ∷ ack ∷ [])

-- The name for the access token.
shown_name : List RoomPlayer → ℕ → String
shown_name [] id = "Player"
shown_name (p ∷ ps) id =
    let rest = shown_name ps id in
    if p.id == id then (if str_eq p.nickname "" then "Player" else p.nickname) else rest

unfoldable pub join_voice : Env → ℕ → Message → Server → ℕ → String → Room → Out
unfolding shown_name
join_voice env session msg s player_id id room =
    let name = shown_name room.players player_id in
    let token = env.access_token room.room_id (env.to_string player_id) name in
    let joined = answer "voice_join_ok" msg room (access_data token room.room_id) in
    if str_eq token ""
    then refuse s session msg internal_error
    else some (s, sends session joined ∷ [])

unfoldable pub handle_voice_join : Env → Server → ℕ → Message → Out
unfolding join_voice
handle_voice_join env s session msg =
    if not s.live_kit_enabled
    then refuse s session msg invalid_state
    else with_room env s session msg (join_voice env session msg)

unfoldable pub handle_ping : Server → ℕ → Out
handle_ping s session = some (s, sends session (record blank_answer { type = "pong" }) ∷ [])
