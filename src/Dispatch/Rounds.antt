-- ===== src/Dispatch/Rounds.antt =====
-- message_dispatcher.cpp: what the players of a room get to see, whose turn is timed, and how rounds
-- follow one another. A call that throws is `none`.
use Prim.Native.String.{◌++◌ as append}
use gd_server.Base.{
  Bool, List, Option, String, [], if◌then◌else◌, is_empty, leb, length, none, not, some, take, ℕ,
  ◌++◌, ◌>>=◌, ◌||◌, ◌∷◌,
}
use gd_server.Cards.{phase_eq, playing}
use gd_server.Dispatch.Data.{
  Effect, Env, Payload, RoomOut, bot_tributes, bot_turn, broadcast_state, broadcast_to_room,
  cancels_timer, news, no_data, passed_data, played_data, posts, pushes, sets_timer, settled_data,
  tribute_data, turn_timeout_seconds, view_data,
}
use gd_server.Engine.Table.{seat_of}
use gd_server.Engine.TributePhase.{has_pending_tribute_action}
use gd_server.Engine.View.{build_view_for}
use gd_server.Progress.Settlement.{SettlementResult}
use gd_server.Room.Data.{Room, RoomPlayer, in_settlement, is_bot_player, room_phase_eq}
use gd_server.Room.Rounds.{enter_settlement, finish_match, room_all_ready, start_next_round_of}
use gd_server.Room.Spectators.{resolve_view_anchor}
use gd_server.State.{GameState, PlayerState, player}

unfoldable pub send_player_view : Room → ℕ → String → Option (List Effect)
send_player_view room player_id type =
    build_view_for room.engine player_id (resolve_view_anchor room player_id) >>= λ view.
    some (pushes player_id (news type room (view_data view room)) ∷ [])

-- `sendPlayerView` to each of the players.
views_to : Room → String → List RoomPlayer → Option (List Effect)
views_to room type [] = some []
views_to room type (p ∷ ps) =
    send_player_view room p.id type >>= λ es. views_to room type ps >>= λ fs. some (es ++ fs)

unfoldable pub send_views : Room → String → Option (List Effect)
unfolding views_to
send_views room type = views_to room type room.players

-- The players who have no cards left, by their seats in the game.
finished_ones : GameState → List RoomPlayer → List RoomPlayer
finished_ones s [] = []
finished_ones s (p ∷ ps) =
    let rest = finished_ones s ps in
    elim (seat_of s p.id) [
      | none ↦ rest
      | some seat ↦ if (player s seat).has_finished then p ∷ rest else rest
    ]

unfoldable pub send_spectate_updates_to_finished_players : Room → Option (List Effect)
unfolding finished_ones views_to
send_spectate_updates_to_finished_players room =
    let s = room.engine.state in
    if not (phase_eq s.phase playing)
    then some []
    else views_to room "spectate_update" (finished_ones s room.players)

abbrev pub turn_key : Room → String
turn_key room = append "turn:" room.room_id

abbrev pub tribute_key : Room → String
tribute_key room = append "tribute:" room.room_id

abbrev pub cancel_turn_timer : Room → Effect
cancel_turn_timer room = cancels_timer (turn_key room)

abbrev pub cancel_tribute_timer : Room → Effect
cancel_tribute_timer room = cancels_timer (tribute_key room)

unfoldable pub broadcast_tribute_phase_update : Room → Option (List Effect)
broadcast_tribute_phase_update room = send_views room "tribute_phase_updated"

-- A bot acts at once, a human has the time of a turn. The second argument is the seat in turn.
unfoldable pub turn_timer : Room → Option ℕ → List Effect
turn_timer room none = []
turn_timer room (some seat) =
    let s = room.engine.state in
    let current = (player s seat).id in
    if leb s.player_count seat
    then []
    else if is_bot_player current
    then posts room.room_id (bot_turn current) ∷ []
    else sets_timer (turn_key room) turn_timeout_seconds room.room_id (bot_turn current) ∷ []

unfoldable pub schedule_turn_timer : Room → List Effect
unfolding turn_timer
schedule_turn_timer room =
    let s = room.engine.state in
    cancel_turn_timer room
    ∷ (if not (phase_eq s.phase playing) then [] else turn_timer room s.current_player_index)

abbrev tribute_news : Room → List Effect
tribute_news room =
    broadcast_to_room room (news "tribute_resolved" room (tribute_data room.engine.last_tribute))

unfoldable pub on_tribute_phase_completed : Room → Option (List Effect)
on_tribute_phase_completed room = send_views room "cards_dealt" >>= λ views.
    some (tribute_news room ++ views ++ schedule_turn_timer room)

unfoldable pub schedule_tribute_timer : Room → List Effect
schedule_tribute_timer room =
    cancel_tribute_timer room
    ∷ (if not (has_pending_tribute_action room.engine)
        then []
        else sets_timer (tribute_key room) 1 room.room_id bot_tributes ∷ [])

-- The player at a seat, or else the first.
abbrev pub shown_player : GameState → Option ℕ → PlayerState
shown_player s none = player s 0
shown_player s (some seat) = player s seat

abbrev pub played_payload : Room → ℕ → List ℕ → Payload
played_payload room player_id cards =
    let s = room.engine.state in
    let p = shown_player s (seat_of s player_id) in
    played_data player_id cards (length p.hand) p.has_finished p.finish_rank s.current_player_index
      s.state_version s.turn_id

unfoldable pub broadcast_player_played : Room → ℕ → List ℕ → Option (List Effect)
broadcast_player_played room player_id cards =
    send_spectate_updates_to_finished_players room >>= λ views. some (
      broadcast_to_room room (news "player_played" room (played_payload room player_id cards))
      ++ views)

abbrev pub passed_payload : Room → ℕ → Payload
passed_payload room player_id =
    let s = room.engine.state in
    passed_data player_id (seat_of s player_id) s.current_player_index (not s.last_pattern.is_valid)
      s.state_version s.turn_id

unfoldable pub broadcast_player_passed : Room → ℕ → Option (List Effect)
broadcast_player_passed room player_id = send_spectate_updates_to_finished_players room >>= λ views.
    some
      (broadcast_to_room room (news "player_passed" room (passed_payload room player_id)) ++ views)

-- Is there anything to tell about the tribute?
abbrev tribute_happened : Room → Bool
tribute_happened room =
    let t = room.engine.last_tribute in not t.skipped || t.anti_tribute || not (is_empty t.tributes)

unfoldable pub on_round_started : Room → Option (List Effect)
on_round_started room =
    let turn = if phase_eq room.engine.state.phase playing then schedule_turn_timer room else [] in
    let told = if tribute_happened room then tribute_news room else [] in
    send_views room "cards_dealt" >>= λ views.
    if has_pending_tribute_action room.engine
    then some (views ++ schedule_tribute_timer room)
    else some (views ++ told ++ turn)

unfoldable pub on_game_started : Room → ℕ → Option (List Effect)
on_game_started room request_id =
    let started = record (news "game_started" room no_data) { request_id = request_id } in
    on_round_started room >>= λ es. some (broadcast_to_room room started ++ es)

-- What follows the call of `startNextRound`.
unfoldable pub next_round_begun : Room × Bool → RoomOut
next_round_begun (room, begun) =
    let told = on_round_started room >>= λ es. some (room, es) in
    if not begun then some (room, []) else told

unfoldable pub try_start_next_round : Env → Room → RoomOut
unfolding next_round_begun
try_start_next_round env room =
    if not (room_phase_eq room.phase in_settlement) || not (room_all_ready room)
    then some (room, [])
    else (start_next_round_of env.shuffle room >>= λ begun. next_round_begun begun)

-- The seats of the game that take part in a settlement.
abbrev settled_payload : Room → SettlementResult → Payload
settled_payload room result =
    settled_data result (take room.engine.state.player_count room.engine.state.players)

unfoldable pub on_game_over : Env → Room → SettlementResult → RoomOut
on_game_over env room result =
    let payload = settled_payload room result in
    let told =
      cancel_turn_timer room
      ∷ cancel_tribute_timer room
      ∷ broadcast_to_room room (news "settlement" room payload) in
    let settled = enter_settlement room in
    if result.match_won
    then some (finish_match room, told ++ broadcast_to_room room (news "game_over" room payload))
    else (try_start_next_round env settled >>= λ (o : Room × List Effect).
        some (o.0, told ++ broadcast_state settled ++ o.1))
