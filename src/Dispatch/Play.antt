-- ===== src/Dispatch/Play.antt =====
-- message_dispatcher.cpp: the requests in a game, and the turns of the bots.
use gd_server.Base.{
  Bool, List, Option, String, [], if◌then◌else◌, is_empty, leb, ltb, none, not, some, ℕ, ◌%◌, ◌&&◌,
  ◌++◌, ◌==◌, ◌>>=◌, ◌^◌, ◌∷◌,
}
use gd_server.Cards.{
  ErrorCode, code_is_ok, invalid_cards, invalid_state, not_all_ready, not_room_owner, not_your_turn,
  phase_eq, playing, request_expired,
}
use gd_server.Dispatch.Data.{
  Effect, Env, Message, Out, RoomOut, Server, answer, no_data, put_room, refuse, sends, with_room,
}
use gd_server.Dispatch.Rounds.{
  broadcast_player_passed, broadcast_player_played, broadcast_tribute_phase_update,
  cancel_tribute_timer, cancel_turn_timer, on_game_over, on_game_started,
  on_tribute_phase_completed, passed_payload, played_payload, schedule_tribute_timer,
  schedule_turn_timer,
}
use gd_server.Dispatch.Wire.{extract_json_uint_from_data}
use gd_server.Engine.Play.{pass, play_cards}
use gd_server.Engine.Table.{GameEngine, PlayResult}
use gd_server.Engine.TributePhase.{
  finalize_tribute_phase, has_pending_tribute_action, submit_return, submit_tribute,
}
use gd_server.Room.Data.{Room}
use gd_server.Room.Rounds.{start_game_of}
use gd_server.State.{player}

-- Why a request about the turn is refused: `none` is a request that is in order.
unfoldable pub validate_turn : Room → ℕ → Message → Option ErrorCode
validate_turn room player_id msg =
    let s = room.engine.state in
    if not (phase_eq s.phase playing)
    then some invalid_state
    else if ltb 0 msg.turn_id && not (msg.turn_id == s.turn_id)
    then some request_expired
    else elim s.current_player_index [
      | none ↦ some invalid_state
      | some seat ↦
          if leb s.player_count seat
          then some invalid_state
          else if not ((player s seat).id == player_id)
          then some not_your_turn
          else none
    ]

-- The end of the round, or the next turn.
unfoldable pub go_on : Env → Room → PlayResult → RoomOut
go_on env room result =
    let settled = on_game_over env room result.settlement in
    if result.game_over then settled else some (room, schedule_turn_timer room)

unfoldable pub handle_start_game : Env → Server → ℕ → Message → Out
handle_start_game env s session msg = with_room env s session msg λ known player_id id room.
    if not (room.owner_id == player_id)
    then refuse known session msg not_room_owner
    else (start_game_of env.shuffle room >>= λ (begun : Room × Bool).
        if not begun.1
        then refuse (put_room known id begun.0) session msg not_all_ready
        else (on_game_started begun.0 msg.request_id >>= λ told. some (
          put_room known id begun.0,
          told ++ sends session (answer "game_started" msg begun.0 no_data) ∷ [],
        )))

-- What a play that the engine has accepted brings about.
unfoldable pub played : Env → Server → ℕ → Message → ℕ → String → Room → PlayResult → Out
played env s session msg player_id id room result =
    broadcast_player_played room player_id msg.cards >>= λ told.
    go_on env room result >>= λ (o : Room × List Effect). some (
      put_room s id o.0,
      cancel_turn_timer room ∷ told
          ++ o.1
          ++ sends session (answer "player_played" msg o.0 (played_payload o.0 player_id msg.cards))
            ∷ [],
    )

unfoldable pub play_in_room : Env → Server → ℕ → Message → ℕ → String → Room → Out
unfolding played
play_in_room env s session msg player_id id room =
    play_cards room.engine player_id msg.cards >>= λ (o : GameEngine × PlayResult).
    let next = record room { engine = o.0 } in
    if not (code_is_ok o.1.code)
    then refuse (put_room s id next) session msg o.1.code
    else played env s session msg player_id id next o.1

unfoldable pub handle_play_cards : Env → Server → ℕ → Message → Out
unfolding play_in_room
handle_play_cards env s session msg = with_room env s session msg λ known player_id id room.
    elim (validate_turn room player_id msg) [
      | some code ↦ refuse known session msg code
      | none ↦
          if is_empty msg.cards
          then refuse known session msg invalid_cards
          else play_in_room env known session msg player_id id room
    ]

-- What a pass that the engine has accepted brings about.
unfoldable pub passed : Server → ℕ → Message → ℕ → String → Room → Out
passed s session msg player_id id room = broadcast_player_passed room player_id >>= λ told. some (
  put_room s id room,
  cancel_turn_timer room ∷ told
      ++ schedule_turn_timer room
      ++ sends session (answer "player_passed" msg room (passed_payload room player_id)) ∷ [],
)

unfoldable pub pass_in_room : Server → ℕ → Message → ℕ → String → Room → Out
unfolding passed
pass_in_room s session msg player_id id room =
    pass room.engine player_id >>= λ (o : GameEngine × PlayResult).
    let next = record room { engine = o.0 } in
    if not (code_is_ok o.1.code)
    then refuse (put_room s id next) session msg o.1.code
    else passed s session msg player_id id next

unfoldable pub handle_pass : Env → Server → ℕ → Message → Out
unfolding pass_in_room
handle_pass env s session msg = with_room env s session msg λ known player_id id room.
    elim (validate_turn room player_id msg) [
      | some code ↦ refuse known session msg code
      | none ↦ pass_in_room known session msg player_id id room
    ]

-- The card of a tribute; a card id has 16 bits, and 0 stands for none.
unfoldable pub card_asked : Message → ℕ
card_asked msg = elim msg.cards [
  | [] ↦ extract_json_uint_from_data msg.data_json "card_id" % 2 ^ 16
  | card ∷ cards ↦ card
]

-- The tribute goes on, or the play begins.
unfoldable pub tribute_goes_on : Room → Option (List Effect)
tribute_goes_on room =
    let completed = on_tribute_phase_completed room in
    if has_pending_tribute_action room.engine
    then some (schedule_tribute_timer room)
    else if phase_eq room.engine.state.phase playing
    then completed
    else some []

-- What follows a submission that the engine has accepted: the room afterwards, which the effects
-- before tell of as it was.
abbrev submitted : Server → ℕ → Message → String → String → Room → Room → Option (List Effect) → Out
submitted s session msg type id before room next = broadcast_tribute_phase_update before >>= λ told.
    next >>= λ es. some (
      put_room s id room,
      cancel_tribute_timer room ∷ told ++ es ++ sends session (answer type msg room no_data) ∷ [],
    )

unfoldable pub tribute_in_room : Server → ℕ → Message → ℕ → String → Room → Out
tribute_in_room s session msg player_id id room =
    submit_tribute room.engine player_id (card_asked msg) >>= λ (o : GameEngine × PlayResult).
    let next = record room { engine = o.0 } in
    let accepted = submitted s session msg "submit_tribute" id next next (tribute_goes_on next) in
    if not (code_is_ok o.1.code) then refuse (put_room s id next) session msg o.1.code else accepted

unfoldable pub handle_submit_tribute : Env → Server → ℕ → Message → Out
unfolding tribute_in_room card_asked
handle_submit_tribute env s session msg = with_room env s session msg λ known player_id id room.
    if card_asked msg == 0
    then refuse known session msg invalid_cards
    else tribute_in_room known session msg player_id id room

unfoldable pub return_in_room : Server → ℕ → Message → ℕ → String → Room → Out
return_in_room s session msg player_id id room =
    submit_return room.engine player_id (card_asked msg) >>= λ (o : GameEngine × PlayResult).
    let next = record room { engine = o.0 } in
    let accepted = submitted s session msg "submit_return" id next next (tribute_goes_on next) in
    let finalized = finalize_tribute_phase o.0 >>= λ (f : GameEngine × PlayResult).
    let done = record room { engine = f.0 } in
    submitted s session msg "submit_return" id next done (on_tribute_phase_completed done) in
    if not (code_is_ok o.1.code)
    then refuse (put_room s id next) session msg o.1.code
    else if o.1.tribute_round_complete
    then finalized
    else accepted

unfoldable pub handle_submit_return : Env → Server → ℕ → Message → Out
unfolding return_in_room card_asked
handle_submit_return env s session msg = with_room env s session msg λ known player_id id room.
    if card_asked msg == 0
    then refuse known session msg invalid_cards
    else return_in_room known session msg player_id id room
