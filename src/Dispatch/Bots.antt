-- ===== src/Dispatch/Bots.antt =====
-- message_dispatcher.cpp: the turns and the tributes of the bots of a room, as its task queue runs
-- them.
use gd_server.Base.{
  Bool, List, Option, [], false, if◌then◌else◌, is_empty, leb, none, not, some, ℕ, ◌++◌, ◌>>=◌,
  ◌||◌, ◌∷◌,
}
use gd_server.Cards.{code_is_ok, phase_eq, playing, return_tribute, tribute}
use gd_server.Dispatch.Data.{Effect, Env, RoomOut}
use gd_server.Dispatch.Play.{go_on, tribute_goes_on}
use gd_server.Dispatch.Rounds.{
  broadcast_player_passed, broadcast_player_played, broadcast_tribute_phase_update,
  cancel_tribute_timer, cancel_turn_timer,
}
use gd_server.Engine.Bot.{choose_bot_play}
use gd_server.Engine.Play.{pass, play_cards}
use gd_server.Engine.Table.{GameEngine, Outcome, PlayResult, seat_of}
use gd_server.Engine.TributePhase.{
  choose_bot_return_card, choose_bot_tribute_card, has_pending_tribute_action, submit_return,
  submit_tribute,
}
use gd_server.Room.Data.{Room, is_bot_player}
use gd_server.State.{player}
use gd_server.Turns.{seat_eq}

-- The bot has played.
unfoldable pub bot_played : Env → Room → ℕ → List ℕ → PlayResult → RoomOut
bot_played env room bot cards result = broadcast_player_played room bot cards >>= λ told.
    go_on env room result >>= λ (o : Room × List Effect). some (o.0, told ++ o.1)

unfoldable pub bot_passed : Env → Room → ℕ → PlayResult → RoomOut
bot_passed env room bot result = broadcast_player_passed room bot >>= λ told.
    go_on env room result >>= λ (o : Room × List Effect). some (o.0, told ++ o.1)

unfoldable pub bot_passes : Env → Room → ℕ → RoomOut
unfolding bot_passed
bot_passes env room bot = pass room.engine bot >>= λ (o : GameEngine × PlayResult).
    let next = record room { engine = o.0 } in
    let told = bot_passed env next bot o.1 in if code_is_ok o.1.code then told else some (next, [])

-- The play that the bot has chosen, or else a pass.
unfoldable pub bot_acts : Env → Room → ℕ → Option (List ℕ) → RoomOut
unfolding bot_played bot_passes
bot_acts env room bot none = bot_passes env room bot
bot_acts env room bot (some cards) =
    play_cards room.engine bot cards >>= λ (o : GameEngine × PlayResult).
    let next = record room { engine = o.0 } in
    let told = bot_played env next bot cards o.1 in
    let passes = bot_passes env next bot in if code_is_ok o.1.code then told else passes

unfoldable pub execute_bot_turn : Env → Room → ℕ → RoomOut
unfolding bot_acts
execute_bot_turn env room bot =
    let s = room.engine.state in
    let acts = choose_bot_play room.engine bot >>= λ choice.
    bot_acts env room bot choice >>= λ (o : Room × List Effect).
    some (o.0, cancel_turn_timer room ∷ o.1) in
    if not (is_bot_player bot) || not (phase_eq s.phase playing)
    then some (room, [])
    else elim (seat_of s bot) [
      | none ↦ some (room, [])
      | some seat ↦
          if not (seat_eq (some seat) s.current_player_index) then some (room, []) else acts
    ]

-- What one seat does in a phase of the tribute: the bot's choice and its submission. The answer is
-- whether the engine has accepted one.
unfoldable pub bot_submits :
    (GameEngine → ℕ → Option (Option ℕ))
    → (GameEngine → ℕ → ℕ → Outcome)
    → GameEngine
    → ℕ
    → Option (GameEngine × Bool)
bot_submits choose submit e seat =
    let bot = (player e.state seat).id in
    let acts = choose e bot >>= λ choice. elim choice [
      | none ↦ some (e, false)
      | some card ↦
          submit e bot card >>= λ (o : GameEngine × PlayResult). some (o.0, code_is_ok o.1.code)
    ] in
    if leb e.state.player_count seat || not (is_bot_player bot) then some (e, false) else acts

-- The loop over the seats. It goes through the engine's own list, from which an accepted submission
-- erases: a loop that would go on after that has no defined behaviour, and is `none`.
unfoldable pub bots_submit :
    (GameEngine → ℕ → Option (GameEngine × Bool)) → GameEngine → List ℕ → Option (GameEngine × Bool)
bots_submit one e [] = some (e, false)
bots_submit one e (seat ∷ seats) = one e seat >>= λ (o : GameEngine × Bool).
    let rest = bots_submit one o.0 seats in
    if not o.1 then rest else if is_empty seats then some o else none

-- The submissions of one run.
unfoldable pub bot_submissions : GameEngine → Option (GameEngine × Bool)
unfolding bot_submits bots_submit
bot_submissions e =
    let gives =
      bots_submit (bot_submits choose_bot_tribute_card submit_tribute) e
        e.tribute_state.pending_tributers in
    let returns =
      bots_submit (bot_submits choose_bot_return_card submit_return) e
        e.tribute_state.pending_return_seats in
    if phase_eq e.state.phase tribute
    then gives
    else if phase_eq e.state.phase return_tribute
    then returns
    else some (e, false)

unfoldable pub execute_bot_tribute_actions : Room → RoomOut
unfolding bot_submissions
execute_bot_tribute_actions room =
    let acts = bot_submissions room.engine >>= λ (o : GameEngine × Bool).
    let next = record room { engine = o.0 } in
    let update = broadcast_tribute_phase_update next in
    (if o.1 then update else some []) >>= λ told.
    tribute_goes_on next >>= λ es. some (next, cancel_tribute_timer room ∷ told ++ es) in
    if not (has_pending_tribute_action room.engine) then some (room, []) else acts
