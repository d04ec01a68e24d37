-- ===== src/Dispatch/Stuck.antt =====
-- What nobody moves on: a tribute that no handler closes.
use gd_server.Base.{List, Option-cases, [], arith, inl, inr, some, true, ℕ, ◌∷◌, ◌≡◌, ◌≢◌, ◌⊎◌}
use gd_server.Cards.{ok, return_tribute}
use gd_server.Dispatch.Bots.{
  bot_submissions, bots_submit, execute_bot_tribute_actions, execute_bot_turn,
}
use gd_server.Dispatch.Data.{Env}
use gd_server.Dispatch.Play.{tribute_goes_on}
use gd_server.Dispatch.Rounds.{cancel_tribute_timer, schedule_tribute_timer}
use gd_server.Engine.Play.{apply_verdict, judge_play, pass, play_cards}
use gd_server.Engine.Table.{GameEngine, PlayResult, seat_of}
use gd_server.Engine.TributePhase.{
  has_pending_tribute_action, return_from, submit_return, submit_tribute,
}
use gd_server.Room.Data.{Room}

-- All returns of a room are in, but its tribute phase has not been closed.
pub record IsStuck (e : GameEngine) : Type 0 where
  pub in_returns : e.state.phase ≡ return_tribute
  pub going : e.tribute_state.active ≡ true
  pub none_owed : e.tribute_state.pending_return_seats ≡ []

-- When all returns are in, but the tribute phase has not been closed, the task of the bots leaves the
-- room as it is and only sets its own timer again, the task of a bot's turn does nothing, and of all
-- players each card returned or given, each play of any cards and each pass is refused without
-- effect. Starting a game anew and dissolving the room are not among these.
pub stuck_stays :
    (env : Env) (room : Room) (a : ℕ)
    → IsStuck room.engine
    → (execute_bot_tribute_actions room
        ≡ some (room, cancel_tribute_timer room ∷ schedule_tribute_timer room))
      × (execute_bot_turn env room a ≡ some (room, []))
      × ((card : ℕ) (cards : List ℕ) (e : GameEngine) (r : PlayResult)
          → (submit_return room.engine a card ≡ some (e, r))
            ⊎ (submit_tribute room.engine a card ≡ some (e, r))
            ⊎ (play_cards room.engine a cards ≡ some (e, r))
            ⊎ (pass room.engine a ≡ some (e, r))
          → (e ≡ room.engine) × (r.code ≢ ok))
unfolding execute_bot_tribute_actions submit_return submit_tribute play_cards pass
    has_pending_tribute_action bot_submissions tribute_goes_on return_from judge_play bots_submit
    apply_verdict execute_bot_turn
stuck_stays env room a stuck = (
  ground (arith, stuck.in_returns, stuck.going, stuck.none_owed),
  ground (arith, stuck.in_returns),
  λ card cards e r h. elim (Option-cases (seat_of room.engine.state a)) [
    | inl off ↦ ground (arith, stuck.in_returns, stuck.going, stuck.none_owed)
    | inr (seat, there) ↦ ground (arith, stuck.in_returns, stuck.going, stuck.none_owed)
  ],
)
