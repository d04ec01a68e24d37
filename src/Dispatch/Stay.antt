-- ===== src/Dispatch/Stay.antt =====
-- The rounds of a room, its bots and its games take nobody in.
use gd_server.Base.{
  >>=-eq-some, Bool, Bool-cases, List, Option, Option-cases, ap, arith, inl, inr, none, some, ℕ,
  ◌≡◌,
}
use gd_server.Cards.{Card}
use gd_server.Dispatch.Bots.{
  bot_acts, bot_passed, bot_passes, bot_played, bot_submissions, execute_bot_tribute_actions,
  execute_bot_turn,
}
use gd_server.Dispatch.Data.{Effect, Env}
use gd_server.Dispatch.Ids.{enter_settlement-ids}
use gd_server.Dispatch.Play.{go_on}
use gd_server.Dispatch.Rounds.{
  broadcast_player_passed, broadcast_player_played, next_round_begun, on_game_over,
  try_start_next_round,
}
use gd_server.Engine.Bot.{choose_bot_play}
use gd_server.Engine.Play.{pass, play_cards}
use gd_server.Engine.Table.{PlayResult}
use gd_server.Progress.Settlement.{SettlementResult}
use gd_server.Room.Data.{Room}
use gd_server.Room.Rounds.{enter_settlement, finish_match, start_next_round_of}
use gd_server.Room.Rounds.Opening.{SameRoom, start_next_round_of-Same}
use gd_server.Room.Seats.Taken.{ids_of_room}

-- A call on a room that keeps the ids of its players.
abbrev pub SameIds : Room → Room × List Effect → Type 0
SameIds r o = ids_of_room o.0.players ≡ ids_of_room r.players

pub begun-ids :
    (r : Room) (o : Option (Room × Bool)) (b : Room × Bool)
    → SameRoom r o
    → o ≡ some b
    → ids_of_room b.0.players ≡ ids_of_room r.players
begun-ids r none b h e = absurd (cc e)
begun-ids r (some (t, x)) b (same, _) e =
    let f : t ≡ b.0 = ground arith in rw (← f) (ap ids_of_room same)

pub start_next_round_of-ids :
    (shuffle : List Card → List Card) (r : Room) (b : Room × Bool)
    → start_next_round_of shuffle r ≡ some b
    → ids_of_room b.0.players ≡ ids_of_room r.players
start_next_round_of-ids shuffle r b h =
    begun-ids r (start_next_round_of shuffle r) b (start_next_round_of-Same shuffle r) h

pub try_start_next_round-ids :
    (env : Env) (r : Room) (o : Room × List Effect)
    → try_start_next_round env r ≡ some o
    → SameIds r o
unfolding try_start_next_round next_round_begun
try_start_next_round-ids env r o h = grind (arith, start_next_round_of-ids env.shuffle)

pub on_game_over-ids :
    (env : Env) (r : Room) (result : SettlementResult) (o : Room × List Effect)
    → on_game_over env r result ≡ some o
    → SameIds r o
unfolding on_game_over finish_match
on_game_over-ids env r result o h = elim (Bool-cases result.match_won) [
  | inl won ↦ ground arith
  | inr plain ↦
      let g = rw (on_game_over, plain) at h in
      let (w, hw, back) = >>=-eq-some (try_start_next_round env (enter_settlement r)) _ g in
      ground (arith, try_start_next_round-ids env (enter_settlement r) w hw, enter_settlement-ids r)
]

pub go_on-ids :
    (env : Env) (r : Room) (result : PlayResult) (o : Room × List Effect)
    → go_on env r result ≡ some o
    → SameIds r o
unfolding go_on
go_on-ids env r result o h = ground (arith, on_game_over-ids env r result.settlement o)

bot_passed-ids :
    (env : Env) (r : Room) (bot : ℕ) (result : PlayResult) (o : Room × List Effect)
    → bot_passed env r bot result ≡ some o
    → SameIds r o
unfolding bot_passed
bot_passed-ids env r bot result o h =
    let (told, _, g) = >>=-eq-some (broadcast_player_passed r bot) _ h in
    let (w, hw, back) = >>=-eq-some (go_on env r result) _ g in
    ground (arith, go_on-ids env r result w hw)

bot_played-ids :
    (env : Env) (r : Room) (bot : ℕ) (cards : List ℕ) (result : PlayResult) (o : Room × List Effect)
    → bot_played env r bot cards result ≡ some o
    → SameIds r o
unfolding bot_played
bot_played-ids env r bot cards result o h =
    let (told, _, g) = >>=-eq-some (broadcast_player_played r bot cards) _ h in
    let (w, hw, back) = >>=-eq-some (go_on env r result) _ g in
    ground (arith, go_on-ids env r result w hw)

bot_passes-ids :
    (env : Env) (r : Room) (bot : ℕ) (o : Room × List Effect)
    → bot_passes env r bot ≡ some o
    → SameIds r o
unfolding bot_passes
bot_passes-ids env r bot o h =
    let (p, _, g) = >>=-eq-some (pass r.engine bot) _ h in
    ground (arith, bot_passed-ids env (record r { engine = p.0 }) bot p.1 o)

bot_acts-ids :
    (env : Env) (r : Room) (bot : ℕ) (choice : Option (List ℕ)) (o : Room × List Effect)
    → bot_acts env r bot choice ≡ some o
    → SameIds r o
unfolding bot_acts
bot_acts-ids env r bot none o h = bot_passes-ids env r bot o h
bot_acts-ids env r bot (some cards) o h =
    let (p, _, g) = >>=-eq-some (play_cards r.engine bot cards) _ h in
    let next = record r { engine = p.0 } in
    ground (arith, bot_played-ids env next bot cards p.1 o, bot_passes-ids env next bot o)

pub execute_bot_turn-ids :
    (env : Env) (r : Room) (bot : ℕ) (o : Room × List Effect)
    → execute_bot_turn env r bot ≡ some o
    → SameIds r o
unfolding execute_bot_turn
execute_bot_turn-ids env r bot o h = elim (Option-cases (choose_bot_play r.engine bot)) [
  | inl off ↦ ground arith
  | inr (choice, e) ↦ elim (Option-cases (bot_acts env r bot choice)) [
    | inl off ↦ ground arith
    | inr (w, hw) ↦ ground (arith, bot_acts-ids env r bot choice w hw)
  ]
]

pub execute_bot_tribute_actions-ids :
    (r : Room) (o : Room × List Effect) → execute_bot_tribute_actions r ≡ some o → SameIds r o
unfolding execute_bot_tribute_actions
execute_bot_tribute_actions-ids r o h = elim (Option-cases (bot_submissions r.engine)) [
  | inl off ↦ ground arith
  | inr (p, e) ↦ ground arith
]
