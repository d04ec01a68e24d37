-- ===== src/Engine/Play.antt =====
-- `playCards` and `pass`.
pub mod Legal
pub mod Refusals
pub mod Turn
pub mod Cards
pub mod Twice
pub mod Next
use gd_server.Analyzer.{analyze}
use gd_server.Base.{
  Bool, List, Option, count_if, false, if◌then◌else◌, is_empty, leb, none, not, some, suc, true,
  zero, ℕ, ◌&&◌, ◌+◌, ◌==◌, ◌>>=◌, ◌||◌,
}
use gd_server.Cards.{
  ErrorCode, cannot_beat, finished, invalid_cards, invalid_state, not_your_turn, phase_eq, playing,
  settlement,
}
use gd_server.Engine.Table.{
  GameEngine, Outcome, PlayResult, done, failed, increment_state_version, rule_context, seat_of,
}
use gd_server.Progress.Ranks.{assign_remaining_finish_ranks}
use gd_server.Progress.Settlement.{calculate}
use gd_server.Progress.Teams.{apply_settlement}
use gd_server.Rules.{CardPattern, can_beat}
use gd_server.State.{GameState, contains, player, remove, set_player}
use gd_server.Tribute.Data.{build_previous_round_info, cards_from_ids}
use gd_server.Turns.{
  advance_turn, all_others_passed, reset_round, seat_eq, should_reset_round_after_pass,
}

unfoldable pub assign_finish_rank : GameState → ℕ → GameState
assign_finish_rank s seat = set_player s seat (record (player s seat) {
  has_finished = true;
  finish_rank = 1 + count_if (λ p. p.has_finished) s.players;
})

abbrev team_finished : GameState → ℕ → ℕ
team_finished s team = count_if (λ p. p.team == team && p.has_finished) s.players

-- The loop over the two teams.
unfoldable pub check_team_win : GameEngine → Bool
check_team_win e =
    leb e.config.players_per_team (team_finished e.state 0)
    || leb e.config.players_per_team (team_finished e.state 1)

-- `while (players[currentPlayerIndex].hasFinished) advanceTurn();` with fuel. `none` is a loop that
-- does not end within it, or a read at seat -1.
unfoldable pub skip_finished : ℕ → GameState → Option GameState
skip_finished zero s = none
skip_finished (suc fuel) s = elim s.current_player_index [
  | none ↦ none
  | some seat ↦ elim (player s seat).has_finished [
    | true ↦ skip_finished fuel (advance_turn s)
    | false ↦ some s
  ]
]

-- One turn of the loop finds a player who has not finished, where there is one.
abbrev skip_fuel : ℕ
skip_fuel = 2

-- What `playCards` decides before it changes anything.
pub data Verdict : Type 0 where
  refused : ErrorCode → Verdict
  accepted : ℕ → CardPattern → Verdict

unfoldable pub judge_pattern : GameEngine → ℕ → CardPattern → Verdict
judge_pattern e seat pattern =
    if not pattern.is_valid
    then refused ErrorCode.invalid_pattern
    else if e.state.last_pattern.is_valid
    then (if not (can_beat pattern e.state.last_pattern)
        then refused cannot_beat
        else accepted seat pattern)
    else accepted seat pattern

unfoldable pub judge_seat : GameEngine → Option ℕ → List ℕ → Option Verdict
unfolding judge_pattern
judge_seat e none cards = some (refused invalid_state)
judge_seat e (some seat) cards =
    if not (seat_eq (some seat) e.state.current_player_index)
    then some (refused not_your_turn)
    else if (player e.state seat).has_finished
    then some (refused invalid_state)
    else if not (contains (player e.state seat).hand cards)
    then some (refused invalid_cards)
    else (cards_from_ids e.state cards >>= λ objs.
        some (judge_pattern e seat (analyze objs (rule_context e))))

unfoldable pub judge_play : GameEngine → ℕ → List ℕ → Option Verdict
unfolding judge_seat
judge_play e player_id cards =
    if not (phase_eq e.state.phase playing)
    then some (refused invalid_state)
    else judge_seat e (seat_of e.state player_id) cards

-- The cards leave the hand and lie on the table.
unfoldable pub put_down : GameState → ℕ → List ℕ → CardPattern → GameState
put_down s seat cards pattern =
    let p = player s seat in
    increment_state_version
      (record (set_player s seat (record p { hand = (remove p.hand cards).0 })) {
        last_played_cards = cards;
        last_pattern = pattern;
        last_played_player_index = some seat;
        pass_count = 0;
      })

-- A team has finished: the round ends.
unfoldable pub end_round : GameEngine → GameEngine × PlayResult
end_round e =
    let s = assign_remaining_finish_ranks e.state in
    let settled = apply_settlement e.progress (calculate s e.config.players_per_team) in
    (
      record e {
        state = record s { phase = finished };
        progress = settled.0;
        previous_round = build_previous_round_info s settled.1.winning_team;
      },
      record done { game_over = true; settlement = settled.1 },
    )

-- The turn goes on.
next_turn : GameEngine → Outcome
next_turn e =
    skip_finished skip_fuel (advance_turn e.state) >>= λ s. some (record e { state = s }, done)

after_play : GameEngine → ℕ → Outcome
unfolding next_turn
after_play e seat =
    let ranked = record e { state = assign_finish_rank e.state seat } in
    let go_on = next_turn ranked in
    let play_on = next_turn e in
    if is_empty (player e.state seat).hand
    then (if check_team_win ranked then some (end_round ranked) else go_on)
    else play_on

unfoldable pub apply_verdict : GameEngine → List ℕ → Verdict → Outcome
unfolding after_play
apply_verdict e cards (refused code) = some (e, failed code "")
apply_verdict e cards (accepted seat pattern) =
    after_play (record e { state = put_down e.state seat cards pattern }) seat

unfoldable pub play_cards : GameEngine → ℕ → List ℕ → Outcome
unfolding apply_verdict
play_cards e player_id cards = judge_play e player_id cards >>= λ v. apply_verdict e cards v

-- A leader is there and nobody is left to answer.
abbrev round_is_over : GameState → ℕ → Bool
round_is_over s seat = elim s.last_played_player_index [
  | none ↦ false
  | some leader ↦ should_reset_round_after_pass s seat || all_others_passed s
]

-- The state after a pass that is accepted, before finished players are skipped.
unfoldable pub count_pass : GameState → ℕ → GameState
count_pass s seat =
    let t = increment_state_version (record s { pass_count = s.pass_count + 1 }) in
    if round_is_over t seat then reset_round t t.last_played_player_index else advance_turn t

unfoldable pub pass : GameEngine → ℕ → Outcome
pass e player_id =
    let passed = λ (seat : ℕ). skip_finished skip_fuel (count_pass e.state seat) >>= λ s.
    some (record e { state = s }, done) in
    if not (phase_eq e.state.phase playing)
    then some (e, failed invalid_state "")
    else elim (seat_of e.state player_id) [
      | none ↦ some (e, failed not_your_turn "")
      | some seat ↦
          if not (seat_eq (some seat) e.state.current_player_index)
          then some (e, failed not_your_turn "")
          else if not e.state.last_pattern.is_valid
          then some (e, failed invalid_state "Must play on new round")
          else passed seat
    ]
