-- ===== src/Engine/Start.antt =====
-- `startGame`, `startNextRound` and `dealAndStartPlaying`. The order that `std::shuffle` gives the
-- cards is an argument.
pub mod Dealt
pub mod Ids
use text.Mathlib.Text.{◌==◌ as str_eq}
use gd_server.Base.{
  Bool, List, [], false, get_or, if◌then◌else◌, none, not, some, suc, true, zero, ℕ, ◌&&◌, ◌+◌,
  ◌>>=◌,
}
use gd_server.Cards.{
  Card, GameRuleConfig, create_full_deck, finished, invalid_state, k_solo_test_cards_per_player,
  not_all_ready, phase_eq, readying, tribute, waiting,
}
use gd_server.Cards.Deck.{deal}
use gd_server.Engine.Table.{
  GameEngine, Outcome, all_ready, begin_playing_from_deal, clear_tribute_state, done, failed,
  increment_state_version,
}
use gd_server.Progress.Teams.{
  TeamProgress, current_round_level, is_pass_a_round, prepare_next_round,
}
use gd_server.Rules.{no_pattern}
use gd_server.State.{GameState, add_all, player, set_player}
use gd_server.Tribute.Data.{TributePhasePlan, no_previous_round, no_tribute}
use gd_server.Tribute.Planning.{plan_round}

-- The loop that gives out the hands, with `k` seats left, at seat `i`.
pub give_hands : GameState → List (List ℕ) → ℕ → ℕ → GameState
give_hands s hands zero i = s
give_hands s hands (suc k) i =
    give_hands
      (set_player s i (record (player s i) {
        hand = add_all [] (get_or hands i []);
        has_finished = false;
        finish_rank = 0;
      }))
      hands k (i + 1)

-- The fields that a new round sets, after `prepareNextRound`.
new_round : GameState → TeamProgress → GameState
new_round s progress = record s {
  attacking_team = progress.attacking_team;
  current_level = current_round_level progress;
  is_pass_a_round = is_pass_a_round progress;
  round = s.round + 1;
  last_played_cards = [];
  last_pattern = no_pattern;
  last_played_player_index = none;
  pass_count = 0;
  turn_id = 1;
}

-- The engine with the hands dealt, before the tribute.
pub deal_hands : GameEngine → List Card → List (List ℕ) → GameEngine
unfolding give_hands new_round
deal_hands e cards hands =
    let progress = prepare_next_round e.progress in
    let dealt = give_hands (record (e.state) { all_cards = cards }) hands e.state.player_count 0 in
    record e { progress = progress; state = new_round dealt progress }

-- The three ways to go on from a plan.
enter_tribute : GameEngine → TributePhasePlan → GameEngine
enter_tribute e plan =
    if plan.skipped
    then begin_playing_from_deal
        (record e {
          last_tribute = record no_tribute { skipped = true; first_player_seat = plan.head_seat };
        })
        plan.head_seat
    else if plan.anti_tribute
    then begin_playing_from_deal
        (record e {
          last_tribute = record no_tribute {
            anti_tribute = true;
            first_player_seat = plan.head_seat;
            summary = plan.summary;
          };
        })
        plan.head_seat
    else record e {
      tribute_state = record (e.tribute_state) {
        active = true;
        plan = plan;
        pending_tributers = plan.tributer_seats;
      };
      last_tribute = no_tribute;
      state = increment_state_version (record (e.state) { phase = tribute });
    }

pub start_dealt : GameEngine → Bool → Outcome
unfolding enter_tribute
start_dealt e apply_tribute =
    let cleared = clear_tribute_state e in
    let with_tribute = plan_round cleared.state cleared.config cleared.previous_round >>= λ plan.
    some (enter_tribute cleared plan, done) in
    if apply_tribute
    then with_tribute
    else some (
      begin_playing_from_deal (record e { last_tribute = record no_tribute { skipped = true } })
          (some 0),
      done,
    )

abbrev pub cards_per_player_of : GameRuleConfig → ℕ
cards_per_player_of config =
    if str_eq config.rule_version "solo_test_v1" then k_solo_test_cards_per_player else 0

unfoldable pub deal_and_start_playing : (List Card → List Card) → GameEngine → Bool → Outcome
unfolding deal_hands start_dealt
deal_and_start_playing shuffle e apply_tribute =
    let cards = shuffle (create_full_deck e.config.deck_count) in
    deal cards e.state.player_count (cards_per_player_of e.config) >>= λ hands.
    start_dealt (deal_hands e cards hands) apply_tribute

unfoldable pub start_game : (List Card → List Card) → GameEngine → Outcome
start_game shuffle e =
    if not (phase_eq e.state.phase waiting) && not (phase_eq e.state.phase readying)
    then some (e, failed invalid_state "Cannot start game in current phase")
    else if not (all_ready e)
    then some (e, failed not_all_ready "Not all players ready")
    else deal_and_start_playing shuffle (record e { previous_round = no_previous_round }) false

unfoldable pub start_next_round : (List Card → List Card) → GameEngine → Outcome
start_next_round shuffle e =
    if not (phase_eq e.state.phase finished)
    then some (e, failed invalid_state "Cannot start next round in current phase")
    else deal_and_start_playing shuffle e true
