-- ===== src/Engine/Table.antt =====
-- The engine's state, its results, and the operations outside the play. The rule engine, the
-- analyzer, the turn manager and the tribute manager have no state of their own.

use gd_server.Base.{
  Bool, List, Option, String, [], false, if◌then◌else◌, length, none, not, set, some, suc, true,
  zero, ℕ, ◌%◌, ◌+◌, ◌==◌, ◌||◌, ◌∷◌,
}
use gd_server.Cards.{
  ErrorCode, GameRuleConfig, RuleContext, create_full_deck, finished, ok, phase_eq, playing,
  return_tribute, tribute, waiting,
}
use gd_server.Progress.Settlement.{SettlementResult, no_settlement}
use gd_server.Progress.Teams.{TeamProgress, initial_progress}
use gd_server.State.{
  GameState, PlayerState, empty_player, get_player_by_id, initial_state, player, set_player,
}
use gd_server.Tribute.Data.{
  PreviousRoundInfo, TributePhasePlan, TributeRoundResult, no_plan, no_previous_round, no_tribute,
}

pub record PlayResult : Type 0 where
  pub code : ErrorCode
  pub message : String
  pub game_over : Bool
  pub tribute_round_complete : Bool
  pub settlement : SettlementResult

-- `PlayResult{}`.
abbrev pub done : PlayResult
done = record {
  code = ok;
  message = "";
  game_over = false;
  tribute_round_complete = false;
  settlement = no_settlement;
}

abbrev pub failed : ErrorCode → String → PlayResult
failed code message = record done { code = code; message = message }

pub record InteractiveTributeState : Type 0 where
  pub active : Bool
  pub plan : TributePhasePlan
  pub pending_tributers : List ℕ
  pub tribute_submissions : List (ℕ × ℕ)
  pub pending_return_seats : List ℕ
  pub return_to_tributer : List (ℕ × ℕ)

-- `InteractiveTributeState{}`.
abbrev pub no_tribute_state : InteractiveTributeState
no_tribute_state = record {
  active = false;
  plan = no_plan;
  pending_tributers = [];
  tribute_submissions = [];
  pending_return_seats = [];
  return_to_tributer = [];
}

pub record GameEngine : Type 0 where
  pub config : GameRuleConfig
  pub state : GameState
  pub progress : TeamProgress
  pub previous_round : PreviousRoundInfo
  pub last_tribute : TributeRoundResult
  pub tribute_state : InteractiveTributeState

abbrev pub Outcome : Type 0
Outcome = Option (GameEngine × PlayResult)

-- The constructor.
abbrev pub new_engine : GameRuleConfig → GameEngine
new_engine config = record {
  config = config;
  state = initial_state;
  progress = initial_progress;
  previous_round = no_previous_round;
  last_tribute = no_tribute;
  tribute_state = no_tribute_state;
}

-- The loop of `init` over the ids, from seat `i` on.
unfoldable pub seat_players : List ℕ → ℕ → List PlayerState → List PlayerState
seat_players [] i players = players
seat_players (id ∷ ids) i players = seat_players ids (i + 1) (
    set players i (record empty_player {
      id = id;
      seat_index = i;
      team = i % 2;
      is_ready = false;
      has_finished = false;
    }))

unfoldable pub init : GameEngine → String → List ℕ → GameEngine
unfolding seat_players create_full_deck
init e room_id player_ids = record e {
  state = record initial_state {
    room_id = room_id;
    player_count = length player_ids;
    phase = waiting;
    all_cards = create_full_deck e.config.deck_count;
    players = seat_players player_ids 0 initial_state.players;
  };
}

unfoldable pub set_ready_at : GameState → Option ℕ → Bool → GameState
set_ready_at s none ready = s
set_ready_at s (some i) ready = set_player s i (record (player s i) { is_ready = ready })

unfoldable pub set_player_ready : GameEngine → ℕ → Bool → GameEngine
unfolding set_ready_at
set_player_ready e player_id ready = record e {
  state = set_ready_at e.state (get_player_by_id e.state player_id) ready;
}

-- The loop of `allReady`, with `k` seats left, at seat `i`.
ready_from : GameState → ℕ → ℕ → Bool
ready_from s zero i = true
ready_from s (suc k) i =
    let rest = ready_from s k (i + 1) in if not (player s i).is_ready then false else rest

unfoldable pub all_ready : GameEngine → Bool
unfolding ready_from
all_ready e =
    if ready_from e.state e.state.player_count 0
    then e.state.player_count == e.config.player_count
    else false

unfoldable pub update_config : GameEngine → GameRuleConfig → GameEngine
update_config e config =
    if phase_eq e.state.phase playing
      || phase_eq e.state.phase finished
      || phase_eq e.state.phase tribute
      || phase_eq e.state.phase return_tribute
    then e
    else record e { config = config }

abbrev pub rule_context : GameEngine → RuleContext
rule_context e = record {
  current_level = e.state.current_level;
  enable_wild_card = e.config.enable_wild_card;
}

abbrev pub increment_state_version : GameState → GameState
increment_state_version s = record s { state_version = s.state_version + 1 }

-- The loop of `seatOf`, with `k` seats left, at seat `i`.
unfoldable pub seat_of_from : GameState → ℕ → ℕ → ℕ → Option ℕ
seat_of_from s id zero i = none
seat_of_from s id (suc k) i =
    let rest = seat_of_from s id k (i + 1) in if (player s i).id == id then some i else rest

unfoldable pub seat_of : GameState → ℕ → Option ℕ
unfolding seat_of_from
seat_of s id = seat_of_from s id s.player_count 0

unfoldable pub clear_tribute_state : GameEngine → GameEngine
clear_tribute_state e = record e { tribute_state = no_tribute_state }

unfoldable pub begin_playing_from_deal : GameEngine → Option ℕ → GameEngine
begin_playing_from_deal e first_player_seat = record e {
  state = increment_state_version (record (e.state) {
    phase = playing;
    first_player_index = first_player_seat;
    current_player_index = first_player_seat;
  });
}

abbrev pub is_game_over : GameEngine → Bool
is_game_over e = phase_eq e.state.phase finished
