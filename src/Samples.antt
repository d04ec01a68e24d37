-- ===== src/Samples.antt =====
-- Tables to run the code on: four players at the level of twos, the last of them finished.
mod Game
mod Rounds
mod Rooms
mod Server
use gd_server.Base.{List, [], false, length, pos, some, true, ℕ, ◌%◌, ◌+◌, ◌∷◌}
use gd_server.Cards.{
  Card, GameRuleConfig, RuleContext, club, diamond, heart, joker, playing, return_tribute, spade,
  tribute,
}
use gd_server.Engine.Table.{GameEngine, new_engine, no_tribute_state}
use gd_server.Progress.Settlement.{SettlementResult, no_settlement}
use gd_server.Progress.Teams.{TeamProgress, initial_progress}
use gd_server.Rules.{CardPattern, bomb, pair}
use gd_server.State.{GameState, PlayerState, empty_player, initial_state}

abbrev four_config : GameRuleConfig
four_config = record {
  player_count = 4;
  deck_count = 2;
  team_count = 2;
  players_per_team = 2;
  enable_tribute = true;
  enable_return_tribute = false;
  enable_anti_tribute = false;
  enable_wild_card = true;
  turn_timeout_seconds = 30;
  rule_version = "four_player_guandan_v1";
}

abbrev context : RuleContext
context = record { current_level = 2; enable_wild_card = true }

abbrev nine_of_spades : Card
nine_of_spades = record { id = 1; suit = spade; rank = 9 }

abbrev nine_of_hearts : Card
nine_of_hearts = record { id = 2; suit = heart; rank = 9 }

abbrev four_of_clubs : Card
four_of_clubs = record { id = 3; suit = club; rank = 4 }

abbrev ten_of_spades : Card
ten_of_spades = record { id = 4; suit = spade; rank = 10 }

abbrev ten_of_diamonds : Card
ten_of_diamonds = record { id = 5; suit = diamond; rank = 10 }

abbrev little_joker : Card
little_joker = record { id = 6; suit = joker; rank = 15 }

abbrev first_cards : List Card
first_cards = nine_of_spades ∷ nine_of_hearts ∷ four_of_clubs ∷ []

abbrev all_six : List Card
all_six =
    nine_of_spades ∷ nine_of_hearts ∷ four_of_clubs ∷ ten_of_spades ∷ ten_of_diamonds ∷ little_joker
    ∷ []

abbrev seated : ℕ → List ℕ → PlayerState
seated seat hand = record empty_player {
  id = seat + 11;
  seat_index = seat;
  team = seat % 2;
  hand = hand;
}

abbrev ranked : ℕ → ℕ → PlayerState
ranked seat rank = record (seated seat []) { has_finished = true; finish_rank = rank }

abbrev first_hand : List ℕ
first_hand = 1 ∷ 2 ∷ 3 ∷ []

abbrev table : GameState
table = record initial_state {
  phase = playing;
  player_count = 4;
  players = seated 0 first_hand ∷ seated 1 (4 ∷ 5 ∷ []) ∷ seated 2 (6 ∷ []) ∷ ranked 3 1 ∷ [];
  all_cards = all_six;
}

abbrev engine : GameEngine
engine = record (new_engine four_config) { state = table }

abbrev pair_of_nines : CardPattern
pair_of_nines = record { type = pair; primary_rank = 9; length = 2; pair_rank = 0; is_valid = true }

abbrev pair_of_tens : CardPattern
pair_of_tens = record pair_of_nines { primary_rank = 10 }

abbrev four_bomb : CardPattern
four_bomb = record { type = bomb; primary_rank = 3; length = 4; pair_rank = 0; is_valid = true }

abbrev nines : List ℕ
nines = 1 ∷ 2 ∷ []

abbrev fours : List ℕ
fours = 3 ∷ 3 ∷ []

-- The last played, by seat 2, are the nines; seat 0 is to answer.
abbrev led_table : GameState
led_table = record table { last_pattern = pair_of_nines; last_played_player_index = some 2 }

abbrev led_engine : GameEngine
led_engine = record engine { state = led_table }

-- The turn is with the player who has finished.
abbrev stale_table : GameState
stale_table = record table { current_player_index = some 3 }

-- Seats 1 and 2 owe a tribute.
abbrev tribute_engine : GameEngine
tribute_engine = record engine {
  state = record table { phase = tribute };
  tribute_state = record no_tribute_state { active = true; pending_tributers = 1 ∷ 2 ∷ [] };
}

-- Seats 1 and 2 have to return a card, to seats 0 and 3.
abbrev return_engine : GameEngine
return_engine = record engine {
  state = record table { phase = return_tribute };
  tribute_state = record no_tribute_state {
    active = true;
    pending_return_seats = 1 ∷ 2 ∷ [];
    return_to_tributer = (1, 0) ∷ (2, 3) ∷ [];
  };
}

-- A round that is over, with its ranks, and a table for two whose first player is done.
abbrev ranked_table : GameState
ranked_table = record table { players = ranked 0 1 ∷ ranked 1 2 ∷ ranked 2 3 ∷ ranked 3 4 ∷ [] }

abbrev two_table : GameState
two_table = record table { player_count = 2; players = ranked 0 1 ∷ seated 1 (4 ∷ []) ∷ [] }

-- A round that the first team wins by three levels.
abbrev won_by_three : SettlementResult
won_by_three = record no_settlement { winning_team = some 0; level_upgrade = pos 3 }

abbrev lost_by_two : SettlementResult
lost_by_two = record no_settlement { winning_team = some 1; level_upgrade = pos 2 }

-- The first team plays at A and has failed twice.
abbrev last_try : TeamProgress
last_try = record initial_progress {
  levels = record { a_side = 14; b_side = 9 };
  in_pass_a_phase = record { a_side = true; b_side = false };
  pass_a_fail_counts = record { a_side = 2; b_side = 0 };
}

abbrev ready_player : ℕ → PlayerState
ready_player seat = record (seated seat []) { is_ready = true }

-- All four are ready for the first round.
abbrev ready_engine : GameEngine
ready_engine = record (new_engine four_config) {
  state = record initial_state {
    player_count = 4;
    players =
        ready_player 0
        ∷ ready_player 1
        ∷ ready_player 2
        ∷ ready_player 3
        ∷ empty_player
        ∷ empty_player
        ∷ [];
  };
}
