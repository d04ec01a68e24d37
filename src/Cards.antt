-- ===== src/Cards.antt =====
-- server/include/game/types.h, card.h, room_config.h and server/src/game/card.cpp,
-- room_config.cpp: suits, ranks, cards, the rule context and the full deck. A rank is the number under the `enum class Rank`; the
-- cast of a level to it keeps the low eight bits.

pub mod Deck
use text.Mathlib.Text.{◌==◌ as str_eq}
use gd_server.Base.{
  Bool, List, String, [], false, if◌then◌else◌, not, suc, true, zero, ℕ, ◌%◌, ◌&&◌, ◌++◌, ◌+◌, ◌==◌,
  ◌||◌, ◌∷◌,
}

abbrev pub k_player_count : ℕ
k_player_count = 6

abbrev pub k_deck_count : ℕ
k_deck_count = 3

abbrev pub k_solo_test_cards_per_player : ℕ
k_solo_test_cards_per_player = 2

abbrev pub k_team_count : ℕ
k_team_count = 2

pub data Suit : Type 0 where
  spade heart club diamond joker : Suit

abbrev pub suit_eq : Suit → Suit → Bool
suit_eq spade spade = true
suit_eq heart heart = true
suit_eq club club = true
suit_eq diamond diamond = true
suit_eq joker joker = true
suit_eq _ _ = false

abbrev pub rank_r10 : ℕ
rank_r10 = 10

abbrev pub rank_a : ℕ
rank_a = 14

abbrev pub small_joker : ℕ
small_joker = 15

abbrev pub big_joker : ℕ
big_joker = 16

pub data GamePhase : Type 0 where
  waiting readying dealing tribute return_tribute playing round_end settlement finished : GamePhase

abbrev pub phase_eq : GamePhase → GamePhase → Bool
phase_eq waiting waiting = true
phase_eq readying readying = true
phase_eq dealing dealing = true
phase_eq tribute tribute = true
phase_eq return_tribute return_tribute = true
phase_eq playing playing = true
phase_eq round_end round_end = true
phase_eq settlement settlement = true
phase_eq finished finished = true
phase_eq _ _ = false

pub data PlayerStatus : Type 0 where
  online offline : PlayerStatus

pub data ErrorCode : Type 0 where
  ok invalid_token unauthorized room_not_found room_full already_in_room not_in_room : ErrorCode
  not_room_owner not_your_turn invalid_cards invalid_pattern cannot_beat invalid_state : ErrorCode
  request_expired duplicate_request not_all_ready invalid_message unknown_type : ErrorCode
  internal_error : ErrorCode

abbrev pub code_is_ok : ErrorCode → Bool
code_is_ok ok = true
code_is_ok _ = false

abbrev pub is_joker : ℕ → Bool
is_joker r = r == small_joker || r == big_joker

pub record Card : Type 0 where
  pub id : ℕ
  pub suit : Suit
  pub rank : ℕ

pub record GameRuleConfig : Type 0 where
  pub player_count : ℕ
  pub deck_count : ℕ
  pub team_count : ℕ
  pub players_per_team : ℕ
  pub enable_tribute : Bool
  pub enable_return_tribute : Bool
  pub enable_anti_tribute : Bool
  pub enable_wild_card : Bool
  pub turn_timeout_seconds : ℕ
  pub rule_version : String

abbrev pub k_level_card_pattern_rank : ℕ
k_level_card_pattern_rank = 15

abbrev pub k_small_joker_pattern_rank : ℕ
k_small_joker_pattern_rank = 16

abbrev pub k_big_joker_pattern_rank : ℕ
k_big_joker_pattern_rank = 17

pub record RuleContext : Type 0 where
  pub current_level : ℕ
  pub enable_wild_card : Bool

abbrev pub level_rank : RuleContext → ℕ
level_rank ctx = ctx.current_level % 256

abbrev pub raw_level_rank_value : RuleContext → ℕ
raw_level_rank_value ctx = level_rank ctx

unfoldable pub is_wild_card : RuleContext → Card → Bool
is_wild_card ctx card =
    if not ctx.enable_wild_card
    then false
    else suit_eq card.suit heart && card.rank == level_rank ctx

unfoldable pub is_level_card : RuleContext → Card → Bool
is_level_card ctx card = not (is_joker card.rank) && card.rank == level_rank ctx

unfoldable pub pattern_rank_for_level_card : ℕ → RuleContext → ℕ
pattern_rank_for_level_card raw ctx =
    if raw == raw_level_rank_value ctx then k_level_card_pattern_rank else raw

unfoldable pub single_effective_rank : Card → RuleContext → ℕ
unfolding is_level_card
single_effective_rank card ctx =
    if card.rank == small_joker
    then k_small_joker_pattern_rank
    else if card.rank == big_joker
    then k_big_joker_pattern_rank
    else if is_level_card ctx card
    then k_level_card_pattern_rank
    else card.rank

-- The loop over `r`, from `r` with `n` rounds left; the id is a `uint16_t`.
suit_cards : Suit → ℕ → ℕ → ℕ → List Card
suit_cards s zero r id = []
suit_cards s (suc n) r id =
    record { id = id % 65536; suit = s; rank = r } ∷ suit_cards s n (r + 1) (id + 1)

-- One round of the loop over the decks.
one_deck : ℕ → List Card
unfolding suit_cards
one_deck id =
    suit_cards spade 13 2 id
    ++ (suit_cards heart 13 2 (id + 13)
        ++ (suit_cards club 13 2 (id + 26)
            ++ (suit_cards diamond 13 2 (id + 39)
                ++ (record { id = (id + 52) % 65536; suit = joker; rank = small_joker }
                    ∷ record { id = (id + 53) % 65536; suit = joker; rank = big_joker }
                    ∷ []))))

decks_from : ℕ → ℕ → List Card
decks_from zero id = []
decks_from (suc n) id = one_deck id ++ decks_from n (id + 54)

unfoldable pub create_full_deck : ℕ → List Card
unfolding decks_from one_deck
create_full_deck deck_count = decks_from deck_count 0

pub data GameMode : Type 0 where
  six four solo : GameMode

pub record RoomConfig : Type 0 where
  pub mode : GameMode
  pub max_players : ℕ
  pub deck_count : ℕ
  pub players_per_team : ℕ
  pub mode_name : String
  pub enable_tribute : Bool

unfoldable pub from_mode_name : String → RoomConfig
from_mode_name mode =
    if str_eq mode "four" || str_eq mode "4"
    then record {
      mode = four;
      max_players = 4;
      deck_count = 2;
      players_per_team = 2;
      mode_name = "four";
      enable_tribute = true;
    }
    else if str_eq mode "solo" || str_eq mode "single"
    then record {
      mode = solo;
      max_players = 4;
      deck_count = 2;
      players_per_team = 2;
      mode_name = "solo";
      enable_tribute = true;
    }
    else record {
      mode = six;
      max_players = 6;
      deck_count = 3;
      players_per_team = 3;
      mode_name = "six";
      enable_tribute = true;
    }

rule_version_of : GameMode → String
rule_version_of four = "four_player_guandan_v1"
rule_version_of solo = "solo_test_v1"
rule_version_of six = "six_player_guandan_v1"

unfoldable pub to_game_rule_config : RoomConfig → GameRuleConfig
unfolding rule_version_of
to_game_rule_config config = record {
  player_count = config.max_players;
  deck_count = config.deck_count;
  team_count = k_team_count;
  players_per_team = config.players_per_team;
  enable_tribute = config.enable_tribute;
  enable_return_tribute = false;
  enable_anti_tribute = false;
  enable_wild_card = true;
  turn_timeout_seconds = 30;
  rule_version = rule_version_of config.mode;
}
