-- ===== src/State.antt =====
-- server/include/game/game_state.h, server/src/game/game_state.cpp, hand.h and hand.cpp: players,
-- hands and the table. A seat that the source leaves at -1 is `none`. `std::array` is a list of six entries; the
-- source keeps its indices in range, and a read past the end, which it does not define, gives an
-- empty player here. A call that throws is `none`.
pub mod Hands
pub mod Seats
use gd_server.Base.{
  ℕ, zero, suc, ◌+◌, ◌%◌, Bool, true, false, List, [], ◌∷◌, ◌++◌, Option, none, some, String, ◌==◌,
  if◌then◌else◌, ◌>>=◌, get_or, set, replicate, is_empty, elem, erase,
}
use gd_server.Cards.{Card, GamePhase, PlayerStatus, online, waiting, k_player_count}
use gd_server.Rules.{CardPattern, no_pattern}

-- A hand is the list of its card ids.
abbrev pub Hand : Type 0
Hand = List ℕ

unfoldable pub add : Hand → ℕ → Hand
add hand card = hand ++ card ∷ []

unfoldable pub add_all : Hand → List ℕ → Hand
add_all hand cards = hand ++ cards

-- The loop of `remove` over the copy `temp`.
take_out : Hand → List ℕ → Option Hand
take_out temp [] = some temp
take_out temp (id ∷ ids) =
    let rest = take_out (erase temp id) ids in if elem id temp then rest else none

-- The hand afterwards, and the result.
unfoldable pub remove : Hand → List ℕ → Hand × Bool
unfolding take_out
remove hand to_remove = elim (take_out hand to_remove) [
  | none ↦ (hand, false)
  | some temp ↦ (temp, true)
]

unfoldable pub contains : Hand → List ℕ → Bool
contains hand [] = true
contains hand (id ∷ ids) = if elem id hand then contains hand ids else false

pub record PlayerState : Type 0 where
  pub id : ℕ
  pub seat_index : ℕ
  pub team : ℕ
  pub hand : Hand
  pub status : PlayerStatus
  pub is_ready : Bool
  pub has_finished : Bool
  pub finish_rank : ℕ

abbrev pub empty_player : PlayerState
empty_player = record {
  id = 0;
  seat_index = 0;
  team = 0;
  hand = [];
  status = online;
  is_ready = false;
  has_finished = false;
  finish_rank = 0;
}

-- The counters `turnId`, `stateVersion` (`uint64_t`) and `round` (`int`) are left unbounded: they
-- grow by one or two at a call.
pub record GameState : Type 0 where
  pub room_id : String
  pub phase : GamePhase
  pub players : List PlayerState
  pub player_count : ℕ
  pub current_player_index : Option ℕ
  pub current_level : ℕ
  pub attacking_team : ℕ
  pub is_pass_a_round : Bool
  pub first_player_index : Option ℕ
  pub last_played_cards : List ℕ
  pub last_pattern : CardPattern
  pub last_played_player_index : Option ℕ
  pub pass_count : ℕ
  pub turn_id : ℕ
  pub state_version : ℕ
  pub round : ℕ
  pub all_cards : List Card

-- `GameState{}`.
abbrev pub initial_state : GameState
initial_state = record {
  room_id = "";
  phase = waiting;
  players = replicate k_player_count empty_player;
  player_count = 0;
  current_player_index = some 0;
  current_level = 2;
  attacking_team = 0;
  is_pass_a_round = false;
  first_player_index = some 0;
  last_played_cards = [];
  last_pattern = no_pattern;
  last_played_player_index = none;
  pass_count = 0;
  turn_id = 0;
  state_version = 0;
  round = 0;
  all_cards = [];
}

-- `state.players[seat]`, and an assignment to it.
abbrev pub player : GameState → ℕ → PlayerState
player s seat = get_or s.players seat empty_player

abbrev pub set_player : GameState → ℕ → PlayerState → GameState
set_player s seat p = record s { players = set s.players seat p }

find_card : List Card → ℕ → Option Card
find_card [] id = none
find_card (c ∷ cs) id = if c.id == id then some c else find_card cs id

unfoldable pub get_card_by_id : GameState → ℕ → Option Card
unfolding find_card
get_card_by_id s id = find_card s.all_cards id

-- `getPlayerById` goes through the whole array, also past `playerCount`. Its callers write through
-- the pointer that it returns, so the position stands for the pointer.
index_of_id : List PlayerState → ℕ → Option ℕ
index_of_id [] id = none
index_of_id (p ∷ ps) id =
    let rest = index_of_id ps id in if p.id == id then some 0 else (rest >>= λ i. some (suc i))

unfoldable pub get_player_by_id : GameState → ℕ → Option ℕ
unfolding index_of_id
get_player_by_id s id = index_of_id s.players id

unfoldable pub team_of : ℕ → ℕ
team_of seat_index = seat_index % 2
