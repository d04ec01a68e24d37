-- ===== src/Engine/View.antt =====
-- `buildViewFor`: what one player gets to see of the game. `isPlayingOwnRound` is left unset where
-- there is no seat to look from: `none`. A call that throws is `none`.
pub mod Hidden
use gd_server.Base.{
  Bool, List, Option, String, [], elem, false, if◌then◌else◌, length, ltb, map, none, not, some,
  suc, zero, ℕ, ◌&&◌, ◌++◌, ◌+◌, ◌==◌, ◌>>=◌, ◌∷◌,
}
use gd_server.Cards.{GamePhase, PlayerStatus, phase_eq, return_tribute, tribute}
use gd_server.Engine.Table.{GameEngine, rule_context, seat_of}
use gd_server.Progress.Settlement.{Two}
use gd_server.Progress.Teams.{is_pass_a_round, is_playing_own_round}
use gd_server.Rules.{CardPattern}
use gd_server.State.{GameState, PlayerState, player}
use gd_server.Tribute.Choice.{required_tribute_card, valid_return_card_ids}
use gd_server.Tribute.Data.{TributeTransfer}
use gd_server.Turns.{seat_eq}

pub record TributeSeatPlay : Type 0 where
  pub seat_index : ℕ
  pub card_id : ℕ
  pub kind : String

pub record OtherPlayer : Type 0 where
  pub id : ℕ
  pub seat_index : ℕ
  pub team : ℕ
  pub card_count : ℕ
  pub has_finished : Bool
  pub finish_rank : ℕ
  pub is_ready : Bool
  pub status : PlayerStatus

pub record PlayerView : Type 0 where
  pub phase : GamePhase
  pub state_version : ℕ
  pub turn_id : ℕ
  pub current_level : ℕ
  pub attacking_team : ℕ
  pub is_pass_a_round : Bool
  pub is_playing_own_round : Option Bool
  pub team_levels : Two ℕ
  pub in_pass_a_phase : Two Bool
  pub pass_a_fail_counts : Two ℕ
  pub current_player_index : Option ℕ
  pub first_player_index : Option ℕ
  pub my_seat_index : Option ℕ
  pub viewer_seat_index : Option ℕ
  pub is_spectating : Bool
  pub spectatable_teammates : List ℕ
  pub my_cards : List ℕ
  pub last_played_cards : List ℕ
  pub last_played_player_index : Option ℕ
  pub last_pattern : CardPattern
  pub pending_tributer_seats : List ℕ
  pub pending_return_seats : List ℕ
  pub required_tribute_card_id : ℕ
  pub valid_return_card_ids : List ℕ
  pub must_return_tribute : Bool
  pub tribute_seat_plays : List TributeSeatPlay
  pub others : List OtherPlayer

-- The seat that the view is taken from.
unfoldable pub anchor_of : GameState → Option ℕ → Option ℕ → Option ℕ
anchor_of s viewer none = viewer
anchor_of s viewer (some seat) = if ltb seat s.player_count then some seat else viewer

-- The loop over the partners who still play, with `k` seats left, at seat `i`.
partners_from : GameState → ℕ → ℕ → ℕ → ℕ → List ℕ
partners_from s viewer team zero i = []
partners_from s viewer team (suc k) i =
    let rest = partners_from s viewer team k (i + 1) in
    if i == viewer
    then rest
    else if (player s i).team == team && not (player s i).has_finished
    then i ∷ rest
    else rest

partners_of : GameState → Option ℕ → List ℕ
unfolding partners_from
partners_of s none = []
partners_of s (some seat) =
    if (player s seat).has_finished
    then partners_from s seat (player s seat).team s.player_count 0
    else []

cards_of : GameState → Option ℕ → List ℕ
cards_of s none = []
cards_of s (some seat) = (player s seat).hand

own_round : GameEngine → Option ℕ → Option Bool
own_round e none = none
own_round e (some seat) = some (is_playing_own_round e.progress (player e.state seat).team)

-- Does the viewer owe a card in the phase?
owes_in : GameEngine → GamePhase → List ℕ → ℕ → Bool
owes_in e phase pending seat =
    e.tribute_state.active && phase_eq e.state.phase phase && elem seat pending

required_for : GameEngine → Option ℕ → Option ℕ
unfolding owes_in
required_for e none = some 0
required_for e (some seat) =
    if owes_in e tribute e.tribute_state.pending_tributers seat
    then required_tribute_card (player e.state seat).hand e.state (rule_context e)
    else some 0

must_return : GameEngine → Option ℕ → Bool
unfolding owes_in
must_return e none = false
must_return e (some seat) = owes_in e return_tribute e.tribute_state.pending_return_seats seat

returns_for : GameEngine → Option ℕ → Option (List ℕ)
unfolding owes_in
returns_for e none = some []
returns_for e (some seat) =
    if owes_in e return_tribute e.tribute_state.pending_return_seats seat
    then valid_return_card_ids (player e.state seat).hand e.state (rule_context e)
    else some []

shown_submission : ℕ × ℕ → TributeSeatPlay
shown_submission (seat, card) = record { seat_index = seat; card_id = card; kind = "tribute" }

shown_transfer : String → TributeTransfer → TributeSeatPlay
shown_transfer kind t = record { seat_index = t.from_seat; card_id = t.card_id; kind = kind }

-- The cards that change hands are open to all.
seat_plays : GameEngine → List TributeSeatPlay
unfolding shown_submission shown_transfer
seat_plays e =
    if phase_eq e.state.phase tribute
    then map shown_submission e.tribute_state.tribute_submissions
    else if phase_eq e.state.phase return_tribute
    then map (shown_transfer "tribute") e.last_tribute.tributes
      ++ map (shown_transfer "return") e.last_tribute.returns
    else []

other_player : ℕ → PlayerState → OtherPlayer
other_player i p = record {
  id = p.id;
  seat_index = i;
  team = p.team;
  card_count = length p.hand;
  has_finished = p.has_finished;
  finish_rank = p.finish_rank;
  is_ready = p.is_ready;
  status = p.status;
}

-- The loop over the other seats, with `k` seats left, at seat `i`.
others_from : GameState → Option ℕ → ℕ → ℕ → List OtherPlayer
unfolding other_player
others_from s anchor zero i = []
others_from s anchor (suc k) i =
    let rest = others_from s anchor k (i + 1) in
    if seat_eq anchor (some i) then rest else other_player i (player s i) ∷ rest

-- The view with the two answers that depend on the tribute.
view_with : GameEngine → Option ℕ → Option ℕ → ℕ → List ℕ → PlayerView
unfolding partners_of cards_of own_round must_return seat_plays others_from
view_with e viewer anchor required returns = record {
  phase = e.state.phase;
  state_version = e.state.state_version;
  turn_id = e.state.turn_id;
  current_level = e.state.current_level;
  attacking_team = e.state.attacking_team;
  is_pass_a_round = e.state.is_pass_a_round;
  is_playing_own_round = own_round e anchor;
  team_levels = e.progress.levels;
  in_pass_a_phase = e.progress.in_pass_a_phase;
  pass_a_fail_counts = e.progress.pass_a_fail_counts;
  current_player_index = if e.tribute_state.active then none else e.state.current_player_index;
  first_player_index = if e.tribute_state.active then none else e.state.first_player_index;
  my_seat_index = anchor;
  viewer_seat_index = viewer;
  is_spectating = not (seat_eq viewer none) && not (seat_eq anchor viewer);
  spectatable_teammates = partners_of e.state viewer;
  my_cards = cards_of e.state anchor;
  last_played_cards = e.state.last_played_cards;
  last_played_player_index = e.state.last_played_player_index;
  last_pattern = e.state.last_pattern;
  pending_tributer_seats = if e.tribute_state.active then e.tribute_state.pending_tributers else [];
  pending_return_seats =
      if e.tribute_state.active then e.tribute_state.pending_return_seats else [];
  required_tribute_card_id = required;
  valid_return_card_ids = returns;
  must_return_tribute = must_return e viewer;
  tribute_seat_plays = seat_plays e;
  others = others_from e.state anchor e.state.player_count 0;
}

unfoldable pub build_view_for : GameEngine → ℕ → Option ℕ → Option PlayerView
unfolding required_for returns_for view_with
build_view_for e viewer_id anchor_seat_override =
    let viewer = seat_of e.state viewer_id in
    required_for e viewer >>= λ required. returns_for e viewer >>= λ returns.
    some (view_with e viewer (anchor_of e.state viewer anchor_seat_override) required returns)
