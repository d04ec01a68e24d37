-- ===== src/Samples/Rounds.antt =====
-- Deals, tributes, ranks and levels applied to the sample tables.

use gd_server.Base.{
  All, List, [], arith, elem, false, get_or, inl, inr, length, none, pos, refl, some, sub_ℕ, sym,
  true, ℕ, ◌<◌, ◌∙◌, ◌∷◌, ◌≡◌, ◌≢◌, ◌≤◌, ◌⊎◌,
}
use gd_server.Cards.{
  Card, create_full_deck, invalid_cards, is_level_card, is_wild_card, ok, phase_eq, playing,
  return_tribute, single_effective_rank, tribute,
}
use gd_server.Cards.Deck.{deal}
use gd_server.Engine.Start.{cards_per_player_of, deal_and_start_playing, start_game}
use gd_server.Engine.Start.Dealt.{start_game_deals}
use gd_server.Engine.Table.{
  GameEngine, PlayResult, all_ready, begin_playing_from_deal, clear_tribute_state, done, failed,
  rule_context, seat_of,
}
use gd_server.Engine.TributePhase.{record_return, record_tribute, submit_return, submit_tribute}
use gd_server.Engine.TributePhase.Returns.{ReturnTaken, card_zero_refused, submit_return_total}
use gd_server.Engine.TributePhase.Steps.{IsTributeTaken, submit_tribute_total}
use gd_server.Progress.Ranks.{assign_remaining_finish_ranks}
use gd_server.Progress.Ranks.Complete.{assign_remaining_finish_ranks_complete}
use gd_server.Progress.Ranks.Given.{IsRanked}
use gd_server.Progress.Ranks.Open.{unfinished}
use gd_server.Progress.Settlement.{calculate}
use gd_server.Progress.Settlement.Upgrade.{IsRanksOf, calculate_total, sum_least}
use gd_server.Progress.Teams.{apply_settlement, initial_progress}
use gd_server.Progress.Teams.Levels.{Inv, apply_settlement-Inv, initial_progress-Inv}
use gd_server.Samples.{
  context, four_config, ranked_table, ready_engine, return_engine, table, tribute_engine, two_table,
  won_by_three,
}
use gd_server.State.{GameState, add, contains, get_card_by_id, player, remove}
use gd_server.Tribute.Choice.{
  is_valid_return_card, is_valid_return_submission, is_valid_tribute_card,
  is_valid_tribute_submission, pick_best_tribute_card, pick_return_card, required_tribute_card,
  valid_return_card_ids,
}
use gd_server.Tribute.Data.{
  PreviousRoundInfo, TributePhasePlan, TributeRoundResult, cards_from_ids, rank_order_for_tribute,
  seat_by_finish_rank,
}
use gd_server.Tribute.Moves.{assign_tributes, compute_first_player_seat, transfer_card}
use gd_server.Tribute.Planning.{plan_round}
use gd_server.Tribute.Round.{resolve_round}
use gd_server.Tribute.Round.Kept.{held_in}
use gd_server.Tribute.Round.Whole.{resolve_round-held}

abbrev three : ℕ
three = 3

abbrev seat_zero : ℕ
seat_zero = 0

abbrev seat_one : ℕ
seat_one = 1

abbrev any_size : ℕ
any_size = 0

abbrev owed : GameEngine
owed = record_tribute tribute_engine 1 4

abbrev given_back : GameEngine
given_back = record_return return_engine 1 4

below_two : (x : ℕ) → x < 2 → (x ≡ 0) ⊎ (x ≡ 1)
below_two x h = omega arith

two_table-IsRanked : IsRanked two_table 2
two_table-IsRanked = record {
  bounded = λ x h f. elim (below_two x h) [
    | inl e ↦ rw e (omega arith, omega arith)
    | inr e ↦ absurd (second x e f)
  ];
  distinct = λ x y hx hy fx fy q. elim (below_two x hx) [
    | inr e ↦ absurd (second x e fx)
    | inl e ↦ elim (below_two y hy) [ inl d ↦ e ∙ sym d | inr d ↦ absurd (second y d fy) ]
  ];
}
  where
    second : (x : ℕ) → x ≡ 1 → (player two_table x).has_finished ≢ true
    second x e f = let g : (player two_table 1).has_finished ≡ true = rw e at f in ground arith

-- Seat 1 came last and gives to seat 0, who came first.
abbrev last_time : PreviousRoundInfo
last_time = record {
  valid = true;
  winning_team = some 0;
  finish_rank_by_seat = 1 ∷ 4 ∷ 3 ∷ 2 ∷ 0 ∷ 0 ∷ [];
}

planned :
    (plan : TributePhasePlan) × (plan_round table four_config last_time ≡ some plan)
    × All (λ (k : ℕ). k < length table.players) plan.tributer_seats
    × All (λ (k : ℕ). k < length table.players) plan.recipient_seats
unfolding plan_round seat_by_finish_rank cards_from_ids get_card_by_id
planned = (_, refl, (omega arith, tt), (omega arith, tt))

abbrev the_plan : TributePhasePlan
the_plan = planned.0

resolved :
    (t : GameState) × (out : TributeRoundResult) × (resolve_round table four_config last_time
        context
      ≡ some (t, out))
unfolding resolve_round plan_round seat_by_finish_rank required_tribute_card pick_best_tribute_card
    rank_order_for_tribute is_valid_tribute_card assign_tributes transfer_card pick_return_card
    compute_first_player_seat cards_from_ids get_card_by_id contains remove add is_wild_card
    is_level_card
resolved = (_, _, refl)

abbrev resolved_table : GameState
resolved_table = resolved.0

abbrev resolved_result : TributeRoundResult
resolved_result = resolved.1

resolve_round-held_example : held_in resolved_table.players 4 ≡ held_in table.players 4
resolve_round-held_example =
    resolve_round-held table resolved_table four_config last_time context the_plan resolved_result 4
      (planned.1) (planned.2) (planned.3) (resolved.2)

assign_remaining_finish_ranks_complete_example :
    ((player (assign_remaining_finish_ranks two_table) seat_zero).has_finished ≡ true)
    × (0 < (player (assign_remaining_finish_ranks two_table) seat_zero).finish_rank)
    × ((player (assign_remaining_finish_ranks two_table) seat_zero).finish_rank
        ≤ two_table.player_count)
    × ((seat_zero ≡ seat_one)
        ⊎ ((player (assign_remaining_finish_ranks two_table) seat_zero).finish_rank
            ≢ (player (assign_remaining_finish_ranks two_table) seat_one).finish_rank))
    × (((player two_table seat_zero).has_finished ≡ false)
        ⊎ (player (assign_remaining_finish_ranks two_table) seat_zero ≡ player two_table seat_zero))
unfolding unfinished
assign_remaining_finish_ranks_complete_example =
    assign_remaining_finish_ranks_complete two_table seat_zero seat_zero seat_zero seat_one
      two_table-IsRanked refl (omega arith) (omega arith) refl refl (omega arith) (omega arith)

apply_settlement-Inv_example : Inv (apply_settlement initial_progress won_by_three).0
apply_settlement-Inv_example =
    apply_settlement-Inv initial_progress won_by_three 0 initial_progress-Inv refl (omega arith)

calculate_total_example :
    (((calculate ranked_table 2).winning_team ≡ none)
      × ((calculate ranked_table 2).level_upgrade ≡ pos 0)
      × ((x : ℕ) → (ranked_table.player_count ≤ x) ⊎ ((player ranked_table x).finish_rank ≢ 1)))
    ⊎ ((x : ℕ) × (ranks : List ℕ) × (x < ranked_table.player_count)
        × ((player ranked_table x).finish_rank ≡ 1)
        × ((y : ℕ) → y < x → (player ranked_table y).finish_rank ≢ 1)
        × ((calculate ranked_table 2).winning_team ≡ some (player ranked_table x).team)
        × IsRanksOf ranked_table (player ranked_table x).team ranks
        × ((3 ≤ 2) × ((calculate ranked_table 2).level_upgrade ≡ sub_ℕ 10 (sum_least 2 ranks))
            ⊎ (2 < 3) × ((calculate ranked_table 2).level_upgrade ≡ sub_ℕ 6 (sum_least 2 ranks))))
calculate_total_example = calculate_total ranked_table 2

submit_tribute_total_example :
    ((owed ≡ tribute_engine) × (done.code ≢ ok))
    ⊎ (phase_eq tribute_engine.state.phase tribute ≡ true)
      × (tribute_engine.tribute_state.active ≡ true)
      × ((seat : ℕ) × (seat_of tribute_engine.state 12 ≡ some seat)
          × (elem seat tribute_engine.tribute_state.pending_tributers ≡ true)
          × (is_valid_tribute_submission seat 4 tribute_engine.state (rule_context tribute_engine)
              ≡ some true)
          × IsTributeTaken tribute_engine owed done seat 4)
unfolding submit_tribute is_valid_tribute_submission required_tribute_card pick_best_tribute_card
    rank_order_for_tribute is_valid_tribute_card seat_of contains cards_from_ids get_card_by_id
    is_wild_card
submit_tribute_total_example = submit_tribute_total tribute_engine owed 12 4 done refl

submit_return_total_example :
    ((given_back ≡ return_engine) × (done.code ≢ ok))
    ⊎ (phase_eq return_engine.state.phase return_tribute ≡ true)
      × (return_engine.tribute_state.active ≡ true)
      × ((seat : ℕ) × (seat_of return_engine.state 12 ≡ some seat)
          × (elem seat return_engine.tribute_state.pending_return_seats ≡ true)
          × (is_valid_return_submission seat 4 return_engine.state (rule_context return_engine)
              ≡ some true)
          × ReturnTaken return_engine given_back done seat 4)
unfolding submit_return is_valid_return_submission valid_return_card_ids is_valid_return_card
    is_level_card single_effective_rank seat_of contains cards_from_ids get_card_by_id is_wild_card
submit_return_total_example = submit_return_total return_engine given_back 12 4 done refl

abbrev zero_refused : PlayResult
zero_refused = failed invalid_cards "Must tribute the largest non-wild card"

card_zero_refused_example : (tribute_engine ≡ tribute_engine) × (zero_refused.code ≢ ok)
unfolding submit_tribute is_valid_tribute_submission seat_of
card_zero_refused_example =
    card_zero_refused tribute_engine tribute_engine 12 zero_refused (inl refl)

-- The order of the deck as it comes.
abbrev unshuffled : List Card → List Card
unshuffled cards = cards

started :
    (e' : GameEngine) × (r : PlayResult) × (start_game unshuffled ready_engine ≡ some (e', r))
    × (r.code ≡ ok)
unfolding start_game all_ready deal_and_start_playing create_full_deck deal begin_playing_from_deal
    clear_tribute_state
started = (_, _, refl, refl)

abbrev started_engine : GameEngine
started_engine = started.0

abbrev started_result : PlayResult
started_result = started.1

start_game_deals_example :
    (all_ready ready_engine ≡ true)
    × (started_engine.state.phase ≡ playing)
    × ((hands : List (List ℕ)) × (deal
            (unshuffled (create_full_deck ready_engine.config.deck_count))
            ready_engine.state.player_count
            (cards_per_player_of ready_engine.config)
          ≡ some hands)
        × ((player started_engine.state seat_one).hand ≡ get_or hands seat_one [])
        × ((player started_engine.state seat_one).has_finished ≡ false))
start_game_deals_example =
    start_game_deals unshuffled ready_engine started_engine started_result seat_one (started.2)
      (started.3) (omega arith) (omega arith)
