-- ===== src/Tribute/Round.antt =====
-- tribute.cpp, `resolveRound`: a whole tribute at once, every player giving the card that is required
-- and getting back the one that is picked.
pub mod Kept
pub mod Whole
-- The loop that collects the required cards.
use gd_server.Base.{
  List, Option, [], if◌then◌else◌, is_empty, none, not, put_at, some, true, ℕ, ◌++◌, ◌==◌, ◌>>=◌,
  ◌∷◌,
}
use gd_server.Cards.{GameRuleConfig, RuleContext}
use gd_server.Progress.Ranks.Given.{given}
use gd_server.Room.Life.{after}
use gd_server.State.{GameState, player}
use gd_server.Tribute.Choice.{pick_return_card, required_tribute_card}
use gd_server.Tribute.Data.{
  PreviousRoundInfo, TributePhasePlan, TributeRoundResult, TributeTransfer, no_tribute,
}
use gd_server.Tribute.Moves.{assign_tributes, compute_first_player_seat, transfer_card}
use gd_server.Tribute.Planning.{plan_round}
use gd_server.Turns.{seat_eq}

required_cards : GameState → RuleContext → List ℕ → List (ℕ × ℕ) → Option (List (ℕ × ℕ))
required_cards s ctx [] submissions = some submissions
required_cards s ctx (seat ∷ seats) submissions =
    required_tribute_card (player s seat).hand s ctx >>= λ id.
    required_cards s ctx seats (if not (id == 0) then put_at submissions seat id else submissions)

-- The loop that gives cards back: the table afterwards, and the transfers so far.
give_back :
    GameState
    → RuleContext
    → List TributeTransfer
    → List TributeTransfer
    → Option (GameState × List TributeTransfer)
give_back s ctx [] returns = some (s, returns)
give_back s ctx (t ∷ ts) returns = pick_return_card (player s t.to_seat).hand s ctx >>= λ id.
    let given = id == 0 in
    give_back (if given then s else transfer_card s t.to_seat t.from_seat id) ctx ts (
      if given
      then returns
      else returns ++ record { from_seat = t.to_seat; to_seat = t.from_seat; card_id = id } ∷ [])

-- The giver of the first tribute that went to the head seat.
giver_to_head : List TributeTransfer → Option ℕ → Option ℕ
giver_to_head [] head = none
giver_to_head (t ∷ ts) head =
    if seat_eq (some t.to_seat) head then some t.from_seat else giver_to_head ts head

-- What follows the tributes.
returned_round :
    RuleContext
    → PreviousRoundInfo
    → TributePhasePlan
    → GameState × TributeRoundResult
    → Option (GameState × TributeRoundResult)
unfolding give_back giver_to_head
returned_round ctx previous plan (s, result) =
    if is_empty result.tributes
    then some (s, record result { first_player_seat = plan.head_seat })
    else (give_back s ctx result.tributes result.returns >>= λ back.
        let after = record result {
          returns = back.1;
          head_tributer_seat = giver_to_head result.tributes plan.head_seat;
        } in
        compute_first_player_seat after plan.head_seat back.0 ctx previous back.0.player_count
        >>= λ first. some (back.0, record after { first_player_seat = first }))

-- The table afterwards, and the result.
unfoldable pub resolve_round :
    GameState
    → GameRuleConfig
    → PreviousRoundInfo
    → RuleContext
    → Option (GameState × TributeRoundResult)
unfolding required_cards returned_round
resolve_round s config previous ctx = plan_round s config previous >>= λ plan.
    if plan.skipped
    then some (
      s,
      record no_tribute {
        skipped = true;
        first_player_seat = plan.head_seat;
        summary = plan.summary;
      },
    )
    else if plan.anti_tribute
    then some (
      s,
      record no_tribute {
        anti_tribute = true;
        first_player_seat = plan.head_seat;
        summary = plan.summary;
      },
    )
    else (required_cards s ctx plan.tributer_seats [] >>= λ submissions.
        assign_tributes s ctx plan submissions no_tribute >>= λ assigned.
        returned_round ctx previous plan assigned)
