-- ===== src/Tribute/Data.antt =====
-- The records of tribute.h, the order of the cards, and the look-ups that its functions share.

use gd_server.Base.{
  Bool, List, Option, String, [], false, get_or, if◌then◌else◌, ltb, none, some, suc, true, zero, ℕ,
  ◌+◌, ◌==◌, ◌>>=◌, ◌∷◌,
}
use gd_server.Cards.{Card, RuleContext, is_joker, is_wild_card, level_rank}
use gd_server.State.{GameState, get_card_by_id, player}

unfoldable pub rank_order_for_tribute : Card → RuleContext → ℕ
rank_order_for_tribute card ctx =
    if is_joker card.rank
    then card.rank
    else if is_wild_card ctx card
    then level_rank ctx
    else card.rank

-- `finishRankBySeat` is an array over the seats.
pub record PreviousRoundInfo : Type 0 where
  pub valid : Bool
  pub winning_team : Option ℕ
  pub finish_rank_by_seat : List ℕ

abbrev pub no_previous_round : PreviousRoundInfo
no_previous_round = record {
  valid = false;
  winning_team = none;
  finish_rank_by_seat = 0 ∷ 0 ∷ 0 ∷ 0 ∷ 0 ∷ 0 ∷ [];
}

pub record TributeTransfer : Type 0 where
  pub from_seat : ℕ
  pub to_seat : ℕ
  pub card_id : ℕ

pub record TributeRoundResult : Type 0 where
  pub skipped : Bool
  pub anti_tribute : Bool
  pub tributes : List TributeTransfer
  pub returns : List TributeTransfer
  pub first_player_seat : Option ℕ
  pub head_tributer_seat : Option ℕ
  pub summary : String

-- `TributeRoundResult{}`.
abbrev pub no_tribute : TributeRoundResult
no_tribute = record {
  skipped = false;
  anti_tribute = false;
  tributes = [];
  returns = [];
  first_player_seat = some 0;
  head_tributer_seat = none;
  summary = "";
}

pub record TributePhasePlan : Type 0 where
  pub skipped : Bool
  pub anti_tribute : Bool
  pub tributer_seats : List ℕ
  pub recipient_seats : List ℕ
  pub head_seat : Option ℕ
  pub summary : String

-- `TributePhasePlan{}`.
abbrev pub no_plan : TributePhasePlan
no_plan = record {
  skipped = true;
  anti_tribute = false;
  tributer_seats = [];
  recipient_seats = [];
  head_seat = some 0;
  summary = "";
}

-- The loop of `buildPreviousRoundInfo`, over `k` seats from seat `i`; the other entries stay 0.
ranks_by_seat : GameState → ℕ → ℕ → ℕ → List ℕ
ranks_by_seat s n i zero = []
ranks_by_seat s n i (suc k) =
    (if ltb i n then (player s i).finish_rank else 0) ∷ ranks_by_seat s n (i + 1) k

unfoldable pub build_previous_round_info : GameState → Option ℕ → PreviousRoundInfo
unfolding ranks_by_seat
build_previous_round_info s winning_team = record {
  valid = true;
  winning_team = winning_team;
  finish_rank_by_seat = ranks_by_seat s s.player_count 0 6;
}

-- The loop of `seatByFinishRank`, with `k` seats left, at seat `i`.
seat_from : List ℕ → ℕ → ℕ → ℕ → Option ℕ
seat_from ranks rank zero i = none
seat_from ranks rank (suc k) i =
    let rest = seat_from ranks rank k (i + 1) in if get_or ranks i 0 == rank then some i else rest

unfoldable pub seat_by_finish_rank : PreviousRoundInfo → ℕ → ℕ → Option ℕ
unfolding seat_from
seat_by_finish_rank previous rank player_count =
    seat_from previous.finish_rank_by_seat rank player_count 0

-- `cardsFromIds` and the loops over `hand.cards()` look each card up; `none` if one is missing.
look_up : GameState → List ℕ → Option (List Card)
look_up s [] = some []
look_up s (id ∷ ids) = get_card_by_id s id >>= λ c. look_up s ids >>= λ cs. some (c ∷ cs)

unfoldable pub cards_from_ids : GameState → List ℕ → Option (List Card)
unfolding look_up
cards_from_ids s ids = look_up s ids

-- Is the order better than the best one so far?
abbrev pub above : Option ℕ → ℕ → Bool
above none order = true
above (some best) order = ltb best order

abbrev pub below : Option ℕ → ℕ → Bool
below none order = true
below (some best) order = ltb order best
