-- ===== src/Tribute/Planning.antt =====
-- tribute.cpp: `planRound` and the checks for enough big jokers to refuse a tribute.
use Prim.Native.String.{◌++◌ as append}
use gd_server.Base.{
  Bool, List, Option, [], false, if◌then◌else◌, leb, none, not, some, suc, true, zero, ℕ, ◌&&◌,
  ◌++◌, ◌+◌, ◌==◌, ◌>>=◌, ◌||◌, ◌∷◌,
}
use gd_server.Cards.{Card, GameRuleConfig, big_joker}
use gd_server.State.{GameState, player}
use gd_server.Tribute.Data.{
  PreviousRoundInfo, TributePhasePlan, cards_from_ids, no_plan, seat_by_finish_rank,
}

count_big_jokers : List Card → ℕ
count_big_jokers [] = 0
count_big_jokers (c ∷ cs) = (if c.rank == big_joker then 1 else 0) + count_big_jokers cs

-- `countBigJokersInSeat` for each seat of a list.
big_jokers_by_seat : GameState → List ℕ → Option (List ℕ)
unfolding count_big_jokers
big_jokers_by_seat s [] = some []
big_jokers_by_seat s (seat ∷ seats) = cards_from_ids s (player s seat).hand >>= λ cs.
    big_jokers_by_seat s seats >>= λ ns. some (count_big_jokers cs ∷ ns)

sum : List ℕ → ℕ
sum [] = 0
sum (n ∷ ns) = n + sum ns

any_at_least : ℕ → List ℕ → Bool
any_at_least k [] = false
any_at_least k (n ∷ ns) = if leb k n then true else any_at_least k ns

count_ones : List ℕ → ℕ
count_ones [] = 0
count_ones (n ∷ ns) = (if n == 1 then 1 else 0) + count_ones ns

-- Seats of one team, where both are there.
abbrev same_team : GameState → Option ℕ → Option ℕ → Bool
same_team s (some a) (some b) = (player s a).team == (player s b).team
same_team s _ _ = false

abbrev to_list : Option ℕ → List ℕ
to_list none = []
to_list (some a) = a ∷ []

-- The two checks read the numbers of big jokers of the seats that owe a tribute.
anti_tribute_four : Bool → List ℕ → Bool
unfolding any_at_least count_ones sum
anti_tribute_four double_down jokers =
    if double_down
    then (if any_at_least 2 jokers then true else leb 2 (count_ones jokers))
    else leb 2 (sum jokers)

anti_tribute_six : Bool → List ℕ → Bool
unfolding any_at_least sum
anti_tribute_six triple_down jokers =
    if triple_down
    then (if any_at_least 3 jokers then true else leb 3 (sum jokers))
    else any_at_least 3 jokers

-- The loop `for (rank = first; ...)` over the seats that hold these ranks.
seats_of_ranks : PreviousRoundInfo → ℕ → ℕ → ℕ → List ℕ
unfolding seat_by_finish_rank
seats_of_ranks previous n zero rank = []
seats_of_ranks previous n (suc k) rank =
    to_list (seat_by_finish_rank previous rank n) ++ seats_of_ranks previous n k (rank + 1)

-- The last step of both cases of `planRound`, by the result of the check.
with_anti : TributePhasePlan → Bool → TributePhasePlan
with_anti plan anti =
    if anti
    then record plan { anti_tribute = true; summary = append plan.summary "_anti" }
    else plan

plan_six : GameState → PreviousRoundInfo → ℕ → Option TributePhasePlan
unfolding seats_of_ranks with_anti big_jokers_by_seat anti_tribute_six seat_by_finish_rank
plan_six s previous head =
    let n = s.player_count in
    let second = seat_by_finish_rank previous 2 n in
    let third = seat_by_finish_rank previous 3 n in
    let triple_down = same_team s (some head) second && same_team s (some head) third in
    let plan = record no_plan {
      skipped = false;
      head_seat = some head;
      tributer_seats =
          if triple_down
          then seats_of_ranks previous n 3 4
          else to_list (seat_by_finish_rank previous 6 n);
      recipient_seats = if triple_down then head ∷ (to_list second ++ to_list third) else head ∷ [];
      summary = if triple_down then "triple_down" else "single_down";
    } in
    big_jokers_by_seat s plan.tributer_seats >>= λ jokers.
    some (with_anti plan (anti_tribute_six triple_down jokers))

plan_four : GameState → PreviousRoundInfo → ℕ → Option TributePhasePlan
unfolding seats_of_ranks with_anti big_jokers_by_seat anti_tribute_four seat_by_finish_rank
plan_four s previous head =
    let n = s.player_count in
    let second = seat_by_finish_rank previous 2 n in
    let double_down = same_team s (some head) second in
    let plan = record no_plan {
      skipped = false;
      head_seat = some head;
      tributer_seats =
          if double_down
          then seats_of_ranks previous n 2 3
          else to_list (seat_by_finish_rank previous 4 n);
      recipient_seats = if double_down then head ∷ to_list second else head ∷ [];
      summary = if double_down then "double_down" else "single_down";
    } in
    big_jokers_by_seat s plan.tributer_seats >>= λ jokers.
    some (with_anti plan (anti_tribute_four double_down jokers))

-- The head seat of a round that is skipped: seat 0 where no seat came first.
skipped_plan : Option ℕ → TributePhasePlan
skipped_plan none = record no_plan { head_seat = some 0; summary = "skip_no_previous_round" }
skipped_plan (some head) = record no_plan {
  head_seat = some head;
  summary = "skip_no_previous_round";
}

plan_by_head : GameState → GameRuleConfig → PreviousRoundInfo → Option ℕ → Option TributePhasePlan
unfolding plan_six plan_four
plan_by_head s config previous none =
    some (record no_plan { head_seat = none; summary = "skip_no_head" })
plan_by_head s config previous (some head) =
    if leb 3 config.players_per_team then plan_six s previous head else plan_four s previous head

unfoldable pub plan_round : GameState → GameRuleConfig → PreviousRoundInfo → Option TributePhasePlan
unfolding skipped_plan plan_by_head seat_by_finish_rank
plan_round s config previous =
    let head = seat_by_finish_rank previous 1 s.player_count in
    if not config.enable_tribute || not previous.valid
    then some (skipped_plan head)
    else plan_by_head s config previous head
