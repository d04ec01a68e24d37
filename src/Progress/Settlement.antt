-- ===== src/Progress/Settlement.antt =====
-- settlement.h and settlement.cpp: the result of a round. The upgrade is the source's
-- `base - rankSum`, an `int` that is negative where the sum is larger.
pub mod Upgrade
use gd_server.Base.{
  Bool, List, Option, [], false, if◌then◌else◌, leb, length, ltb, min, none, pos, some, sub_ℕ, suc,
  zero, ℕ, ℤ, ◌&&◌, ◌+◌, ◌==◌, ◌∷◌,
}
use gd_server.State.{GameState, player}

-- `std::array<T, 2>`, indexed by a team.
pub record Two {ℓ} (A : Type ℓ) : Type ℓ where
  pub a_side : A
  pub b_side : A

abbrev pub at {ℓ} : {A : Type ℓ} → Two A → ℕ → A
at t zero = t.a_side
at t (suc n) = t.b_side

abbrev pub put {ℓ} : {A : Type ℓ} → Two A → ℕ → A → Two A
put t zero v = record t { a_side = v }
put t (suc n) v = record t { b_side = v }

abbrev pub both {ℓ} : {A : Type ℓ} → A → Two A
both v = record { a_side = v; b_side = v }

pub record SettlementResult : Type 0 where
  pub winning_team : Option ℕ
  pub level_upgrade : ℤ
  pub new_level : ℕ
  pub team_levels : Two ℕ
  pub in_pass_a_phase : Two Bool
  pub pass_a_fail_counts : Two ℕ
  pub attacking_team : ℕ
  pub is_pass_a_round : Bool
  pub pass_a_team : Option ℕ
  pub pass_a_success : Bool
  pub match_won : Bool
  pub entered_pass_a_phase : Bool
  pub pass_a_fail_count : ℕ
  pub pass_a_fail_reset : Bool
  pub ranks : List ℕ
  pub player_ids : List ℕ

-- `SettlementResult{}`.
abbrev pub no_settlement : SettlementResult
no_settlement = record {
  winning_team = none;
  level_upgrade = pos 0;
  new_level = 0;
  team_levels = both 2;
  in_pass_a_phase = both false;
  pass_a_fail_counts = both 0;
  attacking_team = 0;
  is_pass_a_round = false;
  pass_a_team = none;
  pass_a_success = false;
  match_won = false;
  entered_pass_a_phase = false;
  pass_a_fail_count = 0;
  pass_a_fail_reset = false;
  ranks = [];
  player_ids = [];
}

-- The loop of `findRank`, with `k` seats left, at seat `i`.
find_rank_from : GameState → ℕ → ℕ → ℕ → Option ℕ
find_rank_from s rank zero i = none
find_rank_from s rank (suc k) i =
    let rest = find_rank_from s rank k (i + 1) in
    if (player s i).finish_rank == rank then some i else rest

unfoldable pub find_rank : GameState → ℕ → Option ℕ
unfolding find_rank_from
find_rank s rank = find_rank_from s rank s.player_count 0

-- `std::sort` on numbers.
insert : ℕ → List ℕ → List ℕ
insert a [] = a ∷ []
insert a (x ∷ xs) = if leb a x then a ∷ x ∷ xs else x ∷ insert a xs

sort : List ℕ → List ℕ
unfolding insert
sort [] = []
sort (x ∷ xs) = insert x (sort xs)

-- The ranks of a team, from seat `i` on.
pub team_ranks_from : GameState → ℕ → ℕ → ℕ → List ℕ
team_ranks_from s team zero i = []
team_ranks_from s team (suc k) i =
    let rest = team_ranks_from s team k (i + 1) in
    if (player s i).team == team && ltb 0 (player s i).finish_rank
    then (player s i).finish_rank ∷ rest
    else rest

-- The loop that adds up the first `take` ranks.
pub sum_first : ℕ → List ℕ → ℕ
sum_first zero xs = 0
sum_first (suc n) [] = 0
sum_first (suc n) (x ∷ xs) = x + sum_first n xs

unfoldable pub sum_winning_team_ranks : GameState → ℕ → ℕ → ℕ
unfolding sort team_ranks_from sum_first
sum_winning_team_ranks s team n =
    let ranks = sort (team_ranks_from s team s.player_count 0) in
    sum_first (min n (length ranks)) ranks

-- The loop that copies ranks and ids.
ranks_from : GameState → ℕ → ℕ → List ℕ
ranks_from s zero i = []
ranks_from s (suc k) i = (player s i).finish_rank ∷ ranks_from s k (i + 1)

ids_from : GameState → ℕ → ℕ → List ℕ
ids_from s zero i = []
ids_from s (suc k) i = (player s i).id ∷ ids_from s k (i + 1)

rank_count : ℕ → ℕ
rank_count players_per_team = if leb 3 players_per_team then 2 else players_per_team

upgrade_base : ℕ → ℕ
upgrade_base players_per_team = if leb 3 players_per_team then 10 else 6

unfoldable pub calculate : GameState → ℕ → SettlementResult
unfolding find_rank sum_winning_team_ranks ranks_from ids_from rank_count upgrade_base
calculate s players_per_team =
    let result = record no_settlement {
      ranks = ranks_from s s.player_count 0;
      player_ids = ids_from s s.player_count 0;
    } in
    elim (find_rank s 1) [
      | none ↦ result
      | some head ↦
          let winning_team = (player s head).team in
          record result {
            winning_team = some winning_team;
            level_upgrade =
                sub_ℕ (upgrade_base players_per_team)
                  (sum_winning_team_ranks s winning_team (rank_count players_per_team));
          }
    ]
