-- ===== src/Progress/Teams.antt =====
-- team_progress.h and team_progress.cpp: the levels of the two teams.
pub mod Levels
use gd_server.Base.{
  Bool, Option, false, if◌then◌else◌, is_pos, leb, min, none, not, pos_part, some, true, ℕ, ◌&&◌,
  ◌+◌, ◌==◌,
}
use gd_server.Progress.Settlement.{SettlementResult, Two, at, both, put}

abbrev pub k_level_a : ℕ
k_level_a = 14

abbrev pub k_pass_a_fail_limit : ℕ
k_pass_a_fail_limit = 3

pub record TeamProgress : Type 0 where
  pub levels : Two ℕ
  pub in_pass_a_phase : Two Bool
  pub pass_a_fail_counts : Two ℕ
  pub attacking_team : ℕ
  pub last_winning_team : Option ℕ

-- `TeamProgress{}`.
abbrev pub initial_progress : TeamProgress
initial_progress = record {
  levels = both 2;
  in_pass_a_phase = both false;
  pass_a_fail_counts = both 0;
  attacking_team = 0;
  last_winning_team = none;
}

unfoldable pub current_round_level : TeamProgress → ℕ
current_round_level p = at p.levels p.attacking_team

unfoldable pub is_pass_a_round : TeamProgress → Bool
is_pass_a_round p =
    at p.in_pass_a_phase p.attacking_team && leb k_level_a (at p.levels p.attacking_team)

unfoldable pub is_playing_own_round : TeamProgress → ℕ → Bool
is_playing_own_round p team = team == p.attacking_team

abbrev or_team : Option ℕ → ℕ → ℕ
or_team none t = t
or_team (some w) t = w

unfoldable pub prepare_next_round : TeamProgress → TeamProgress
prepare_next_round p = record p { attacking_team = or_team p.last_winning_team p.attacking_team }

-- The progress copied into the result, at the start and at the end of `applySettlement`.
copy_progress : TeamProgress → SettlementResult → SettlementResult
copy_progress p r = record r {
  team_levels = p.levels;
  in_pass_a_phase = p.in_pass_a_phase;
  pass_a_fail_counts = p.pass_a_fail_counts;
  attacking_team = p.attacking_team;
}

-- The branch of a round in which the attackers try to pass A.
settle_pass_a : TeamProgress → SettlementResult → ℕ → TeamProgress × SettlementResult
settle_pass_a p r winner =
    let team = p.attacking_team in
    let success = winner == team && is_pos r.level_upgrade in
    let r1 = record r { pass_a_team = some team; pass_a_success = success } in
    let fails = at p.pass_a_fail_counts team + 1 in
    let failed = record p { pass_a_fail_counts = put p.pass_a_fail_counts team fails } in
    let r2 = record r1 { pass_a_fail_count = fails } in
    let dropped = record failed {
      levels = put p.levels team 2;
      in_pass_a_phase = put p.in_pass_a_phase team false;
      pass_a_fail_counts = put failed.pass_a_fail_counts team 0;
    } in
    if success
    then (p, record r1 { match_won = true; new_level = at p.levels team })
    else if leb k_pass_a_fail_limit fails
    then (dropped, record r2 { pass_a_fail_reset = true; new_level = at dropped.levels team })
    else (failed, record r2 { new_level = at p.levels team })

-- The branch of an ordinary round with an upgrade.
settle_upgrade : TeamProgress → SettlementResult → ℕ → TeamProgress × SettlementResult
settle_upgrade p r winner =
    let upgraded = at p.levels winner + pos_part r.level_upgrade in
    if not (at p.in_pass_a_phase winner) && leb k_level_a upgraded
    then (
      record p {
        in_pass_a_phase = put p.in_pass_a_phase winner true;
        levels = put p.levels winner k_level_a;
      },
      record r { entered_pass_a_phase = true; new_level = k_level_a },
    )
    else (
      record p { levels = put p.levels winner (min k_level_a upgraded) },
      record r { new_level = min k_level_a upgraded },
    )

settle : TeamProgress → SettlementResult → ℕ → TeamProgress × SettlementResult
unfolding is_pass_a_round settle_pass_a settle_upgrade
settle p r winner =
    let r1 = record r { is_pass_a_round = is_pass_a_round p } in
    if is_pass_a_round p
    then settle_pass_a p r1 winner
    else if is_pos r.level_upgrade
    then settle_upgrade p r1 winner
    else (p, r1)

-- The assignments after the branches.
close_settlement : ℕ → TeamProgress × SettlementResult → TeamProgress × SettlementResult
unfolding copy_progress
close_settlement winner (p, r) =
    let q = record p { last_winning_team = some winner; attacking_team = winner } in
    (q, copy_progress q r)

apply_to : Option ℕ → TeamProgress → SettlementResult → TeamProgress × SettlementResult
unfolding settle close_settlement
apply_to none p r = (p, r)
apply_to (some winner) p r = close_settlement winner (settle p r winner)

-- The progress afterwards, and the result with its new fields.
unfoldable pub apply_settlement : TeamProgress → SettlementResult → TeamProgress × SettlementResult
unfolding copy_progress apply_to
apply_settlement p result = apply_to result.winning_team p (copy_progress p result)
