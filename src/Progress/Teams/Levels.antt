-- ===== src/Progress/Teams/Levels.antt =====
-- The levels of the two teams from round to round.
use gd_server.Base.{
  Bool, arith, false, is_pos, min, pos_part, some, true, ℕ, ◌+◌, ◌-◌, ◌<◌, ◌↔◌, ◌≡◌, ◌≤◌, ◌⊎◌,
}
use gd_server.Progress.Settlement.{SettlementResult, at}
use gd_server.Progress.Teams.{
  TeamProgress, apply_settlement, current_round_level, initial_progress, is_pass_a_round,
  prepare_next_round,
}

-- A team's level lies between 2 and A; a team in the pass-A phase is at A and has failed at most
-- twice, any other has no failure on its account.
pub record IsSide (level fails : ℕ) (phase : Bool) : Type 0 where
  pub level_low : 2 ≤ level
  pub level_high : level ≤ 14
  pub at_a : phase ≡ true → level ≡ 14
  pub fails_low : fails ≤ 2
  pub no_fails : phase ≡ false → fails ≡ 0

pub record Inv (p : TeamProgress) : Type 0 where
  pub side_a : IsSide p.levels.a_side p.pass_a_fail_counts.a_side p.in_pass_a_phase.a_side
  pub side_b : IsSide p.levels.b_side p.pass_a_fail_counts.b_side p.in_pass_a_phase.b_side
  pub attackers : p.attacking_team ≤ 1

pub initial_progress-Inv : Inv initial_progress
initial_progress-Inv = ground arith

-- A settlement won by either team keeps both levels between 2 and A, and the failures of a team at
-- most two, none outside the pass-A phase.
pub apply_settlement-Inv :
    (p : TeamProgress) (r : SettlementResult) (w : ℕ)
    → Inv p
    → r.winning_team ≡ some w
    → w ≤ 1
    → Inv (apply_settlement p r).0
unfolding apply_settlement
apply_settlement-Inv p r w v e h = ground arith

-- The match is won exactly in a pass-A round that the attackers win with an upgrade.
pub match_won_iff :
    (p : TeamProgress) (r : SettlementResult) (w : ℕ)
    → r.winning_team ≡ some w
    → r.match_won ≡ false
    → ((apply_settlement p r).1.match_won ≡ true)
      ↔ ((is_pass_a_round p ≡ true) × (w ≡ p.attacking_team) × (is_pos r.level_upgrade ≡ true))
unfolding apply_settlement is_pass_a_round
match_won_iff p r w e h = ground arith

-- In an ordinary round with an upgrade the winner's level rises by it, up to A, the other's stays,
-- and the winner is in the pass-A phase afterwards just if it was before or has now reached A.
pub upgrade_levels :
    (p : TeamProgress) (r : SettlementResult) (w : ℕ)
    → r.winning_team ≡ some w
    → w ≤ 1
    → is_pass_a_round p ≡ false
    → is_pos r.level_upgrade ≡ true
    → let q = (apply_settlement p r).0 in
      (at q.levels w ≡ min 14 (at p.levels w + pos_part r.level_upgrade))
      × (at q.levels (1 - w) ≡ at p.levels (1 - w))
      × ((at q.in_pass_a_phase w ≡ true)
          ↔ ((13 < at p.levels w + pos_part r.level_upgrade) ⊎ (at p.in_pass_a_phase w ≡ true)))
unfolding apply_settlement is_pass_a_round
upgrade_levels p r w e h o u = ground arith

-- A level falls only to 2, in a pass-A round that the attackers fail for the third time.
pub level_drop :
    (p : TeamProgress) (r : SettlementResult) (w t : ℕ)
    → Inv p
    → r.winning_team ≡ some w
    → w ≤ 1
    → t ≤ 1
    → at (apply_settlement p r).0.levels t < at p.levels t
    → (at (apply_settlement p r).0.levels t ≡ 2)
      × (is_pass_a_round p ≡ true)
      × (t ≡ p.attacking_team)
      × (at p.pass_a_fail_counts t ≡ 2)
unfolding apply_settlement is_pass_a_round
level_drop p r w t v e h k d = ground arith

-- The next round is played at the level of the team that won this one.
pub next_round_level :
    (p : TeamProgress) (r : SettlementResult) (w : ℕ)
    → r.winning_team ≡ some w
    → let q = prepare_next_round (apply_settlement p r).0 in
      (q.attacking_team ≡ w) × (current_round_level q ≡ at (apply_settlement p r).1.team_levels w)
unfolding apply_settlement prepare_next_round current_round_level
next_round_level p r w e = ground arith
