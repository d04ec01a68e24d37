-- ===== src/Progress/Ranks/Hands.antt =====
-- The ranks given at the end of a round leave the hands alone.

use gd_server.Base.{
  Option, arith, get_or-set_part, none, refl, some, suc, true, zero, ℕ, ◌%◌, ◌+◌, ◌≡◌,
}
use gd_server.Progress.Ranks.{assign_after, assign_from, assign_remaining_finish_ranks}
use gd_server.State.{GameState, PlayerState, empty_player, player, set_player}

assign_from-hand :
    (s : GameState) (k r seat x : ℕ) → (player (assign_from s k r seat) x).hand ≡ (player s x).hand
unfolding assign_from
assign_from-hand s zero r seat x = refl
assign_from-hand s (suc k) r seat x =
    let p = record (player s seat) { has_finished = true; finish_rank = r } in
    ground (
      arith,
      assign_from-hand s k r ((seat + 1) % s.player_count) x,
      assign_from-hand (set_player s seat p) k (r + 1) ((seat + 1) % s.player_count) x,
      get_or-set_part (λ (q : PlayerState). q.hand) s.players seat x p empty_player refl,
    )

assign_after-hand :
    (s : GameState) (l : Option ℕ × ℕ) (x : ℕ)
    → (player (assign_after s l) x).hand ≡ (player s x).hand
unfolding assign_after
assign_after-hand s (none, m) x = refl
assign_after-hand s (some last, zero) x = refl
assign_after-hand s (some last, suc r) x = assign_from-hand s s.player_count (suc r + 1) _ x

-- The ranks leave the hands as they are.
pub assign_remaining-hand :
    (s : GameState) (x : ℕ) → (player (assign_remaining_finish_ranks s) x).hand ≡ (player s x).hand
unfolding assign_remaining_finish_ranks
assign_remaining-hand s x = assign_after-hand s _ x
