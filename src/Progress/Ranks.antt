-- ===== src/Progress/Ranks.antt =====
-- finish_rank.cpp: the ranks of the players who have not finished when a round ends.
pub mod Complete
pub mod Given
pub mod Hands
pub mod Last
pub mod Open
use gd_server.Base.{Option, if◌then◌else◌, leb, ltb, none, some, suc, true, zero, ℕ, ◌%◌, ◌&&◌, ◌+◌}
use gd_server.State.{GameState, player, set_player}

pub last_finished_from : GameState → ℕ → ℕ → Option ℕ → ℕ → Option ℕ × ℕ
last_finished_from s zero i seat max_rank = (seat, max_rank)
last_finished_from s (suc k) i seat max_rank =
    let better = (player s i).has_finished && ltb max_rank (player s i).finish_rank in
    last_finished_from s k (i + 1) (if better then some i else seat)
      (if better then (player s i).finish_rank else max_rank)

-- The second loop, with `k` steps left.
assign_from : GameState → ℕ → ℕ → ℕ → GameState
assign_from s zero next_rank seat = s
assign_from s (suc k) next_rank seat =
    let p = player s seat in
    let next = (seat + 1) % s.player_count in
    let again = assign_from s k next_rank next in
    let given =
      assign_from (set_player s seat (record p { has_finished = true; finish_rank = next_rank })) k
        (next_rank + 1) next in
    if leb next_rank s.player_count then (if p.has_finished then again else given) else s

-- What follows the first loop.
assign_after : GameState → Option ℕ × ℕ → GameState
unfolding assign_from
assign_after s (none, max_rank) = s
assign_after s (some last, zero) = s
assign_after s (some last, suc r) =
    assign_from s s.player_count (suc r + 1) ((last + 1) % s.player_count)

-- With no player the source returns at once; so do the loops.
unfoldable pub assign_remaining_finish_ranks : GameState → GameState
unfolding last_finished_from assign_after
assign_remaining_finish_ranks s = assign_after s (last_finished_from s s.player_count 0 none 0)
