-- ===== src/Room/Spectators.antt =====
-- server/src/room/room.cpp: whom a player who has finished may watch.

use gd_server.Base.{
  Bool, List, Option, [], elem, false, find_at, if◌then◌else◌, none, not, put_at, some, suc, true,
  zero, ℕ, ◌&&◌, ◌+◌, ◌==◌, ◌∷◌,
}
use gd_server.Engine.Table.{seat_of}
use gd_server.Room.Data.{Room}
use gd_server.State.{GameState, player}

-- The loop over the seats, with `k` seats left, at seat `i`.
teammates_from : GameState → ℕ → ℕ → ℕ → ℕ → List ℕ
teammates_from s viewer team zero i = []
teammates_from s viewer team (suc k) i =
    let rest = teammates_from s viewer team k (i + 1) in
    if not (i == viewer) && (player s i).team == team && not (player s i).has_finished
    then i ∷ rest
    else rest

unfoldable pub spectatable_by_seat : GameState → Option ℕ → List ℕ
unfolding teammates_from
spectatable_by_seat s none = []
spectatable_by_seat s (some seat) =
    if not (player s seat).has_finished
    then []
    else teammates_from s seat (player s seat).team s.player_count 0

unfoldable pub spectatable_teammate_seats : Room → ℕ → List ℕ
spectatable_teammate_seats r viewer_id =
    spectatable_by_seat r.engine.state (seat_of r.engine.state viewer_id)

unfoldable pub spectate_target_for : Room → ℕ → Option ℕ
spectate_target_for r viewer_id = find_at r.spectate_targets viewer_id

-- The seat watched among the ones that may be: the chosen one, or else the first.
watched : Option ℕ → ℕ → List ℕ → ℕ
watched target viewer [] = viewer
watched none viewer (t ∷ ts) = t
watched (some target) viewer (t ∷ ts) = if elem target (t ∷ ts) then target else t

unfoldable pub resolve_view_anchor : Room → ℕ → Option ℕ
unfolding watched
resolve_view_anchor r viewer_id = elim (seat_of r.engine.state viewer_id) [
  | none ↦ none
  | some seat ↦
      if not (player r.engine.state seat).has_finished
      then some seat
      else some
          (watched (spectate_target_for r viewer_id) seat (spectatable_teammate_seats r viewer_id))
]

unfoldable pub set_spectate_target : Room → ℕ → ℕ → Room × Bool
set_spectate_target r viewer_id target_seat =
    if not (elem target_seat (spectatable_teammate_seats r viewer_id))
    then (r, false)
    else (record r { spectate_targets = put_at r.spectate_targets viewer_id target_seat }, true)
