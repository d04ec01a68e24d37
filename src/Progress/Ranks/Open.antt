-- ===== src/Progress/Ranks/Open.antt =====
-- How many seats have not finished, with `k` seats from seat `i` on.

use gd_server.Base.{
  arith, false, if◌then◌else◌, length, refl, suc, true, zero, ℕ, ℕ_discrete, ◌+◌, ◌<◌, ◌≡◌, ◌≢◌,
  ◌≤◌,
}
use gd_server.State.{GameState, PlayerState, player, set_player}
use gd_server.State.Seats.{player-set_ne, player-set_self}

unfoldable pub unfinished : GameState → ℕ → ℕ → ℕ
unfinished s zero i = 0
unfinished s (suc k) i = (if (player s i).has_finished then 0 else 1) + unfinished s k (i + 1)

pub unfinished_none :
    (s : GameState) (k i x : ℕ)
    → unfinished s k i ≡ 0
    → i ≤ x
    → x < i + k
    → (player s x).has_finished ≡ true
unfolding unfinished
unfinished_none s zero i x e a b = absurd (omega arith)
unfinished_none s (suc k) i x e a b = elim (ℕ_discrete i x) [
  | yes same ↦ rw (← same) (ground arith)
  | no other ↦ unfinished_none s k (i + 1) x (ground arith) (omega arith) (omega arith)
]

-- A write to a seat before the range is not seen.
unfinished_before :
    (s : GameState) (k i seat : ℕ) (p : PlayerState)
    → seat < i
    → unfinished (set_player s seat p) k i ≡ unfinished s k i
unfolding unfinished
unfinished_before s zero i seat p h = refl
unfinished_before s (suc k) i seat p h =
    let miss : seat ≢ i = omega arith in
    rw (player-set_ne s seat i p miss, unfinished_before s k (i + 1) seat p (omega arith))

-- A player who finishes is one fewer.
pub unfinished_finish :
    (s : GameState) (k i seat : ℕ) (p : PlayerState)
    → i ≤ seat
    → seat < i + k
    → seat < length s.players
    → (player s seat).has_finished ≡ false
    → p.has_finished ≡ true
    → unfinished s k i ≡ suc (unfinished (set_player s seat p) k i)
unfolding unfinished
unfinished_finish s zero i seat p a b len e f = absurd (omega arith)
unfinished_finish s (suc k) i seat p a b len e f = elim (ℕ_discrete i seat) [
  | yes same ↦ rw (same) (
      ground (
        arith,
        player-set_self s seat p len,
        unfinished_before s k (seat + 1) seat p (omega arith),
      ))
  | no other ↦
      let miss : seat ≢ i = omega arith in
      let rest = unfinished_finish s k (i + 1) seat p (omega arith) (omega arith) len e f in
      rw (player-set_ne s seat i p miss, rest) (omega arith)
]
