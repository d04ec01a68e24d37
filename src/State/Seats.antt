-- ===== src/State/Seats.antt =====
-- Reads of the table after a write to one seat, and the seats as a ring.
use native.Mathlib.Nat.{mod-eq_of_lt, add-mod_right}
use gd_server.Base.{
  Bool, arith, dec_lt, get_or-set_ne, get_or-set_self, if◌then◌else◌, length, length-set, suc, zero,
  ℕ, ◌%◌, ◌+◌, ◌-◌, ◌<◌, ◌∙◌, ◌≡◌, ◌≢◌, ◌≤◌,
}
use gd_server.State.{GameState, PlayerState, empty_player, player, set_player}

pub length-set_player :
    (s : GameState) (i : ℕ) (p : PlayerState) → length (set_player s i p).players ≡ length s.players
length-set_player s i p = length-set s.players i p

pub player-set_self :
    (s : GameState) (i : ℕ) (p : PlayerState)
    → i < length s.players
    → player (set_player s i p) i ≡ p
player-set_self s i p h = get_or-set_self s.players i p empty_player h

pub player-set_ne :
    (s : GameState) (i j : ℕ) (p : PlayerState) → i ≢ j → player (set_player s i p) j ≡ player s j
player-set_ne s i j p h = get_or-set_ne s.players i j p empty_player h

-- The number of seats that pass a test, of `k` seats from seat `i` on.
unfoldable pub tally : (ℕ → Bool) → ℕ → ℕ → ℕ
tally test zero i = 0
tally test (suc k) i = (if test i then 1 else 0) + tally test k (i + 1)

-- Going round the table from a seat, every seat is met within one turn.
pub ring_reaches : (n f x : ℕ) → f < n → x < n → (i : ℕ) × (0 < i) × (i ≤ n) × ((f + i) % n ≡ x)
ring_reaches n f x hf hx = elim (dec_lt f x) [
  | yes h ↦ (
    x - f,
    omega arith,
    omega arith,
    let e : f + (x - f) ≡ x = omega arith in rw e (mod-eq_of_lt hx),
  )
  | no h ↦ (
    x + n - f,
    omega arith,
    omega arith,
    let e : f + (x + n - f) ≡ x + n = omega arith in rw e (add-mod_right x n ∙ mod-eq_of_lt hx),
  )
]
