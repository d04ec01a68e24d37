-- ===== src/Progress/Ranks/Given.antt =====
-- finish_rank.cpp: what one more rank does to the ranks given so far.

use gd_server.Base.{ap, arith, length, sym, true, ℕ, ℕ_discrete, ◌+◌, ◌<◌, ◌∙◌, ◌≡◌, ◌≢◌}
use gd_server.State.{GameState, PlayerState, player, set_player}
use gd_server.State.Seats.{player-set_ne, player-set_self}

-- The finished players of the table have distinct ranks from 1 on, all below `r`.
pub record IsRanked (s : GameState) (r : ℕ) : Type 0 where
  pub bounded :
      (x : ℕ)
      → x < s.player_count
      → (player s x).has_finished ≡ true
      → (0 < (player s x).finish_rank) × ((player s x).finish_rank < r)
  pub distinct :
      (x y : ℕ)
      → x < s.player_count
      → y < s.player_count
      → (player s x).has_finished ≡ true
      → (player s y).has_finished ≡ true
      → (player s x).finish_rank ≡ (player s y).finish_rank
      → x ≡ y

-- The player of a seat who finishes with a rank.
abbrev pub given : GameState → ℕ → ℕ → GameState
given s seat r = set_player s seat (record (player s seat) { has_finished = true; finish_rank = r })

pub given_other : (s : GameState) (seat r x : ℕ) → seat ≢ x → player (given s seat r) x ≡ player s x
given_other s seat r x h = player-set_ne s seat x _ h

pub given_self :
    (s : GameState) (seat r : ℕ)
    → seat < length s.players
    → ((player (given s seat r) seat).has_finished ≡ true)
      × ((player (given s seat r) seat).finish_rank ≡ r)
given_self s seat r h =
    let e =
      player-set_self s seat (record (player s seat) { has_finished = true; finish_rank = r }) h in
    (ap (λ (q : PlayerState). q.has_finished) e, ap (λ (q : PlayerState). q.finish_rank) e)

given-bounded :
    (s : GameState) (seat r x : ℕ)
    → seat < length s.players
    → 0 < r
    → IsRanked s r
    → x < s.player_count
    → (player (given s seat r) x).has_finished ≡ true
    → (0 < (player (given s seat r) x).finish_rank)
      × ((player (given s seat r) x).finish_rank < r + 1)
given-bounded s seat r x inside h0 v hx f = elim (ℕ_discrete seat x) [
  | yes same ↦ rw (← same, (given_self s seat r inside).1) (h0, omega arith)
  | no other ↦
      let e = given_other s seat r x other in
      let f' : (player s x).has_finished ≡ true = rw e at f in
      let old = v.bounded x hx f' in rw e (old.0, omega (arith, old.1))
]

-- The rank of a finished player who is not the one of the seat is below the new rank.
given-distinct :
    (s : GameState) (seat r x y : ℕ)
    → seat < length s.players
    → IsRanked s r
    → x < s.player_count
    → y < s.player_count
    → (player (given s seat r) x).has_finished ≡ true
    → (player (given s seat r) y).has_finished ≡ true
    → (player (given s seat r) x).finish_rank ≡ (player (given s seat r) y).finish_rank
    → x ≡ y
given-distinct s seat r x y inside v hx hy fx fy e = elim (ℕ_discrete seat x) [
  | yes a ↦ elim (ℕ_discrete seat y) [
    | yes b ↦ sym a ∙ b
    | no nb ↦ absurd (
        clash y nb hy fy
          (sym e ∙ ap (λ (q : ℕ). (player (given s seat r) q).finish_rank) (sym a) ∙ mine))
  ]
  | no na ↦ elim (ℕ_discrete seat y) [
    | yes b ↦ absurd (
        clash x na hx fx
          (e ∙ ap (λ (q : ℕ). (player (given s seat r) q).finish_rank) (sym b) ∙ mine))
    | no nb ↦
        let ex = given_other s seat r x na in
        let ey = given_other s seat r y nb in
        v.distinct x y hx hy (rw ex at fx) (rw ey at fy) (rw (ex, ey) at e)
  ]
]
  where
    mine : (player (given s seat r) seat).finish_rank ≡ r
    mine = (given_self s seat r inside).1

    clash :
        (z : ℕ)
        → seat ≢ z
        → z < s.player_count
        → (player (given s seat r) z).has_finished ≡ true
        → (player (given s seat r) z).finish_rank ≢ r
    clash z nz hz fz ez =
        let o = given_other s seat r z nz in
        let f' : (player s z).has_finished ≡ true = rw o at fz in
        let b = v.bounded z hz f' in
        let e' : (player s z).finish_rank ≡ r = rw o at ez in omega (arith, b.1, e')

pub given-IsRanked :
    (s : GameState) (seat r : ℕ)
    → seat < length s.players
    → 0 < r
    → IsRanked s r
    → IsRanked (given s seat r) (r + 1)
given-IsRanked s seat r inside h0 v = record {
  bounded = λ x hx f. given-bounded s seat r x inside h0 v hx f;
  distinct = λ x y hx hy fx fy e. given-distinct s seat r x y inside v hx hy fx fy e;
}
