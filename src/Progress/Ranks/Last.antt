-- ===== src/Progress/Ranks/Last.antt =====
-- finish_rank.cpp: the loop that looks for the player who finished last.

use gd_server.Base.{
  Bool, Bool-cases, Option, ap, arith, false, inl, inr, ltb, refl, some, suc, true, zero, ℕ,
  ℕ_discrete, ◌&&◌, ◌+◌, ◌<◌, ◌∙◌, ◌≡◌, ◌≤◌,
}
use gd_server.Progress.Ranks.{last_finished_from}
use gd_server.State.{GameState, player}
use gd_server.Tribute.Data.{below}

-- What the loop ends with: a seat, and its rank, which is the last one given.
abbrev pub IsLast : Option ℕ × ℕ → ℕ → ℕ → Type 0
IsLast found r n = (last : ℕ) × (last < n) × (found.0 ≡ some last) × (found.1 + 1 ≡ r)

abbrev better : GameState → ℕ → ℕ → Bool
better s i m = (player s i).has_finished && ltb m (player s i).finish_rank

worse_step :
    (s : GameState) (k i : ℕ) (seat : Option ℕ) (m : ℕ)
    → better s i m ≡ false
    → last_finished_from s (suc k) i seat m ≡ last_finished_from s k (i + 1) seat m
unfolding last_finished_from
worse_step s k i seat m h = rw h refl

better_step :
    (s : GameState) (k i : ℕ) (seat : Option ℕ) (m : ℕ)
    → better s i m ≡ true
    → last_finished_from s (suc k) i seat m
      ≡ last_finished_from s k (i + 1) (some i) (player s i).finish_rank
unfolding last_finished_from
better_step s k i seat m h = rw h refl

-- One more step leaves the range of seats as it is.
after_step :
    (a b : Option ℕ × ℕ) (r i k : ℕ) → a ≡ b → IsLast b r (i + 1 + k) → IsLast a r (i + suc k)
after_step a b r i k e (last, l, f, g) =
    (last, omega arith, ap (λ z. z.0) e ∙ f, rw (ap (λ z. z.1) e) g)

found_base :
    (s : GameState) (i last m r : ℕ)
    → m + 1 ≡ r
    → last < i + 0
    → IsLast (last_finished_from s 0 i (some last) m) r (i + 0)
unfolding last_finished_from
found_base s i last m r e h = (last, h, refl, e)

last_finished_from-found :
    (s : GameState) (k i last m r : ℕ)
    → m + 1 ≡ r
    → last < i + k
    → ((x : ℕ) → x < i + k → (player s x).has_finished ≡ true → (player s x).finish_rank < r)
    → IsLast (last_finished_from s k i (some last) m) r (i + k)
last_finished_from-found s zero i last m r e l below = found_base s i last m r e l
last_finished_from-found s (suc k) i last m r e l below =
    let worse : better s i m ≡ false = ground (arith, below i (omega arith)) in
    after_step _ _ r i k (worse_step s k i (some last) m worse)
      (last_finished_from-found s k (i + 1) last m r e (omega arith) (λ x h. below x (omega arith)))

pub last_finished_from-IsLast :
    (s : GameState) (k i : ℕ) (seat : Option ℕ) (m r x : ℕ)
    → m + 1 < r
    → i ≤ x
    → x < i + k
    → (player s x).has_finished ≡ true
    → (player s x).finish_rank + 1 ≡ r
    → ((y : ℕ) → y < i + k → (player s y).has_finished ≡ true → (player s y).finish_rank < r)
    → IsLast (last_finished_from s k i seat m) r (i + k)
last_finished_from-IsLast s zero i seat m r x l a b f e below = absurd (omega arith)
last_finished_from-IsLast s (suc k) i seat m r x l a b f e below =
    let below' = λ (y : ℕ) (h : y < i + 1 + k). below y (omega arith) in
    let m' = (player s i).finish_rank in
    elim (ℕ_discrete i x) [
      | yes q ↦
          let up : better s i m ≡ true = rw q (ground arith) in
          let last : m' + 1 ≡ r = rw q e in
          after_step _ _ r i k (better_step s k i seat m up)
            (last_finished_from-found s k (i + 1) i m' r last (omega arith) below')
      | no nq ↦ elim (Bool-cases (better s i m)) [
        | inr worse ↦ after_step _ _ r i k (worse_step s k i seat m worse) (
            last_finished_from-IsLast s k (i + 1) seat m r x l (omega arith) (omega arith) f e
              below')
        | inl up ↦
            after_step _ _ r i k (better_step s k i seat m up) (elim (ℕ_discrete (m' + 1) r) [
              | yes last ↦ last_finished_from-found s k (i + 1) i m' r last (omega arith) below'
              | no less ↦
                  let low : m' + 1 < r = ground (arith, below i (omega arith)) in
                  last_finished_from-IsLast s k (i + 1) (some i) m' r x low (omega arith)
                    (omega arith) f e below'
            ])
      ]
    ]
