-- ===== src/Progress/Settlement/Upgrade.antt =====
-- settlement.cpp: whose ranks count, and how far the winners move up.
use gd_server.Base.{
  All, Bool-cases, List, [], all, ap, arith, count, dec_lt, false, if◌then◌else◌, inl, inr, leb,
  length, ltb, min, none, pos, refl, some, sub_ℕ, suc, true, zero, ℕ, ℕ_discrete, ◌&&◌, ◌+◌, ◌<◌,
  ◌==◌, ◌∙◌, ◌∷◌, ◌≡◌, ◌≢◌, ◌≤◌, ◌⊎◌,
}
use gd_server.Progress.Settlement.{
  calculate, find_rank, find_rank_from, insert, rank_count, sort, sum_first, sum_winning_team_ranks,
  team_ranks_from, upgrade_base,
}
use gd_server.State.{GameState, player}
use gd_server.State.Seats.{tally}

-- Each rank is at most the ranks after it.
pub IsSorted : List ℕ → Type 0
IsSorted [] = Unit
IsSorted (x ∷ xs) = All (λ y. x ≤ y) xs × IsSorted xs

count-insert :
    (b a : ℕ) (xs : List ℕ) → count b (insert a xs) ≡ (if a == b then 1 else 0) + count b xs
unfolding insert
count-insert b a [] = ground arith
count-insert b a (x ∷ xs) = ground (arith, count-insert b a xs)

count-sort : (b : ℕ) (xs : List ℕ) → count b (sort xs) ≡ count b xs
unfolding sort
count-sort b [] = refl
count-sort b (x ∷ xs) = ground (arith, count-insert b x (sort xs), count-sort b xs)

-- A rank that the sum of the team reads belongs to a player of the team who has a rank.
find_rank_iff :
    (s : GameState) (rank k i : ℕ)
    → ((find_rank_from s rank k i ≡ none)
        × ((x : ℕ) → i ≤ x → x < i + k → (player s x).finish_rank ≢ rank))
      ⊎ ((x : ℕ) × (find_rank_from s rank k i ≡ some x)
          × (i ≤ x)
          × (x < i + k)
          × ((player s x).finish_rank ≡ rank)
          × ((y : ℕ) → i ≤ y → y < x → (player s y).finish_rank ≢ rank))
unfolding find_rank_from
find_rank_iff s rank zero i = inl (refl, λ x a b. absurd (omega arith))
find_rank_iff s rank (suc k) i = elim (ℕ_discrete (player s i).finish_rank rank) [
  | yes e ↦ inr (i, ground arith, omega arith, omega arith, e, λ y a b. absurd (omega arith))
  | no ne ↦ elim (find_rank_iff s rank k (i + 1)) [
    | inl (f, all) ↦ inl (
      ground arith,
      λ x a b. elim (ℕ_discrete i x) [
        | yes q ↦ rw (← q) ne
        | no nq ↦ all x (omega arith) (omega arith)
      ],
    )
    | inr (x, f, a, b, e, first) ↦ inr (
      x,
      ground arith,
      omega arith,
      omega arith,
      e,
      λ y c d. elim (ℕ_discrete i y) [
        | yes q ↦ rw (← q) ne
        | no nq ↦ first y (omega arith) (omega arith)
      ],
    )
  ]
]

-- A rank stands in the list of a team as often as players of the team have it; 0 is no rank.
count-team_ranks :
    (s : GameState) (team r k i : ℕ)
    → count r (team_ranks_from s team k i)
      ≡ tally (λ x. (player s x).team == team && (player s x).finish_rank == r && ltb 0 r) k i
unfolding team_ranks_from tally
count-team_ranks s team r zero i = refl
count-team_ranks s team r (suc k) i =
    let rest = count-team_ranks s team r k (i + 1) in ground (arith, rest)

insert-All : (b a : ℕ) (xs : List ℕ) → b ≤ a → All (λ y. b ≤ y) xs → All (λ y. b ≤ y) (insert a xs)
unfolding insert
insert-All b a [] h k = (h, tt)
insert-All b a (x ∷ xs) h (m, k) = elim (Bool-cases (leb a x)) [
  | inl e ↦ rw e (h, (m, k))
  | inr e ↦ rw e (m, insert-All b a xs h k)
]

weaken-All : (b a : ℕ) (xs : List ℕ) → b ≤ a → All (λ y. a ≤ y) xs → All (λ y. b ≤ y) xs
weaken-All b a [] h k = tt
weaken-All b a (x ∷ xs) h (m, k) = (omega arith, weaken-All b a xs h k)

insert-IsSorted : (a : ℕ) (xs : List ℕ) → IsSorted xs → IsSorted (insert a xs)
unfolding insert IsSorted
insert-IsSorted a [] h = (tt, tt)
insert-IsSorted a (x ∷ xs) (m, k) = elim (Bool-cases (leb a x)) [
  | inl e ↦ let le : a ≤ x = ground arith in rw e ((le, weaken-All a x xs le m), (m, k))
  | inr e ↦ rw e (insert-All x a xs (ground arith) m, insert-IsSorted a xs k)
]

sort-IsSorted : (xs : List ℕ) → IsSorted (sort xs)
unfolding sort IsSorted
sort-IsSorted [] = tt
sort-IsSorted (x ∷ xs) = insert-IsSorted x (sort xs) (sort-IsSorted xs)

-- A sorted list with each rank as often as players of the team have it, and nothing else.
pub IsRanksOf : GameState → ℕ → List ℕ → Type 0
IsRanksOf s team ranks =
    IsSorted ranks
    × ((r : ℕ)
        → count r ranks
          ≡ tally (λ x. (player s x).team == team && (player s x).finish_rank == r && ltb 0 r)
              s.player_count 0)

-- The sum of the `n` least ranks of a sorted list, or of all where there are fewer.
unfoldable pub sum_least : ℕ → List ℕ → ℕ
sum_least zero xs = 0
sum_least (suc n) [] = 0
sum_least (suc n) (x ∷ xs) = x + sum_least n xs

sum_first-least : (n : ℕ) (xs : List ℕ) → sum_first (min n (length xs)) xs ≡ sum_least n xs
unfolding sum_first sum_least
sum_first-least zero xs = let e : min 0 (length xs) ≡ 0 = omega arith in rw e refl
sum_first-least (suc n) [] = let e : min (suc n) (length {A = ℕ} []) ≡ 0 = omega arith in rw e refl
sum_first-least (suc n) (x ∷ xs) =
    let e : min (suc n) (length (x ∷ xs)) ≡ suc (min n (length xs)) = omega arith in
    rw e (ap (λ k. x + k) (sum_first-least n xs))

-- The settlement of a table where no seat has rank 1 names no winner and moves nobody. Else the
-- first such seat gives the winning team, and the upgrade is the base less the sum of the least
-- ranks that players of that team have: with three or more players in a team of the two least, from
-- a base of 10, and else of as many as there are players in a team, from a base of 6.
pub calculate_total :
    (s : GameState) (k : ℕ)
    → (((calculate s k).winning_team ≡ none)
        × ((calculate s k).level_upgrade ≡ pos 0)
        × ((x : ℕ) → (s.player_count ≤ x) ⊎ ((player s x).finish_rank ≢ 1)))
      ⊎ ((x : ℕ) × (ranks : List ℕ) × (x < s.player_count)
          × ((player s x).finish_rank ≡ 1)
          × ((y : ℕ) → y < x → (player s y).finish_rank ≢ 1)
          × ((calculate s k).winning_team ≡ some (player s x).team)
          × IsRanksOf s (player s x).team ranks
          × ((3 ≤ k) × ((calculate s k).level_upgrade ≡ sub_ℕ 10 (sum_least 2 ranks))
              ⊎ (k < 3) × ((calculate s k).level_upgrade ≡ sub_ℕ 6 (sum_least k ranks))))
unfolding calculate find_rank sum_winning_team_ranks upgrade_base rank_count IsRanksOf
calculate_total s k = elim (find_rank_iff s 1 s.player_count 0) [
  | inl (e, none_first) ↦ inl (
    rw (e, calculate),
    rw (e, calculate),
    λ x. elim (dec_lt x s.player_count) [
      | yes h ↦ inr (none_first x (omega arith) (omega arith))
      | no h ↦ inl (omega arith)
    ],
  )
  | inr (x, e, a, b, is_first, first) ↦
      let team = (player s x).team in
      let all_ranks = team_ranks_from s team s.player_count 0 in
      inr (
        x,
        sort all_ranks,
        omega arith,
        is_first,
        λ y h. first y (omega arith) h,
        rw (e, calculate),
        (
          sort-IsSorted all_ranks,
          λ r. count-sort r all_ranks ∙ count-team_ranks s team r s.player_count 0,
        ),
        elim (dec_lt k 3) [
          | yes h ↦
              let l : leb 3 k ≡ false = ground arith in
              inr (h, rw (e, l, calculate) (ap (sub_ℕ 6) (sum_first-least k (sort all_ranks))))
          | no h ↦
              let l : leb 3 k ≡ true = ground arith in
              inl (
                omega arith,
                rw (e, l, calculate) (ap (sub_ℕ 10) (sum_first-least 2 (sort all_ranks))),
              )
        ],
      )
]
