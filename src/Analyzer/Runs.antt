-- ===== src/Analyzer/Runs.antt =====
-- The patterns over consecutive ranks: straights, three pairs and two triples. Their argument
-- `wildCount` is not read. Slot 1 is the ace below the two.
use gd_server.Base.{
  ℕ, zero, suc, ◌+◌, ◌-◌, Bool, true, false, not, ◌&&◌, List, [], ◌∷◌, Option, none, some, ltb, leb,
  ◌==◌, if◌then◌else◌, any,
}
use gd_server.Cards.{rank_a, small_joker}
use gd_server.Rules.{CardType, CardPattern, straight, three_pairs, two_triples, no_pattern}
use gd_server.Analyzer.Groups.{RankGroup, rank_of, total_wild, normal}

abbrev pub straight_slot_to_rank_value : ℕ → Option ℕ
straight_slot_to_rank_value slot =
    if slot == 1 then some rank_a else if leb 2 slot && leb slot 14 then some slot else none

-- `rankCount.find(r)` in the map from the rank of each normal group to its count.
pub find_count : List RankGroup → ℕ → Option ℕ
find_count [] r = none
find_count (g ∷ gs) r = if rank_of g == r then some g.count else find_count gs r

abbrev pub count_or_zero : Option ℕ → ℕ
count_or_zero none = 0
count_or_zero (some n) = n

-- The wild cards that a slot takes, by the number of cards of its rank; `none` where these are too
-- many.
abbrev pub single_need : Option ℕ → Option ℕ
single_need none = some 1
single_need (some n) = if ltb 1 n then none else some 0

abbrev pub group_need : ℕ → Option ℕ → Option ℕ
group_need size have = let n = count_or_zero have in if ltb size n then none else some (size - n)

-- The inner loop, with `k` slots left: the wild cards used, if all slots can be filled.
pub window_wilds : (Option ℕ → Option ℕ) → List RankGroup → ℕ → ℕ → ℕ → Option ℕ
window_wilds need gs zero slot used = some used
window_wilds need gs (suc k) slot used = elim (straight_slot_to_rank_value slot) [
  | none ↦ none
  | some rv ↦ elim (need (find_count gs rv)) [
    | none ↦ none
    | some w ↦ window_wilds need gs k (slot + 1) (used + w)
  ]
]

abbrev within : ℕ → Option ℕ → Bool
within wild none = false
within wild (some used) = leb used wild

-- The outer loop, with `k` starts left: the first start that the wild cards suffice for.
pub find_start : (Option ℕ → Option ℕ) → List RankGroup → ℕ → ℕ → ℕ → ℕ → Option ℕ
find_start need gs wild len zero start = none
find_start need gs wild len (suc k) start =
    let rest = find_start need gs wild len k (start + 1) in
    if within wild (window_wilds need gs len start 0) then some start else rest

pub has_joker_group : List RankGroup → Bool
has_joker_group = any (λ g. leb small_joker (rank_of g))

abbrev pub run_pattern : CardType → ℕ → Option ℕ → CardPattern
run_pattern t len none = no_pattern
run_pattern t len (some start) = record {
  type = t;
  primary_rank = start + len - 1;
  length = len;
  pair_rank = 0;
  is_valid = true;
}

unfoldable pub analyze_straight : List RankGroup → ℕ → CardPattern
unfolding find_count window_wilds find_start has_joker_group
analyze_straight groups total =
    if not (total == 5)
    then no_pattern
    else if has_joker_group (normal groups)
    then no_pattern
    else run_pattern straight 5
        (find_start single_need (normal groups) (total_wild 0 groups) 5 10 1)

unfoldable pub analyze_three_pairs : List RankGroup → ℕ → CardPattern
unfolding find_count window_wilds find_start has_joker_group
analyze_three_pairs groups total =
    if not (total == 6)
    then no_pattern
    else if has_joker_group (normal groups)
    then no_pattern
    else run_pattern three_pairs 3
        (find_start (group_need 2) (normal groups) (total_wild 0 groups) 3 12 1)

unfoldable pub analyze_two_triples : List RankGroup → ℕ → CardPattern
unfolding find_count window_wilds find_start has_joker_group
analyze_two_triples groups total =
    if not (total == 6)
    then no_pattern
    else if has_joker_group (normal groups)
    then no_pattern
    else run_pattern two_triples 2
        (find_start (group_need 3) (normal groups) (total_wild 0 groups) 2 13 1)
