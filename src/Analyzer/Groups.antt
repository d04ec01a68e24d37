-- ===== src/Analyzer/Groups.antt =====
-- `groupByRank`: the cards of a list by rank, the wild cards in a group of their own.
use gd_server.Base.{
  ℕ, zero, suc, ◌+◌, Bool, true, false, List, [], ◌∷◌, ◌++◌, Option, none, some, ltb, ◌==◌, leb,
  if◌then◌else◌,
}
use gd_server.Cards.{Card, RuleContext, is_wild_card}

-- The rank -1 of the group of wild cards is `none`.
pub record RankGroup : Type 0 where
  pub rank : Option ℕ
  pub count : ℕ
  pub cards : List Card

abbrev pub is_wild_group : RankGroup → Bool
is_wild_group g = elim g.rank [ none ↦ true | some r ↦ false ]

-- The rank of a group that is not wild.
abbrev pub rank_of : RankGroup → ℕ
rank_of g = elim g.rank [ none ↦ 0 | some r ↦ r ]

abbrev one_card : ℕ → Card → RankGroup
one_card r c = record { rank = some r; count = 1; cards = c ∷ [] }

-- `groups[r]` gains a card. The groups are a `std::map`, held in increasing order of their ranks.
pub gain : ℕ → Card → List RankGroup → List RankGroup
gain r c [] = one_card r c ∷ []
gain r c (g ∷ gs) =
    let later = g ∷ gain r c gs in
    if rank_of g == r
    then record g { count = g.count + 1; cards = g.cards ++ c ∷ [] } ∷ gs
    else if ltb r (rank_of g)
    then one_card r c ∷ g ∷ gs
    else later

-- The loop over the cards: the groups, and the number of wild cards. Its branch for jokers does what
-- the code below it does.
pub collect : RuleContext → List Card → List RankGroup → ℕ → List RankGroup × ℕ
collect ctx [] groups wild = (groups, wild)
collect ctx (c ∷ cs) groups wild =
    let skipped = collect ctx cs groups (wild + 1) in
    let grouped = collect ctx cs (gain c.rank c groups) wild in
    if is_wild_card ctx c then skipped else grouped

-- `std::sort` by rank.
insert_group : RankGroup → List RankGroup → List RankGroup
insert_group g [] = g ∷ []
insert_group g (h ∷ hs) = if leb (rank_of g) (rank_of h) then g ∷ h ∷ hs else h ∷ insert_group g hs

pub sort_groups : List RankGroup → List RankGroup
unfolding insert_group
sort_groups [] = []
sort_groups (g ∷ gs) = insert_group g (sort_groups gs)

pub with_wild : List RankGroup × ℕ → List RankGroup
unfolding sort_groups
with_wild (groups, zero) = sort_groups groups
with_wild (groups, suc n) = record { rank = none; count = suc n; cards = [] } ∷ sort_groups groups

unfoldable pub group_by_rank : List Card → RuleContext → List RankGroup
unfolding collect gain with_wild
group_by_rank cards ctx = with_wild (collect ctx cards [] 0)

-- The loop `for (g : groups) if (g.rank == -1) wild = g.count;`.
unfoldable pub total_wild : ℕ → List RankGroup → ℕ
total_wild wild [] = wild
total_wild wild (g ∷ gs) = total_wild (if is_wild_group g then g.count else wild) gs

-- The vector `normal`.
unfoldable pub normal : List RankGroup → List RankGroup
normal [] = []
normal (g ∷ gs) = if is_wild_group g then normal gs else g ∷ normal gs
