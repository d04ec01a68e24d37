-- ===== src/Analyzer/Kinds.antt =====
-- The patterns that are made of cards of equal rank: singles, pairs, triples, triples with a pair and
-- bombs.
use gd_server.Base.{
  ℕ, ◌+◌, ◌-◌, Bool, true, false, not, ◌&&◌, List, [], ◌∷◌, Option, none, some, ltb, leb, ◌==◌,
  if◌then◌else◌,
}
use gd_server.Cards.{
  Card, RuleContext, k_level_card_pattern_rank, raw_level_rank_value, is_level_card,
  pattern_rank_for_level_card, single_effective_rank,
}
use gd_server.Rules.{
  CardType, CardPattern, single, pair, triple, triple_with_pair, bomb, no_pattern,
}
use gd_server.Analyzer.Groups.{RankGroup, rank_of, total_wild, normal}

abbrev valid_pattern : CardType → ℕ → ℕ → ℕ → CardPattern
valid_pattern t rank n pair_rank = record {
  type = t;
  primary_rank = rank;
  length = n;
  pair_rank = pair_rank;
  is_valid = true;
}

-- The loop that looks for a card that is no level card.
pure_level : RuleContext → List Card → Bool
pure_level ctx [] = true
pure_level ctx (c ∷ cs) = if not (is_level_card ctx c) then false else pure_level ctx cs

unfoldable pub bomb_of : List Card → ℕ → RuleContext → ℕ → ℕ → CardPattern
unfolding pure_level
bomb_of cards total ctx rank n =
    if leb 4 n && n == total
    then valid_pattern bomb (if pure_level ctx cards then k_level_card_pattern_rank else rank) n 0
    else no_pattern

unfoldable pub bomb_by : List RankGroup → ℕ → List Card → ℕ → RuleContext → CardPattern
unfolding bomb_of
bomb_by [] wild cards total ctx = bomb_of cards total ctx (raw_level_rank_value ctx) wild
bomb_by (g ∷ []) wild cards total ctx = bomb_of cards total ctx (rank_of g) (g.count + wild)
bomb_by (g ∷ h ∷ gs) wild cards total ctx = no_pattern

unfoldable pub analyze_bomb : List Card → List RankGroup → ℕ → RuleContext → CardPattern
unfolding bomb_by
analyze_bomb cards groups total ctx =
    if ltb total 4
    then no_pattern
    else bomb_by (normal groups) (total_wild 0 groups) cards total ctx

unfoldable pub analyze_single : List Card → RuleContext → CardPattern
analyze_single (c ∷ []) ctx = valid_pattern single (single_effective_rank c ctx) 1 0
analyze_single _ ctx = no_pattern

-- The end of `analyzePair` and of `analyzeTriple`, for two and for three cards.
unfoldable pub alike_by : CardType → ℕ → List RankGroup → ℕ → RuleContext → CardPattern
alike_by t n [] wild ctx =
    if leb n wild
    then valid_pattern t (pattern_rank_for_level_card (raw_level_rank_value ctx) ctx) n 0
    else no_pattern
alike_by t n (g ∷ []) wild ctx =
    if g.count + wild == n
    then valid_pattern t (pattern_rank_for_level_card (rank_of g) ctx) n 0
    else no_pattern
alike_by t n (g ∷ h ∷ gs) wild ctx = no_pattern

-- With no group at all there is no pair.
unfoldable pub analyze_pair : List RankGroup → ℕ → RuleContext → CardPattern
unfolding alike_by
analyze_pair [] wild_count ctx = no_pattern
analyze_pair (g ∷ gs) wild_count ctx =
    alike_by pair 2 (normal (g ∷ gs)) (total_wild wild_count (g ∷ gs)) ctx

unfoldable pub analyze_triple : List RankGroup → ℕ → RuleContext → CardPattern
unfolding alike_by
analyze_triple groups wild_count ctx =
    alike_by triple 3 (normal groups) (total_wild wild_count groups) ctx

abbrev pub full_house : ℕ → ℕ → RuleContext → CardPattern
full_house triple_rank pair_rank ctx =
    valid_pattern triple_with_pair (pattern_rank_for_level_card triple_rank ctx) 5 pair_rank

-- The body of the two loops: `t` as the triple and `p` as the pair.
unfoldable pub triple_and_pair : RankGroup → RankGroup → ℕ → RuleContext → Option CardPattern
triple_and_pair t p wild ctx =
    let triple_need = 3 - t.count in
    let pair_need = 2 - p.count in
    if ltb wild triple_need
    then none
    else if ltb (wild - triple_need) pair_need
    then none
    else if p.count + pair_need == 2
    then some (full_house (rank_of t) (rank_of p) ctx)
    else none

-- The last attempt, for two groups: the smaller one as the pair.
unfoldable pub by_counts : RankGroup → RankGroup → ℕ → RuleContext → CardPattern
by_counts g h wild ctx =
    let swap = ltb h.count g.count in
    let a = if swap then h else g in
    let b = if swap then g else h in
    if leb ((3 - b.count) + (2 - a.count)) wild
    then full_house (rank_of b) (rank_of a) ctx
    else no_pattern

abbrev pub or_pattern : Option CardPattern → CardPattern → CardPattern
or_pattern none rest = rest
or_pattern (some p) rest = p

-- With at most two groups the two loops are at most two attempts.
unfoldable pub triple_with_pair_by : List RankGroup → ℕ → RuleContext → CardPattern
unfolding triple_and_pair by_counts
triple_with_pair_by [] wild ctx = no_pattern
triple_with_pair_by (g ∷ []) wild ctx =
    if g.count + wild == 5 && leb 3 g.count
    then full_house (rank_of g) (rank_of g) ctx
    else no_pattern
triple_with_pair_by (g ∷ h ∷ []) wild ctx =
    or_pattern (triple_and_pair g h wild ctx)
      (or_pattern (triple_and_pair h g wild ctx) (by_counts g h wild ctx))
triple_with_pair_by (g ∷ h ∷ k ∷ gs) wild ctx = no_pattern

-- The argument `wildCount` is not read.
unfoldable pub analyze_triple_with_pair : List RankGroup → RuleContext → CardPattern
unfolding triple_with_pair_by
analyze_triple_with_pair groups ctx = triple_with_pair_by (normal groups) (total_wild 0 groups) ctx
