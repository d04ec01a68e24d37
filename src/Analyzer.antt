-- ===== src/Analyzer.antt =====
-- server/src/game/card_analyzer.cpp: `CardAnalyzer::analyze`, which reads a list of cards as a pattern.
-- The children hold the groups of equal rank, the patterns made of such groups, and the runs.
pub mod Groups
pub mod Kinds
pub mod Runs
pub mod Sizes
pub mod Fits
pub mod Doubles
use gd_server.Base.{
  ℕ, ◌+◌, Bool, true, false, not, ◌&&◌, ◌||◌, List, [], ◌∷◌, ltb, leb, ◌==◌, if◌then◌else◌, length,
  is_empty,
}
use gd_server.Cards.{
  Card, Suit, RuleContext, small_joker, big_joker, suit_eq, is_joker, is_wild_card,
}
use gd_server.Rules.{CardPattern, joker_bomb, straight_flush, no_pattern}
use Groups.{RankGroup, group_by_rank, total_wild}
use Kinds.{analyze_bomb, analyze_single, analyze_pair, analyze_triple, analyze_triple_with_pair}
use Runs.{analyze_straight, analyze_three_pairs, analyze_two_triples}

-- The loop of `analyzeJokerBomb`; a card that is no joker ends it.
pub joker_bomb_from : List Card → ℕ → ℕ → ℕ → CardPattern
joker_bomb_from [] total small big =
    if leb 2 small && leb 2 big
    then record {
      type = joker_bomb;
      primary_rank = big_joker;
      length = total;
      pair_rank = 0;
      is_valid = true;
    }
    else no_pattern
joker_bomb_from (c ∷ cs) total small big =
    let more_small = joker_bomb_from cs total (small + 1) big in
    let more_big = joker_bomb_from cs total small (big + 1) in
    if c.rank == small_joker
    then more_small
    else if c.rank == big_joker
    then more_big
    else no_pattern

pub analyze_joker_bomb : List Card → CardPattern
unfolding joker_bomb_from
analyze_joker_bomb cards = joker_bomb_from cards (length cards) 0 0

-- The first loop of `analyzeStraightFlush` fails on a joker; it collects the other cards.
has_plain_joker : RuleContext → List Card → Bool
has_plain_joker ctx [] = false
has_plain_joker ctx (c ∷ cs) =
    if is_wild_card ctx c
    then has_plain_joker ctx cs
    else if is_joker c.rank
    then true
    else has_plain_joker ctx cs

non_wild : RuleContext → List Card → List Card
non_wild ctx [] = []
non_wild ctx (c ∷ cs) = if is_wild_card ctx c then non_wild ctx cs else c ∷ non_wild ctx cs

same_suit : Suit → List Card → Bool
same_suit s [] = true
same_suit s (c ∷ cs) = if not (suit_eq c.suit s) then false else same_suit s cs

one_suit : List Card → Bool
unfolding same_suit
one_suit [] = false
one_suit (c ∷ cs) = same_suit c.suit (c ∷ cs)

pub analyze_straight_flush : List Card → RuleContext → CardPattern
unfolding has_plain_joker non_wild one_suit
analyze_straight_flush cards ctx =
    let straight = analyze_straight (group_by_rank cards ctx) (length cards) in
    if not (length cards == 5)
    then no_pattern
    else if has_plain_joker ctx cards
    then no_pattern
    else if not (one_suit (non_wild ctx cards))
    then no_pattern
    else if straight.is_valid
    then record straight { type = straight_flush }
    else no_pattern

-- `if (p.isValid) return p;` before the rest.
abbrev pub or_next : CardPattern → CardPattern → CardPattern
or_next p rest = if p.is_valid then p else rest

-- The attempts after those at one, two and three cards.
pub analyze_long : List Card → List RankGroup → RuleContext → CardPattern
unfolding analyze_straight_flush
analyze_long cards groups ctx =
    let n = length cards in
    let six_cards =
      if n == 6
      then or_next (analyze_three_pairs groups n)
          (or_next (analyze_two_triples groups n) no_pattern)
      else no_pattern in
    let runs =
      or_next (analyze_straight_flush cards ctx) (or_next (analyze_straight groups n) six_cards) in
    if n == 5 then or_next (analyze_triple_with_pair groups ctx) runs else runs

pub analyze_by_size : List Card → List RankGroup → RuleContext → CardPattern
unfolding analyze_long
analyze_by_size cards groups ctx =
    let n = length cards in
    let wild_count = total_wild 0 groups in
    if n == 1
    then analyze_single cards ctx
    else if n == 2
    then analyze_pair groups wild_count ctx
    else if n == 3
    then analyze_triple groups wild_count ctx
    else analyze_long cards groups ctx

unfoldable pub analyze : List Card → RuleContext → CardPattern
unfolding analyze_joker_bomb analyze_by_size
analyze cards ctx =
    let groups = group_by_rank cards ctx in
    if is_empty cards
    then no_pattern
    else or_next (analyze_joker_bomb cards)
        (or_next (analyze_bomb cards groups (length cards) ctx) (analyze_by_size cards groups ctx))
