-- ===== src/Analyzer/Fits.antt =====
-- card_analyzer.cpp: the sizes of the runs, and of every pattern that `analyze` gives.

use gd_server.Analyzer.{
  analyze, analyze_by_size, analyze_joker_bomb, analyze_long, analyze_straight_flush,
  has_plain_joker, non_wild, one_suit, or_next,
}
use gd_server.Analyzer.Groups.{RankGroup, group_by_rank, normal, total_wild}
use gd_server.Analyzer.Kinds.{analyze_bomb, analyze_triple_with_pair}
use gd_server.Analyzer.Runs.{
  analyze_straight, analyze_three_pairs, analyze_two_triples, find_start, group_need,
  has_joker_group, run_pattern, single_need,
}
use gd_server.Analyzer.Sizes.{
  Fits, Sized, analyze_bomb-Fits, analyze_pair-Fits, analyze_single-Fits, analyze_triple-Fits,
  analyze_triple_with_pair-Fits, if-Fits, joker_bomb_from-Fits, or_next-Fits,
}
use gd_server.Base.{
  Bool, List, Option, arith, false, if◌then◌else◌, inl, inr, is_empty, length, none, not, refl,
  some, true, ℕ, ℕ_discrete, ◌==◌, ◌≡◌, ◌⊎◌,
}
use gd_server.Cards.{Card, RuleContext}
use gd_server.Rules.{
  CardPattern, CardType, no_pattern, straight, straight_flush, three_pairs, two_triples,
}

run_pattern-Fits :
    (t : CardType) (len n : ℕ) (o : Option ℕ) → Sized t len n → Fits (run_pattern t len o) n
run_pattern-Fits t len n none h = inl refl
run_pattern-Fits t len n (some start) h = inr (refl, h)

-- The three patterns over consecutive ranks share their tests.
abbrev run_of : Bool → ℕ → ℕ → CardType → ℕ → Option ℕ → CardPattern
run_of joker_in total n t len o =
    if not (total == n) then no_pattern else if joker_in then no_pattern else run_pattern t len o

run_of-Fits :
    (joker_in : Bool) (total n : ℕ) (t : CardType) (len : ℕ) (o : Option ℕ)
    → Sized t len n
    → Fits (run_of joker_in total n t len o) total
run_of-Fits joker_in total n t len o h = elim (ℕ_discrete total n) [
  | yes e ↦
      let same : (total == n) ≡ true = ground arith in
      rw (same, e)
        (if-Fits joker_in no_pattern (run_pattern t len o) n (inl refl)
          (run_pattern-Fits t len n o h))
  | no ne ↦ let other : (total == n) ≡ false = ground arith in rw other (inl refl)
]

run_of-length :
    (joker_in : Bool) (total n : ℕ) (t : CardType) (len : ℕ) (o : Option ℕ)
    → ((run_of joker_in total n t len o).is_valid ≡ false)
      ⊎ ((run_of joker_in total n t len o).length ≡ len)
run_of-length joker_in total n t len none = ground arith
run_of-length joker_in total n t len (some start) = ground arith

analyze_straight-Fits : (gs : List RankGroup) (n : ℕ) → Fits (analyze_straight gs n) n
unfolding analyze_straight Sized
analyze_straight-Fits gs n =
    run_of-Fits (has_joker_group (normal gs)) n 5 straight 5
      (find_start single_need (normal gs) (total_wild 0 gs) 5 10 1) (refl, refl)

analyze_straight-length :
    (gs : List RankGroup) (n : ℕ)
    → ((analyze_straight gs n).is_valid ≡ false) ⊎ ((analyze_straight gs n).length ≡ 5)
unfolding analyze_straight
analyze_straight-length gs n =
    run_of-length (has_joker_group (normal gs)) n 5 straight 5
      (find_start single_need (normal gs) (total_wild 0 gs) 5 10 1)

analyze_three_pairs-Fits : (gs : List RankGroup) (n : ℕ) → Fits (analyze_three_pairs gs n) n
unfolding analyze_three_pairs Sized
analyze_three_pairs-Fits gs n =
    run_of-Fits (has_joker_group (normal gs)) n 6 three_pairs 3
      (find_start (group_need 2) (normal gs) (total_wild 0 gs) 3 12 1) (refl, refl)

analyze_two_triples-Fits : (gs : List RankGroup) (n : ℕ) → Fits (analyze_two_triples gs n) n
unfolding analyze_two_triples Sized
analyze_two_triples-Fits gs n =
    run_of-Fits (has_joker_group (normal gs)) n 6 two_triples 2
      (find_start (group_need 3) (normal gs) (total_wild 0 gs) 2 13 1) (refl, refl)

flush_of-Fits :
    (joker_in same : Bool) (n : ℕ) (p : CardPattern)
    → (p.is_valid ≡ false) ⊎ (p.length ≡ 5)
    → Fits
        (if not (n == 5)
          then no_pattern
          else if joker_in
          then no_pattern
          else if not same
          then no_pattern
          else if p.is_valid
          then record p { type = straight_flush }
          else no_pattern)
        n
unfolding Sized
flush_of-Fits joker_in same n p h = ground arith

flush-Fits :
    (cards : List Card) (ctx : RuleContext) → Fits (analyze_straight_flush cards ctx) (length cards)
unfolding analyze_straight_flush
flush-Fits cards ctx =
    flush_of-Fits (has_plain_joker ctx cards) (one_suit (non_wild ctx cards)) (length cards)
      (analyze_straight (group_by_rank cards ctx) (length cards))
      (analyze_straight-length (group_by_rank cards ctx) (length cards))

at_size-Fits :
    (n k : ℕ) (p q : CardPattern) → (n ≡ k → Fits p n) → Fits q n → Fits (if n == k then p else q) n
at_size-Fits n k p q h g = elim (ℕ_discrete n k) [
  | yes e ↦ let same : (n == k) ≡ true = ground arith in rw same (h e)
  | no ne ↦ let other : (n == k) ≡ false = ground arith in rw other g
]

analyze_long-Fits :
    (cards : List Card) (groups : List RankGroup) (ctx : RuleContext)
    → Fits (analyze_long cards groups ctx) (length cards)
unfolding analyze_long
analyze_long-Fits cards groups ctx =
    let n = length cards in
    let p6 = analyze_three_pairs groups n in
    let q6 = analyze_two_triples groups n in
    let six = or_next p6 (or_next q6 no_pattern) in
    let six' = if n == 6 then six else no_pattern in
    let runs =
      or_next (analyze_straight_flush cards ctx) (or_next (analyze_straight groups n) six') in
    let six-Fits =
      or_next-Fits p6 (or_next q6 no_pattern) n (analyze_three_pairs-Fits groups n)
        (or_next-Fits q6 no_pattern n (analyze_two_triples-Fits groups n) (inl refl)) in
    let six'-Fits = if-Fits (n == 6) six no_pattern n six-Fits (inl refl) in
    let runs-Fits =
      or_next-Fits (analyze_straight_flush cards ctx) (or_next (analyze_straight groups n) six') n
        (flush-Fits cards ctx)
        (or_next-Fits (analyze_straight groups n) six' n (analyze_straight-Fits groups n)
          six'-Fits) in
    at_size-Fits n 5 (or_next (analyze_triple_with_pair groups ctx) runs) runs
      (λ e.
        or_next-Fits (analyze_triple_with_pair groups ctx) runs n
          (rw e (analyze_triple_with_pair-Fits groups ctx)) runs-Fits)
      runs-Fits

analyze_by_size-Fits :
    (cards : List Card) (groups : List RankGroup) (ctx : RuleContext)
    → Fits (analyze_by_size cards groups ctx) (length cards)
unfolding analyze_by_size
analyze_by_size-Fits cards groups ctx =
    let wild = total_wild 0 groups in
    ground (
      arith,
      analyze_single-Fits cards ctx,
      analyze_pair-Fits groups wild ctx,
      analyze_triple-Fits groups wild ctx,
      analyze_long-Fits cards groups ctx,
    )

-- A list of cards that reads as a valid pattern has the number of cards of that pattern, which the
-- pattern states as its length except for three pairs and two triples, which state the number of
-- their ranks. A straight and a straight flush have exactly five cards, three pairs and two triples
-- exactly six, and a bomb and a joker bomb at least four. An invalid type is never valid.
pub analyze-Fits : (cards : List Card) (ctx : RuleContext) → Fits (analyze cards ctx) (length cards)
unfolding analyze analyze_joker_bomb
analyze-Fits cards ctx =
    let groups = group_by_rank cards ctx in
    let n = length cards in
    let sized = analyze_by_size cards groups ctx in
    let bombs = analyze_bomb cards groups n ctx in
    if-Fits (is_empty cards) no_pattern (or_next (analyze_joker_bomb cards) (or_next bombs sized)) n
      (inl refl)
      (or_next-Fits (analyze_joker_bomb cards) (or_next bombs sized) n
        (joker_bomb_from-Fits cards n 0 0 (omega arith))
        (or_next-Fits bombs sized n (analyze_bomb-Fits cards groups n ctx)
          (analyze_by_size-Fits cards groups ctx)))
