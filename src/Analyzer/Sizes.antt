-- ===== src/Analyzer/Sizes.antt =====
-- How many cards each pattern has.

use gd_server.Analyzer.{joker_bomb_from, or_next}
use gd_server.Analyzer.Groups.{RankGroup, normal, rank_of, total_wild}
use gd_server.Analyzer.Kinds.{
  alike_by, analyze_bomb, analyze_pair, analyze_single, analyze_triple, analyze_triple_with_pair,
  bomb_by, bomb_of, by_counts, triple_and_pair, triple_with_pair_by,
}
use gd_server.Base.{
  Bool, Bool-cases, List, [], arith, false, if◌then◌else◌, inl, inr, leb, length, ltb, refl, true,
  ℕ, ◌&&◌, ◌+◌, ◌==◌, ◌∷◌, ◌≡◌, ◌≤◌, ◌⊎◌,
}
use gd_server.Cards.{Card, RuleContext, big_joker, raw_level_rank_value, small_joker}
use gd_server.Rules.{
  CardPattern, CardType, bomb, invalid, joker_bomb, pair, single, straight, straight_flush,
  three_pairs, triple, triple_with_pair, two_triples,
}

-- The length that a pattern states and the number of its cards, by its type.
unfoldable pub Sized : CardType → ℕ → ℕ → Type 0
Sized invalid len n = ⊥
Sized single len n = (len ≡ 1) × (n ≡ 1)
Sized pair len n = (len ≡ 2) × (n ≡ 2)
Sized triple len n = (len ≡ 3) × (n ≡ 3)
Sized triple_with_pair len n = (len ≡ 5) × (n ≡ 5)
Sized straight len n = (len ≡ 5) × (n ≡ 5)
Sized three_pairs len n = (len ≡ 3) × (n ≡ 6)
Sized two_triples len n = (len ≡ 2) × (n ≡ 6)
Sized bomb len n = (4 ≤ n) × (len ≡ n)
Sized straight_flush len n = (len ≡ 5) × (n ≡ 5)
Sized joker_bomb len n = (4 ≤ n) × (len ≡ n)

-- A pattern that is not valid, or one of the right size.
abbrev pub Fits : CardPattern → ℕ → Type 0
Fits p n = (p.is_valid ≡ false) ⊎ (p.is_valid ≡ true) × Sized p.type p.length n

pub if-Fits :
    (b : Bool) (p q : CardPattern) (n : ℕ) → Fits p n → Fits q n → Fits (if b then p else q) n
if-Fits true p q n h k = h
if-Fits false p q n h k = k

pub or_next-Fits : (p q : CardPattern) (n : ℕ) → Fits p n → Fits q n → Fits (or_next p q) n
or_next-Fits p q n h k = if-Fits p.is_valid p q n h k

pub joker_bomb_from-Fits :
    (cs : List Card) (total small big : ℕ)
    → small + big + length cs ≡ total
    → Fits (joker_bomb_from cs total small big) total
unfolding joker_bomb_from Sized
joker_bomb_from-Fits [] total small big e = elim (Bool-cases (leb 2 small && leb 2 big)) [
  | inl t ↦ rw t (inr (refl, (ground arith, refl)))
  | inr f ↦ rw f (inl refl)
]
joker_bomb_from-Fits (c ∷ cs) total small big e = elim (Bool-cases (c.rank == small_joker)) [
  | inl t ↦ rw t (joker_bomb_from-Fits cs total (small + 1) big (omega arith))
  | inr f ↦ rw f (elim (Bool-cases (c.rank == big_joker)) [
    | inl t ↦ rw t (joker_bomb_from-Fits cs total small (big + 1) (omega arith))
    | inr g ↦ rw g (inl refl)
  ])
]

bomb_of-Fits :
    (cards : List Card) (total : ℕ) (ctx : RuleContext) (rank n : ℕ)
    → Fits (bomb_of cards total ctx rank n) total
unfolding bomb_of Sized
bomb_of-Fits cards total ctx rank n = elim (Bool-cases (leb 4 n && n == total)) [
  | inl t ↦ rw t (inr (refl, (ground arith, ground arith)))
  | inr f ↦ rw f (inl refl)
]

pub analyze_bomb-Fits :
    (cards : List Card) (groups : List RankGroup) (total : ℕ) (ctx : RuleContext)
    → Fits (analyze_bomb cards groups total ctx) total
unfolding analyze_bomb bomb_by
analyze_bomb-Fits cards groups total ctx = elim (Bool-cases (ltb total 4)) [
  | inl t ↦ rw t (inl refl)
  | inr f ↦ rw f (by_groups (normal groups) (total_wild 0 groups))
]
  where
    by_groups : (gs : List RankGroup) (wild : ℕ) → Fits (bomb_by gs wild cards total ctx) total
    by_groups [] wild = bomb_of-Fits cards total ctx (raw_level_rank_value ctx) wild
    by_groups (g ∷ []) wild = bomb_of-Fits cards total ctx (rank_of g) (g.count + wild)
    by_groups (g ∷ h ∷ gs) wild = inl refl

pub analyze_single-Fits :
    (cards : List Card) (ctx : RuleContext) → Fits (analyze_single cards ctx) (length cards)
unfolding analyze_single Sized
analyze_single-Fits [] ctx = inl refl
analyze_single-Fits (c ∷ []) ctx = inr (refl, (refl, refl))
analyze_single-Fits (c ∷ d ∷ cs) ctx = inl refl

alike_by-Fits :
    (t : CardType) (n : ℕ) (gs : List RankGroup) (wild : ℕ) (ctx : RuleContext)
    → Sized t n n
    → Fits (alike_by t n gs wild ctx) n
unfolding alike_by
alike_by-Fits t n [] wild ctx h = elim (Bool-cases (leb n wild)) [
  | inl e ↦ rw e (inr (refl, h))
  | inr e ↦ rw e (inl refl)
]
alike_by-Fits t n (g ∷ []) wild ctx h = elim (Bool-cases (g.count + wild == n)) [
  | inl e ↦ rw e (inr (refl, h))
  | inr e ↦ rw e (inl refl)
]
alike_by-Fits t n (g ∷ k ∷ gs) wild ctx h = inl refl

pub analyze_pair-Fits :
    (gs : List RankGroup) (wild : ℕ) (ctx : RuleContext) → Fits (analyze_pair gs wild ctx) 2
unfolding analyze_pair Sized
analyze_pair-Fits [] wild ctx = inl refl
analyze_pair-Fits (g ∷ gs) wild ctx =
    alike_by-Fits pair 2 (normal (g ∷ gs)) (total_wild wild (g ∷ gs)) ctx (refl, refl)

pub analyze_triple-Fits :
    (gs : List RankGroup) (wild : ℕ) (ctx : RuleContext) → Fits (analyze_triple gs wild ctx) 3
unfolding analyze_triple Sized
analyze_triple-Fits gs wild ctx =
    alike_by-Fits triple 3 (normal gs) (total_wild wild gs) ctx (refl, refl)

triple_with_pair_by-Fits :
    (gs : List RankGroup) (wild : ℕ) (ctx : RuleContext) → Fits (triple_with_pair_by gs wild ctx) 5
unfolding triple_with_pair_by by_counts triple_and_pair Sized
triple_with_pair_by-Fits [] wild ctx = inl refl
triple_with_pair_by-Fits (g ∷ []) wild ctx = ground arith
triple_with_pair_by-Fits (g ∷ h ∷ []) wild ctx = ground arith
triple_with_pair_by-Fits (g ∷ h ∷ k ∷ gs) wild ctx = inl refl

pub analyze_triple_with_pair-Fits :
    (groups : List RankGroup) (ctx : RuleContext) → Fits (analyze_triple_with_pair groups ctx) 5
unfolding analyze_triple_with_pair
analyze_triple_with_pair-Fits groups ctx =
    triple_with_pair_by-Fits (normal groups) (total_wild 0 groups) ctx
