-- ===== src/Engine/Bot/Masks.antt =====
-- The loop of `choosePlay` over the masks finds the least score.

use gd_server.Analyzer.{analyze}
use gd_server.Base.{
  >>=-eq-some, Bool-cases, List, Option, [], arith, count, elem, inl, inr, length, ltb, none, refl,
  some, suc, true, zero, ℕ, ℕ_discrete, ◌+◌, ◌<◌, ◌∙◌, ◌∷◌, ◌≡◌, ◌≤◌, ◌⊎◌,
}
use gd_server.Cards.{Card, RuleContext}
use gd_server.Engine.Bot.{Best, bit, improve, score_of, subset_of, try_masks}
use gd_server.State.{GameState, contains, get_card_by_id}
use gd_server.Tribute.Data.{cards_from_ids}

pub contains-subset :
    (mask i : ℕ) (ids hand : List ℕ)
    → ((a : ℕ) → 0 < count a ids → elem a hand ≡ true)
    → contains hand (subset_of mask ids i) ≡ true
unfolding contains subset_of
contains-subset mask i [] hand h = refl
contains-subset mask i (id ∷ ids) hand h =
    let rest = contains-subset mask (i + 1) ids hand (λ a l. h a (ground arith)) in
    ground (arith, h id)

cards_from_ids-cons :
    (s : GameState) (id : ℕ) (ids : List ℕ) (cards : List Card)
    → cards_from_ids s (id ∷ ids) ≡ some cards
    → (c : Card) × ((cs : List Card) × (get_card_by_id s id ≡ some c)
        × (cards_from_ids s ids ≡ some cs))
unfolding cards_from_ids
cards_from_ids-cons s id ids cards h =
    let (c, known, rest) = >>=-eq-some (get_card_by_id s id) _ h in
    let (cs, more, last) = >>=-eq-some (cards_from_ids s ids) (λ cs. some (c ∷ cs)) rest in
    (c, (cs, known, more))

cards_from_ids-subset :
    (s : GameState) (mask i : ℕ) (ids : List ℕ) (cards : List Card)
    → cards_from_ids s ids ≡ some cards
    → (objs : List Card) × (cards_from_ids s (subset_of mask ids i) ≡ some objs)
unfolding cards_from_ids subset_of
cards_from_ids-subset s mask i [] cards h = ([], refl)
cards_from_ids-subset s mask i (id ∷ ids) cards h =
    let (c, (cs, known, more)) = cards_from_ids-cons s id ids cards h in
    let (objs, e) = cards_from_ids-subset s mask (i + 1) ids cs more in
    elim (Bool-cases (bit mask i)) [
      | inl in_mask ↦ (c ∷ objs, rw (in_mask, known, e) refl)
      | inr out ↦ (objs, rw (out, e) refl)
    ]

-- A mask whose cards may be played, with the score of the play.
pub record Offers (s : GameState) (ctx : RuleContext) (hand : List ℕ) (mask score : ℕ)
    : Type 0 where
  pub objs : List Card
  pub known : cards_from_ids s (subset_of mask hand 0) ≡ some objs
  pub price : score_of s (length (subset_of mask hand 0)) (analyze objs ctx) ≡ some score

record IsBetter (o : Option ℕ) (subset : List ℕ) (b b1 : Best) : Type 0 where
  falls : b1.1 ≤ b.1
  meets : (score : ℕ) → o ≡ some score → b1.1 ≤ score
  came : (b1 ≡ b) ⊎ ((b1.0 ≡ some subset) × (o ≡ some b1.1))

improve-IsBetter :
    (o : Option ℕ) (subset : List ℕ) (b : Best) → IsBetter o subset b (improve o subset b)
unfolding improve
improve-IsBetter none subset b = record {
  falls = omega arith;
  meets = λ score h. absurd (cc h);
  came = inl refl;
}
improve-IsBetter (some sc) subset b = elim (Bool-cases (ltb sc b.1)) [
  | inl less ↦
      rw less
        record { falls = ground arith; meets = λ score h. ground arith; came = inr (refl, refl) }
  | inr more ↦
      rw more record { falls = omega arith; meets = λ score h. ground arith; came = inl refl }
]

-- What the loop makes of the best play so far.
pub record IsBest (s : GameState) (ctx : RuleContext) (hand : List ℕ) (k mask : ℕ) (b b' : Best)
    : Type 0 where
  pub no_dearer : b'.1 ≤ b.1
  pub cheapest : (m score : ℕ) → mask ≤ m → m < mask + k → Offers s ctx hand m score → b'.1 ≤ score
  pub origin :
      (b' ≡ b)
      ⊎ ((m : ℕ) × (mask ≤ m)
          × (m < mask + k)
          × (b'.0 ≡ some (subset_of m hand 0))
          × Offers s ctx hand m b'.1)

IsBest-cons :
    (s : GameState) (ctx : RuleContext) (hand : List ℕ) (k mask : ℕ) (b b1 b' : Best)
    (objs : List Card)
    → cards_from_ids s (subset_of mask hand 0) ≡ some objs
    → IsBetter
        (score_of s (length (subset_of mask hand 0)) (analyze objs ctx))
        (subset_of mask hand 0)
        b
        b1
    → IsBest s ctx hand k (mask + 1) b1 b'
    → IsBest s ctx hand (suc k) mask b b'
IsBest-cons s ctx hand k mask b b1 b' objs e step best = record {
  no_dearer = omega (arith, step.falls, best.no_dearer);
  cheapest = λ m score l l' o. elim (ℕ_discrete mask m) [
    | yes same ↦
        let o' : Offers s ctx hand mask score = rw same o in
        let f : objs ≡ o'.objs = cc (e, o'.known) in
        omega (arith, best.no_dearer, step.meets score (rw f o'.price))
    | no other ↦ best.cheapest m score (omega arith) (omega arith) o
  ];
  origin = elim best.origin [
    | inl same ↦ elim step.came [
      | inl old ↦ inl (same ∙ old)
      | inr (found, price) ↦ inr (
          rw same (
            mask,
            omega arith,
            omega arith,
            found,
            record { objs = objs; known = e; price = price },
          ))
    ]
    | inr (m, l, l', found, o) ↦ inr (m, omega arith, omega arith, found, o)
  ];
}

pub try_masks-IsBest :
    (s : GameState) (ctx : RuleContext) (hand : List ℕ) (cards : List Card)
    → cards_from_ids s hand ≡ some cards
    → (k mask : ℕ) (b : Best)
    → (b' : Best) × (try_masks s ctx hand k mask b ≡ some b') × IsBest s ctx hand k mask b b'
unfolding try_masks improve
try_masks-IsBest s ctx hand cards h zero mask b = (
  b,
  refl,
  record {
    no_dearer = omega arith;
    cheapest = λ m score l l' o. absurd (omega arith);
    origin = inl refl;
  },
)
try_masks-IsBest s ctx hand cards h (suc k) mask b =
    let subset = subset_of mask hand 0 in
    let (objs, e) = cards_from_ids-subset s mask 0 hand cards h in
    let o = score_of s (length subset) (analyze objs ctx) in
    let step = improve-IsBetter o subset b in
    let (b', run, best) = try_masks-IsBest s ctx hand cards h k (mask + 1) (improve o subset b) in
    (b', rw e run, IsBest-cons s ctx hand k mask b (improve o subset b) b' objs e step best)
