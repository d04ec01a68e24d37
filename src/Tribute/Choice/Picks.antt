-- ===== src/Tribute/Choice/Picks.antt =====
-- tribute.cpp: which cards are picked, and what a submission must be.

use gd_server.Base.{
  All, Bool-cases, List, Option, [], arith, false, inl, inr, none, not, refl, some, true, ℕ, ◌&&◌,
  ◌∷◌, ◌≡◌, ◌≤◌, ◌⊎◌,
}
use gd_server.Cards.{Card, RuleContext, is_wild_card}
use gd_server.State.{GameState, Hand}
use gd_server.Tribute.Choice.{
  best_tribute_from, is_valid_tribute_card, pick_best_tribute_card, required_tribute_card,
}
use gd_server.Tribute.Data.{above, cards_from_ids, rank_order_for_tribute}

-- A card of a list.
abbrev pub IsAmong : Card → List Card → Type 0
IsAmong c [] = ⊥
IsAmong c (d ∷ ds) = (c ≡ d) ⊎ IsAmong c ds

-- What the loop of `pickBestTributeCard` ends with: nothing better than what it had, or a card.
abbrev pub Tops : RuleContext → List Card → Option ℕ → ℕ → ℕ → Type 0
Tops ctx cs order best result =
    ((result ≡ best)
      × All
          (λ d. (is_wild_card ctx d ≡ true) ⊎ (above order (rank_order_for_tribute d ctx) ≡ false))
          cs)
    ⊎ ((c : Card) × (result ≡ c.id)
        × IsAmong c cs
        × (is_wild_card ctx c ≡ false)
        × (above order (rank_order_for_tribute c ctx) ≡ true)
        × All
            (λ d.
              (is_wild_card ctx d ≡ true)
              ⊎ (rank_order_for_tribute d ctx ≤ rank_order_for_tribute c ctx))
            cs)

lower-All :
    (ctx : RuleContext) (order : Option ℕ) (k : ℕ) (cs : List Card)
    → above order k ≡ true
    → All
        (λ d. (is_wild_card ctx d ≡ true) ⊎ (above (some k) (rank_order_for_tribute d ctx) ≡ false))
        cs
    → All (λ d. (is_wild_card ctx d ≡ true) ⊎ (rank_order_for_tribute d ctx ≤ k)) cs
lower-All ctx order k [] h a = tt
lower-All ctx order k (d ∷ cs) h (a, b) = (ground arith, lower-All ctx order k cs h b)

above_more :
    (order : Option ℕ) (k m : ℕ)
    → above order k ≡ true
    → above (some k) m ≡ true
    → above order m ≡ true
above_more none k m h g = refl
above_more (some b) k m h g = ground arith

worse_or :
    (ctx : RuleContext) (order : Option ℕ) (c d : Card)
    → (not (is_wild_card ctx c) && above order (rank_order_for_tribute c ctx)) ≡ false
    → above order (rank_order_for_tribute d ctx) ≡ true
    → (is_wild_card ctx c ≡ true) ⊎ (rank_order_for_tribute c ctx ≤ rank_order_for_tribute d ctx)
worse_or ctx none c d worse up = inl (ground arith)
worse_or ctx (some b) c d worse up = ground arith

only_wild :
    (ctx : RuleContext) (cs : List Card)
    → All
        (λ d. (is_wild_card ctx d ≡ true) ⊎ (above none (rank_order_for_tribute d ctx) ≡ false))
        cs
    → All (λ d. is_wild_card ctx d ≡ true) cs
only_wild ctx [] a = tt
only_wild ctx (d ∷ cs) (inl e, a) = (e, only_wild ctx cs a)
only_wild ctx (d ∷ cs) (inr e, a) = ground arith

best_tribute_from-Tops :
    (ctx : RuleContext) (cs : List Card) (order : Option ℕ) (best : ℕ)
    → Tops ctx cs order best (best_tribute_from ctx cs order best)
unfolding best_tribute_from is_valid_tribute_card
best_tribute_from-Tops ctx [] order best = inl (refl, tt)
best_tribute_from-Tops ctx (c ∷ cs) order best =
    let k = rank_order_for_tribute c ctx in
    elim (Bool-cases (not (is_wild_card ctx c) && above order k)) [
      | inr worse ↦ elim (best_tribute_from-Tops ctx cs order best) [
        | inl (e, a) ↦ inl (rw worse e, (ground arith, a))
        | inr (d, e, among, plain, up, a) ↦
            inr (d, rw worse e, inr among, plain, up, (worse_or ctx order c d worse up, a))
      ]
      | inl better ↦ elim (best_tribute_from-Tops ctx cs (some k) c.id) [
        | inl (e, a) ↦ inr (
          c,
          rw better e,
          inl refl,
          ground arith,
          ground arith,
          (inr (omega arith), lower-All ctx order k cs (ground arith) a),
        )
        | inr (d, e, among, plain, up, a) ↦ inr (
          d,
          rw better e,
          inr among,
          plain,
          above_more order k (rank_order_for_tribute d ctx) (ground arith) up,
          (inr (ground arith), a),
        )
      ]
    ]

-- The card that a hand must give is, where the hand has one that is not wild, such a card of the
-- highest order; else it is 0.
pub required_tribute_card_total :
    (hand : Hand) (s : GameState) (ctx : RuleContext) (cs : List Card)
    → cards_from_ids s hand ≡ some cs
    → ((required_tribute_card hand s ctx ≡ some 0) × All (λ d. is_wild_card ctx d ≡ true) cs)
      ⊎ ((c : Card) × (required_tribute_card hand s ctx ≡ some c.id)
          × IsAmong c cs
          × (is_wild_card ctx c ≡ false)
          × All
              (λ d.
                (is_wild_card ctx d ≡ true)
                ⊎ (rank_order_for_tribute d ctx ≤ rank_order_for_tribute c ctx))
              cs)
unfolding required_tribute_card pick_best_tribute_card
required_tribute_card_total hand s ctx cs h = elim (best_tribute_from-Tops ctx cs none 0) [
  | inl (e, a) ↦ inl (rw (h, e), only_wild ctx cs a)
  | inr (c, e, among, plain, up, a) ↦ inr (c, rw (h, e), among, plain, a)
]
