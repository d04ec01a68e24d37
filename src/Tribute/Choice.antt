-- ===== src/Tribute/Choice.antt =====
-- tribute.cpp: the card that must be given, the cards that may come back, and the checks of both.
pub mod Picks
use gd_server.Base.{
  Bool, List, Option, [], elem, false, if◌then◌else◌, is_empty, leb, min, none, not, some, ℕ, ◌&&◌,
  ◌==◌, ◌>>=◌, ◌||◌, ◌∷◌,
}
use gd_server.Cards.{
  Card, RuleContext, is_joker, is_level_card, is_wild_card, rank_r10, single_effective_rank,
}
use gd_server.State.{GameState, Hand, contains, player}
use gd_server.Tribute.Data.{above, below, cards_from_ids, rank_order_for_tribute}

unfoldable pub is_valid_tribute_card : Card → RuleContext → Bool
is_valid_tribute_card card ctx = not (is_wild_card ctx card)

unfoldable pub is_valid_return_card : Card → RuleContext → Bool
is_valid_return_card card ctx =
    if is_level_card ctx card || is_joker card.rank then false else leb card.rank rank_r10

-- The loop of `pickBestTributeCard` over the cards of the hand.
best_tribute_from : RuleContext → List Card → Option ℕ → ℕ → ℕ
unfolding rank_order_for_tribute is_valid_tribute_card
best_tribute_from ctx [] best_order best = best
best_tribute_from ctx (c ∷ cs) best_order best =
    let order = rank_order_for_tribute c ctx in
    let better = is_valid_tribute_card c ctx && above best_order order in
    best_tribute_from ctx cs (if better then some order else best_order)
      (if better then c.id else best)

unfoldable pub pick_best_tribute_card : Hand → GameState → RuleContext → Option ℕ
unfolding best_tribute_from
pick_best_tribute_card hand s ctx =
    cards_from_ids s hand >>= λ cs. some (best_tribute_from ctx cs none 0)

unfoldable pub required_tribute_card : Hand → GameState → RuleContext → Option ℕ
unfolding pick_best_tribute_card
required_tribute_card hand s ctx = pick_best_tribute_card hand s ctx

min_rank_from : RuleContext → List Card → ℕ → ℕ
min_rank_from ctx [] best = best
min_rank_from ctx (c ∷ cs) best = min_rank_from ctx cs (min best (single_effective_rank c ctx))

min_single_effective_rank : List Card → RuleContext → ℕ
unfolding min_rank_from
min_single_effective_rank cards ctx =
    let best = min_rank_from ctx cards 999 in if best == 999 then 0 else best

first_of_rank : RuleContext → ℕ → List Card → ℕ
first_of_rank ctx rank [] = 0
first_of_rank ctx rank (c ∷ cs) =
    if not (single_effective_rank c ctx == rank) then first_of_rank ctx rank cs else c.id

pick_smallest_card : List Card → RuleContext → ℕ
unfolding min_single_effective_rank first_of_rank
pick_smallest_card cards ctx =
    let min_order = min_single_effective_rank cards ctx in
    if min_order == 0 then 0 else first_of_rank ctx min_order cards

best_return_from : RuleContext → List Card → Option ℕ → ℕ → ℕ
unfolding is_valid_return_card
best_return_from ctx [] best_order best = best
best_return_from ctx (c ∷ cs) best_order best =
    let better = is_valid_return_card c ctx && below best_order c.rank in
    best_return_from ctx cs (if better then some c.rank else best_order)
      (if better then c.id else best)

-- `pickReturnCard` over the cards of the hand.
return_card_of : List Card → RuleContext → ℕ
unfolding best_return_from pick_smallest_card
return_card_of cards ctx =
    let valid = best_return_from ctx cards none 0 in
    if not (valid == 0) then valid else pick_smallest_card cards ctx

unfoldable pub pick_return_card : Hand → GameState → RuleContext → Option ℕ
unfolding return_card_of
pick_return_card hand s ctx = cards_from_ids s hand >>= λ cs. some (return_card_of cs ctx)

ids_where : (Card → Bool) → List Card → List ℕ
ids_where test [] = []
ids_where test (c ∷ cs) = if test c then c.id ∷ ids_where test cs else ids_where test cs

return_ids_of : List Card → RuleContext → List ℕ
unfolding ids_where min_single_effective_rank is_valid_return_card
return_ids_of cards ctx =
    let primary = ids_where (λ c. is_valid_return_card c ctx) cards in
    let min_order = min_single_effective_rank cards ctx in
    if not (is_empty primary)
    then primary
    else if min_order == 0
    then []
    else ids_where (λ c. single_effective_rank c ctx == min_order) cards

unfoldable pub valid_return_card_ids : Hand → GameState → RuleContext → Option (List ℕ)
unfolding return_ids_of
valid_return_card_ids hand s ctx = cards_from_ids s hand >>= λ cs. some (return_ids_of cs ctx)

unfoldable pub is_valid_tribute_submission : ℕ → ℕ → GameState → RuleContext → Option Bool
unfolding required_tribute_card
is_valid_tribute_submission seat card_id s ctx =
    let hand = (player s seat).hand in
    if leb s.player_count seat || card_id == 0
    then some false
    else if not (contains hand (card_id ∷ []))
    then some false
    else (required_tribute_card hand s ctx >>= λ best. some (card_id == best))

unfoldable pub is_valid_return_submission : ℕ → ℕ → GameState → RuleContext → Option Bool
unfolding valid_return_card_ids
is_valid_return_submission seat card_id s ctx =
    let hand = (player s seat).hand in
    if leb s.player_count seat || card_id == 0
    then some false
    else if not (contains hand (card_id ∷ []))
    then some false
    else (valid_return_card_ids hand s ctx >>= λ ids. some (elem card_id ids))
