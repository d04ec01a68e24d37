-- ===== src/Cards/Deck.antt =====
-- server/src/game/deck.cpp: dealing. The library's `std::shuffle` is a function that the callers are
-- given; `deal` reads the shuffled cards. A call that throws is `none`.
pub mod Dealing
use gd_server.Base.{
  List, Option, [], drop, get_or, if◌then◌else◌, length, ltb, map, none, not, replicate, set, some,
  suc, take, zero, ℕ, ◌%◌, ◌*◌, ◌++◌, ◌+◌, ◌==◌, ◌∷◌,
}
use gd_server.Cards.{Card}

-- The first way: each player gets the next cards of the deck, with `k` players left.
deal_blocks : List Card → ℕ → ℕ → List (List ℕ)
deal_blocks cards zero per_player = []
deal_blocks cards (suc k) per_player =
    map (λ c. c.id) (take per_player cards) ∷ deal_blocks (drop per_player cards) k per_player

abbrev push_at : List (List ℕ) → ℕ → ℕ → List (List ℕ)
push_at hands i id = set hands i (get_or hands i [] ++ id ∷ [])

-- The second way: one card after the other, from card `i` on, round the table.
deal_round : List Card → ℕ → ℕ → List (List ℕ) → List (List ℕ)
deal_round [] n i hands = hands
deal_round (c ∷ cs) n i hands = deal_round cs n (i + 1) (push_at hands (i % n) c.id)

unfoldable pub deal : List Card → ℕ → ℕ → Option (List (List ℕ))
unfolding deal_blocks deal_round
deal cards player_count cards_per_player =
    let blocks =
      if ltb (length cards) (player_count * cards_per_player)
      then none
      else some (deal_blocks cards player_count cards_per_player) in
    let rounds =
      if not (length cards % player_count == 0)
      then none
      else some (deal_round cards player_count 0 (replicate player_count [])) in
    if player_count == 0 then none else if ltb 0 cards_per_player then blocks else rounds
