-- ===== src/Cards/Deck/Dealing.antt =====
-- server/src/game/deck.cpp and card.cpp: where the cards of the deck go.
use gd_server.Base.{
  List, [], ap, arith, count, if◌then◌else◌, leb, ltb, refl, suc, zero, ℕ, ◌%◌, ◌&&◌, ◌*◌, ◌++◌,
  ◌+◌, ◌∷◌, ◌≡◌, ◌≤◌,
}
use gd_server.Cards.{
  Card, Suit, big_joker, club, create_full_deck, decks_from, diamond, heart, joker, one_deck,
  small_joker, spade, suit_cards,
}

-- The ids of a list of cards.
pub ids_of : List Card → List ℕ
ids_of [] = []
ids_of (c ∷ cs) = c.id ∷ ids_of cs

-- How often an id occurs in all the hands together.
pub count_hands : ℕ → List (List ℕ) → ℕ
count_hands a [] = 0
count_hands a (h ∷ hs) = count a h + count_hands a hs

-- Cards with one id for each number from 0 to `n`, and no other.
abbrev pub IsFullDeck : List Card → ℕ → Type 0
IsFullDeck cards n = (a : ℕ) → count a (ids_of cards) ≡ (if ltb a n then 1 else 0)

count_append_ids :
    (a : ℕ) (xs ys : List Card)
    → count a (ids_of (xs ++ ys)) ≡ count a (ids_of xs) + count a (ids_of ys)
unfolding ids_of
count_append_ids a [] ys = omega arith
count_append_ids a (c ∷ xs) ys = omega (arith, count_append_ids a xs ys)

-- 1 for a number in the range of `n` numbers from `id` on, else 0.
in_span : ℕ → ℕ → ℕ → ℕ
in_span a id n = if leb id a && ltb a (id + n) then 1 else 0

span_none : (a id : ℕ) → 0 ≡ in_span a id 0
unfolding in_span
span_none a id = ground arith

span_join :
    (a lo mid m n : ℕ) → mid ≡ lo + m → in_span a lo m + in_span a mid n ≡ in_span a lo (m + n)
unfolding in_span
span_join a lo mid m n e = ground arith

count-suit_cards :
    (a : ℕ) (s : Suit) (n r id : ℕ)
    → id + n ≤ 65536
    → count a (ids_of (suit_cards s n r id)) ≡ in_span a id n
unfolding ids_of suit_cards in_span
count-suit_cards a s zero r id h = ground arith
count-suit_cards a s (suc n) r id h =
    ground (arith, count-suit_cards a s n (r + 1) (id + 1) (omega arith))

jokers-count :
    (a id : ℕ) (c d : Card)
    → c.id ≡ id
    → d.id ≡ id + 1
    → count a (ids_of (c ∷ d ∷ [])) ≡ in_span a id 2
unfolding ids_of in_span
jokers-count a id c d e f = ground arith

one_deck-count : (a id : ℕ) → id + 54 ≤ 65536 → count a (ids_of (one_deck id)) ≡ in_span a id 54
unfolding one_deck
one_deck-count a id h =
    rw
      (
        count_append_ids a (suit_cards spade 13 2 id) _,
        count_append_ids a (suit_cards heart 13 2 (id + 13)) _,
        count_append_ids a (suit_cards club 13 2 (id + 26)) _,
        count_append_ids a (suit_cards diamond 13 2 (id + 39)) _,
        count-suit_cards a spade 13 2 id (omega arith),
        count-suit_cards a heart 13 2 (id + 13) (omega arith),
        count-suit_cards a club 13 2 (id + 26) (omega arith),
        count-suit_cards a diamond 13 2 (id + 39) (omega arith),
        jokers-count a (id + 52)
            (record { id = (id + 52) % 65536; suit = joker; rank = small_joker })
            (record { id = (id + 53) % 65536; suit = joker; rank = big_joker }) (omega arith)
            (omega arith),
      )
      (let j1 : in_span a id 13 + in_span a (id + 13) 41 ≡ in_span a id 54 =
          span_join a id (id + 13) 13 41 refl in
        let j2 : in_span a (id + 13) 13 + in_span a (id + 26) 28 ≡ in_span a (id + 13) 41 =
          span_join a (id + 13) (id + 26) 13 28 (omega arith) in
        let j3 : in_span a (id + 26) 13 + in_span a (id + 39) 15 ≡ in_span a (id + 26) 28 =
          span_join a (id + 26) (id + 39) 13 15 (omega arith) in
        let j4 : in_span a (id + 39) 13 + in_span a (id + 52) 2 ≡ in_span a (id + 39) 15 =
          span_join a (id + 39) (id + 52) 13 2 (omega arith) in
        omega (arith, j1, j2, j3, j4))

decks_from-count :
    (a n id : ℕ) → id + n * 54 ≤ 65536 → count a (ids_of (decks_from n id)) ≡ in_span a id (n * 54)
unfolding decks_from ids_of
decks_from-count a zero id h = span_none a id
decks_from-count a (suc n) id h =
    rw
      (
        count_append_ids a (one_deck id) (decks_from n (id + 54)),
        one_deck-count a id (omega arith),
        decks_from-count a n (id + 54) (omega arith),
        span_join a id (id + 54) 54 (n * 54) refl,
      )
      (ap (in_span a id) (omega arith))

-- The full deck of up to 1213 decks of 54 cards, as many as the 16-bit ids can tell apart, has each
-- id below its size exactly once, and no other id.
pub create_full_deck-IsFullDeck : (n : ℕ) → n ≤ 1213 → IsFullDeck (create_full_deck n) (n * 54)
unfolding create_full_deck in_span
create_full_deck-IsFullDeck n h a = ground (arith, decks_from-count a n 0 (omega arith))
