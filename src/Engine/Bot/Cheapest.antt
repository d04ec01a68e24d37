-- ===== src/Engine/Bot/Cheapest.antt =====
-- A bot plays the cheapest of its legal plays.

use gd_server.Analyzer.{analyze}
use gd_server.Base.{
  Bool-cases, List, Option, [], ap, arith, elem_iff, false, inl, inr, leb, length, ltb, none, refl,
  some, suc, sym, true, zero, ℕ, ◌*◌, ◌+◌, ◌-◌, ◌<◌, ◌==◌, ◌^◌, ◌∙◌, ◌∷◌, ◌≡◌, ◌≢◌, ◌≤◌, ◌⊎◌,
}
use gd_server.Cards.{Card, RuleContext, playing}
use gd_server.Engine.Bot.{
  Best, choose_bot_play, choose_from, choose_play, int_max, score_of, subset_of, try_masks,
}
use gd_server.Engine.Bot.Choices.{Choice, Choice-mask, subset_of-Choice}
use gd_server.Engine.Bot.Masks.{IsBest, Offers, contains-subset, try_masks-IsBest}
use gd_server.Engine.Play.Legal.{IsLegal}
use gd_server.Engine.Table.{GameEngine, rule_context, seat_of, seat_of_from}
use gd_server.Rules.{CardPattern, can_beat, type_value}
use gd_server.State.{GameState, player}
use gd_server.Tribute.Data.{cards_from_ids}

pow_pos : (n : ℕ) → 0 < 2 ^ n
pow_pos zero = omega arith
pow_pos (suc n) = omega (arith, pow_pos n)

-- What a play costs: cards first, then rank, then type.
unfoldable pub cost : List ℕ → CardPattern → ℕ
cost ids p = length ids * 10000 + p.primary_rank * 10 + type_value p.type

-- No legal play of one or more cards chosen from the hand costs less.
abbrev IsLeast : GameEngine → ℕ → ℕ → ℕ → Type 0
IsLeast e id seat score =
    (ids : List ℕ) (p : CardPattern)
    → Choice ids (player e.state seat).hand
    → ids ≢ []
    → IsLegal e id ids seat p
    → score ≤ cost ids p

-- What a bot may choose: a legal play, cards chosen from the hand at the least cost of all such
-- plays, or nothing, where each such play costs the limit or more.
abbrev pub IsCheapest : GameEngine → ℕ → ℕ → Option (List ℕ) → Type 0
IsCheapest e id seat none = IsLeast e id seat int_max
IsCheapest e id seat (some ids) =
    Choice ids (player e.state seat).hand
    × ((p : CardPattern) × IsLegal e id ids seat p × IsLeast e id seat (cost ids p))

score_of-cost :
    (s : GameState) (ids : List ℕ) (p : CardPattern)
    → p.is_valid ≡ true
    → (s.last_pattern.is_valid ≡ false) ⊎ (can_beat p s.last_pattern ≡ true)
    → score_of s (length ids) p ≡ some (cost ids p)
unfolding score_of cost
score_of-cost s ids p valid wins = ground arith

IsLegal-Offers :
    (e : GameEngine) (id seat m : ℕ) (p : CardPattern)
    → IsLegal e id (subset_of m (player e.state seat).hand 0) seat p
    → Offers e.state
        (rule_context e)
        (player e.state seat).hand
        m
        (cost (subset_of m (player e.state seat).hand 0) p)
IsLegal-Offers e id seat m p legal =
    let ids = subset_of m (player e.state seat).hand 0 in
    record {
      objs = legal.objs;
      known = legal.known;
      price =
          ap (score_of e.state (length ids)) legal.read
          ∙ score_of-cost e.state ids p legal.valid legal.beats;
    }

score_of-parts :
    (s : GameState) (n score : ℕ) (p : CardPattern)
    → score_of s n p ≡ some score
    → (p.is_valid ≡ true) × ((s.last_pattern.is_valid ≡ false) ⊎ (can_beat p s.last_pattern ≡ true))
unfolding score_of
score_of-parts s n score p h = (
  ground arith,
  elim (Bool-cases s.last_pattern.is_valid) [ inl on ↦ inr (ground arith) | inr off ↦ inl off ],
)

Offers-IsLegal :
    (e : GameEngine) (id seat m score : ℕ)
    → e.state.phase ≡ playing
    → seat_of e.state id ≡ some seat
    → e.state.current_player_index ≡ some seat
    → (player e.state seat).has_finished ≡ false
    → Offers e.state (rule_context e) (player e.state seat).hand m score
    → (p : CardPattern) × IsLegal e id (subset_of m (player e.state seat).hand 0) seat p
      × (score ≡ cost (subset_of m (player e.state seat).hand 0) p)
Offers-IsLegal e id seat m score on seated turn active o =
    let (good, wins) = score_of-parts e.state _ score (analyze o.objs (rule_context e)) o.price in
    let hand = (player e.state seat).hand in
    (
      analyze o.objs (rule_context e),
      record {
        in_play = on;
        seated = seated;
        turn = turn;
        unfinished = active;
        held = contains-subset m 0 hand hand (λ a l. (elem_iff a hand).1 l);
        objs = o.objs;
        known = o.known;
        read = refl;
        valid = good;
        beats = wins;
      },
      some_eq (sym o.price ∙ score_of-cost e.state (subset_of m hand 0) _ good wins),
    )
  where
    some_eq : {a b : ℕ} → some a ≡ some b → a ≡ b
    some_eq h = cc h

choose_from-run :
    (s : GameState) (ctx : RuleContext) (hand : List ℕ) (b : Best)
    → length hand ≤ 30
    → try_masks s ctx hand (2 ^ length hand - 1) 1 (none, int_max) ≡ some b
    → choose_from s ctx hand ≡ some b.0
unfolding choose_from try_masks
choose_from-run s ctx [] b small run = nothing run
  where
    nothing : try_masks s ctx [] 0 1 (none, int_max) ≡ some b → some none ≡ some b.0
    nothing h = ground arith
choose_from-run s ctx (x ∷ xs) b small run =
    let below : (length (x ∷ xs) == 31) ≡ false = ground arith in
    let fits : ltb 31 (length (x ∷ xs)) ≡ false = ground arith in rw (below, fits, run) refl

seat_of_from-inside :
    (s : GameState) (id k i seat : ℕ) → seat_of_from s id k i ≡ some seat → seat < i + k
unfolding seat_of_from
seat_of_from-inside s id zero i seat h = absurd (cc h)
seat_of_from-inside s id (suc k) i seat h = ground (arith, seat_of_from-inside s id k (i + 1) seat)

seat_of-inside : (s : GameState) (id seat : ℕ) → seat_of s id ≡ some seat → seat < s.player_count
unfolding seat_of
seat_of-inside s id seat h = omega (arith, seat_of_from-inside s id s.player_count 0 seat h)

choose_bot_play_seated :
    (e : GameEngine) (id seat : ℕ)
    → seat_of e.state id ≡ some seat
    → leb e.state.player_count seat ≡ false
    → (player e.state seat).has_finished ≡ false
    → choose_bot_play e id ≡ choose_from e.state (rule_context e) (player e.state seat).hand
unfolding choose_bot_play choose_play
choose_bot_play_seated e id seat seated in_range active =
    rw (choose_bot_play, seated, choose_play, in_range, active) refl

IsCheapest-choice :
    (e : GameEngine) (id seat : ℕ) (b : Best)
    → e.state.phase ≡ playing
    → seat_of e.state id ≡ some seat
    → e.state.current_player_index ≡ some seat
    → (player e.state seat).has_finished ≡ false
    → IsBest e.state
        (rule_context e)
        (player e.state seat).hand
        (2 ^ length (player e.state seat).hand - 1)
        1
        (none, int_max)
        b
    → IsCheapest e id seat b.0
IsCheapest-choice e id seat b on seated turn active best =
    let hand = (player e.state seat).hand in
    let least : IsLeast e id seat b.1 = λ ids p c some_card legal.
      let (m, l, l', from_mask) = Choice-mask ids hand c some_card in
      let small : m < 1 + (2 ^ length hand - 1) = omega (arith, pow_pos (length hand)) in
      let offers = IsLegal-Offers e id seat m p (rw from_mask at legal) in
      rw from_mask (best.cheapest m (cost (subset_of m hand 0) p) l small offers) in
    elim best.origin [
      | inl same ↦
          let none_yet : b.0 ≡ none = ap (λ (c : Best). c.0) same in
          let limit : b.1 ≡ int_max = ap (λ (c : Best). c.1) same in
          rw none_yet
            (λ ids p c some_card legal. omega (arith, limit, least ids p c some_card legal))
      | inr (m, l, l', found, o) ↦
          let (p, legal, price) = Offers-IsLegal e id seat m b.1 on seated turn active o in
          rw found (subset_of-Choice m 0 hand, (p, legal, rw price at least))
    ]

-- A bot whose turn it is and that has not finished, with a hand of at most 30 known cards, chooses
-- cards from its hand that make a legal play, and no legal play of cards chosen from the hand, each
-- at most as often and in the same order as they are there, costs less: 10000 for each card, 10 for
-- each step of the rank, and the value of the type. It passes where each such play costs the limit
-- of an `int` or more.
pub choose_bot_play-IsCheapest :
    (e : GameEngine) (id seat : ℕ) (cards : List Card)
    → e.state.phase ≡ playing
    → seat_of e.state id ≡ some seat
    → e.state.current_player_index ≡ some seat
    → (player e.state seat).has_finished ≡ false
    → cards_from_ids e.state (player e.state seat).hand ≡ some cards
    → length (player e.state seat).hand ≤ 30
    → (choice : Option (List ℕ)) × (choose_bot_play e id ≡ some choice)
      × IsCheapest e id seat choice
choose_bot_play-IsCheapest e id seat cards on seated turn active known small =
    let hand = (player e.state seat).hand in
    let (b, run, best) =
      try_masks-IsBest e.state (rule_context e) hand cards known (2 ^ length hand - 1) 1
        (none, int_max) in
    let inside : seat < e.state.player_count = seat_of-inside e.state id seat seated in
    let in_range : leb e.state.player_count seat ≡ false = ground arith in
    (
      b.0,
      choose_bot_play_seated e id seat seated in_range active
          ∙ choose_from-run e.state (rule_context e) hand b small run,
      IsCheapest-choice e id seat b on seated turn active best,
    )
