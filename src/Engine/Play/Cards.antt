-- ===== src/Engine/Play/Cards.antt =====
-- What a play does to the hands.

use gd_server.Base.{
  Bool-cases, List, ap, arith, count, get_or-set_part, inl, inr, length, refl, some, suc, sym, zero,
  ℕ, ℕ_discrete, ◌+◌, ◌<◌, ◌∙◌, ◌≡◌, ◌≢◌, ◌⊎◌,
}
use gd_server.Engine.Play.{
  accepted, after_play, assign_finish_rank, end_round, judge_play, next_turn, play_cards, put_down,
  skip_finished, skip_fuel,
}
use gd_server.Engine.Table.{GameEngine, PlayResult}
use gd_server.Progress.Ranks.Hands.{assign_remaining-hand}
use gd_server.Rules.{CardPattern}
use gd_server.State.{GameState, Hand, PlayerState, empty_player, player, remove, set_player}
use gd_server.State.Hands.{IsHeld, count-remove, remove_iff, remove_short}
use gd_server.State.Seats.{player-set_ne, player-set_self}
use gd_server.Turns.{advance_turn}

abbrev hand_at : GameState → ℕ → Hand
hand_at s seat = (player s seat).hand

-- The hands of two tables agree.
abbrev pub SameHands : GameState → GameState → Type 0
SameHands s t = (x : ℕ) → (player s x).hand ≡ (player t x).hand

-- A write that leaves the hand of its seat leaves all hands.
set_player-SameHands :
    (s : GameState) (i : ℕ) (p : PlayerState)
    → p.hand ≡ (player s i).hand
    → SameHands (set_player s i p) s
set_player-SameHands s i p same x = get_or-set_part (λ q. q.hand) s.players i x p empty_player same

assign_finish_rank-SameHands : (s : GameState) (seat : ℕ) → SameHands (assign_finish_rank s seat) s
unfolding assign_finish_rank
assign_finish_rank-SameHands s seat = set_player-SameHands s seat _ refl

advance_turn-SameHands : (s : GameState) → SameHands (advance_turn s) s
unfolding advance_turn
advance_turn-SameHands s x = refl

skip_finished-hand :
    (fuel : ℕ) (s t : GameState) (x : ℕ)
    → skip_finished fuel s ≡ some t
    → (player t x).hand ≡ (player s x).hand
unfolding skip_finished
skip_finished-hand zero s t x h = ground arith
skip_finished-hand (suc fuel) s t x h =
    ground (arith, skip_finished-hand fuel (advance_turn s) t x, advance_turn-SameHands s x)

next_turn-hand :
    (e e' : GameEngine) (r : PlayResult) (x : ℕ)
    → next_turn e ≡ some (e', r)
    → (player e'.state x).hand ≡ (player e.state x).hand
unfolding next_turn
next_turn-hand e e' r x h = ground (
  arith,
  skip_finished-hand skip_fuel (advance_turn e.state) e'.state x,
  advance_turn-SameHands e.state x,
)

end_round-hand :
    (e : GameEngine) (x : ℕ) → (player (end_round e).0.state x).hand ≡ (player e.state x).hand
unfolding end_round
end_round-hand e x = assign_remaining-hand e.state x

-- After the cards are down, ranks and turns leave all hands as they are.
after_play-hand :
    (e e' : GameEngine) (seat : ℕ) (r : PlayResult) (x : ℕ)
    → after_play e seat ≡ some (e', r)
    → (player e'.state x).hand ≡ (player e.state x).hand
unfolding after_play
after_play-hand e e' seat r x h =
    let ranked = record e { state = assign_finish_rank e.state seat } in
    ground (
      arith,
      next_turn-hand e e' r x,
      next_turn-hand ranked e' r x,
      end_round-hand ranked x,
      assign_finish_rank-SameHands e.state seat x,
    )

pub put_down-hands :
    (s : GameState) (seat : ℕ) (cards : List ℕ) (p : CardPattern)
    → seat < length s.players
    → ((player (put_down s seat cards p) seat).hand ≡ (remove (player s seat).hand cards).0)
      × ((x : ℕ) → seat ≢ x → (player (put_down s seat cards p) x).hand ≡ (player s x).hand)
unfolding put_down
put_down-hands s seat cards p h =
    let q = record (player s seat) { hand = (remove (player s seat).hand cards).0 } in
    (
      ap (λ (a : PlayerState). a.hand) (player-set_self s seat q h),
      λ x other. ap (λ (a : PlayerState). a.hand) (player-set_ne s seat x q other),
    )

played-hands :
    (e e' : GameEngine) (cards : List ℕ) (seat : ℕ) (p : CardPattern) (r : PlayResult)
    → seat < length e.state.players
    → after_play (record e { state = put_down e.state seat cards p }) seat ≡ some (e', r)
    → ((player e'.state seat).hand ≡ (remove (player e.state seat).hand cards).0)
      × ((x : ℕ) → (x ≡ seat) ⊎ ((player e'.state x).hand ≡ (player e.state x).hand))
played-hands e e' cards seat p r inside played =
    let down = record e { state = put_down e.state seat cards p } in
    let (mine, others) = put_down-hands e.state seat cards p inside in
    (
      after_play-hand down e' seat r seat played ∙ mine,
      λ x. elim (ℕ_discrete seat x) [
        | yes same ↦ inl (sym same)
        | no other ↦ inr (after_play-hand down e' seat r x played ∙ others x other)
      ],
    )

-- A play that stands either takes just the played cards from the player's hand, which held each as
-- often as it was played, or it names a card more often than the hand holds it and the hand stays
-- as it was. All other hands stay.
pub play-hands :
    (e e' : GameEngine) (id : ℕ) (cards : List ℕ) (seat : ℕ) (p : CardPattern) (r : PlayResult)
    → play_cards e id cards ≡ some (e', r)
    → judge_play e id cards ≡ some (accepted seat p)
    → seat < length e.state.players
    → (IsHeld (player e.state seat).hand cards
          × ((a : ℕ)
              → count a (player e.state seat).hand
                ≡ count a cards + count a (player e'.state seat).hand)
        ⊎ (¬ IsHeld (player e.state seat).hand cards)
          × ((player e'.state seat).hand ≡ (player e.state seat).hand))
      × ((x : ℕ) → (x ≡ seat) ⊎ ((player e'.state x).hand ≡ (player e.state x).hand))
unfolding play_cards
play-hands e e' id cards seat p r h judged inside =
    let hand = (player e.state seat).hand in
    let (mine, others) = played-hands e e' cards seat p r inside (ground arith) in
    (
      elim (Bool-cases (remove hand cards).1) [
        | inl t ↦ inl ((remove_iff hand cards).0 t, λ a. rw mine ((count-remove hand cards).0 t a))
        | inr f ↦
            let short : ¬ IsHeld hand cards =
              λ all. ground (arith, (remove_iff hand cards).1 all) in
            inr (short, mine ∙ remove_short hand cards short)
      ],
      others,
    )
