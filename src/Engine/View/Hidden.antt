-- ===== src/Engine/View/Hidden.antt =====
-- The hands that a view keeps hidden.

use gd_server.Base.{
  List, Option, [], ap, get_or, length, none, refl, some, suc, zero, ℕ, ◌+◌, ◌>>=◌, ◌∙◌, ◌∷◌, ◌≡◌,
}
use gd_server.Engine.Table.{GameEngine, seat_of, seat_of_from}
use gd_server.Engine.View.{
  anchor_of, build_view_for, cards_of, must_return, other_player, others_from, own_round,
  partners_from, partners_of, required_for, returns_for, seat_plays, view_with,
}
use gd_server.State.{GameState, PlayerState, empty_player, get_card_by_id, player}
use gd_server.Tribute.Choice.{required_tribute_card, valid_return_card_ids}
use gd_server.Tribute.Data.{cards_from_ids}

-- The same table with other hands, of the same sizes.
abbrev with_players : GameEngine → List PlayerState → GameEngine
with_players e ps = record e { state = record (e.state) { players = ps } }

-- All of a player but the hand.
abbrev without_hand : PlayerState → PlayerState
without_hand p = record p { hand = [] }

pub record OtherHands (s : GameState) (ps : List PlayerState) : Type 0 where
  pub faces : (i : ℕ) → without_hand (get_or ps i empty_player) ≡ without_hand (player s i)
  pub sizes : (i : ℕ) → length (get_or ps i empty_player).hand ≡ length (player s i).hand

-- The seat keeps its hand.
abbrev pub KeepsHand : GameState → List PlayerState → Option ℕ → Type 0
KeepsHand s ps none = Unit {0}
KeepsHand s ps (some i) = (get_or ps i empty_player).hand ≡ (player s i).hand

module _ (e : GameEngine) (ps : List PlayerState) (o : OtherHands e.state ps) where
  face-id : (i : ℕ) → (get_or ps i empty_player).id ≡ (player e.state i).id
  face-id i = ap (λ (p : PlayerState). p.id) (o.faces i)

  face-team : (i : ℕ) → (get_or ps i empty_player).team ≡ (player e.state i).team
  face-team i = ap (λ (p : PlayerState). p.team) (o.faces i)

  face-finished :
      (i : ℕ) → (get_or ps i empty_player).has_finished ≡ (player e.state i).has_finished
  face-finished i = ap (λ (p : PlayerState). p.has_finished) (o.faces i)

  seat_of_from-same :
      (id k i : ℕ) → seat_of_from (with_players e ps).state id k i ≡ seat_of_from e.state id k i
  unfolding seat_of_from
  seat_of_from-same id zero i = refl
  seat_of_from-same id (suc k) i = rw (face-id i, seat_of_from-same id k (i + 1)) refl

  partners_from-same :
      (viewer team k i : ℕ)
      → partners_from (with_players e ps).state viewer team k i
        ≡ partners_from e.state viewer team k i
  unfolding partners_from
  partners_from-same viewer team zero i = refl
  partners_from-same viewer team (suc k) i =
      rw (face-team i, face-finished i, partners_from-same viewer team k (i + 1)) refl

  partners_of-same :
      (viewer : Option ℕ)
      → partners_of (with_players e ps).state viewer ≡ partners_of e.state viewer
  unfolding partners_of
  partners_of-same none = refl
  partners_of-same (some seat) =
      rw
        (
          face-team seat,
          face-finished seat,
          partners_from-same seat (player e.state seat).team e.state.player_count 0,
        )
        refl

  other_player-same :
      (i : ℕ) → other_player i (get_or ps i empty_player) ≡ other_player i (player e.state i)
  unfolding other_player
  other_player-same i =
      ap
        (λ (p : PlayerState). record (other_player i p) {
          card_count = length (get_or ps i empty_player).hand;
        })
        (o.faces i)
      ∙ ap (λ n. record (other_player i (player e.state i)) { card_count = n }) (o.sizes i)

  others_from-same :
      (anchor : Option ℕ) (k i : ℕ)
      → others_from (with_players e ps).state anchor k i ≡ others_from e.state anchor k i
  unfolding others_from
  others_from-same anchor zero i = refl
  others_from-same anchor (suc k) i =
      rw (other_player-same i, others_from-same anchor k (i + 1)) refl

  own_round-same : (anchor : Option ℕ) → own_round (with_players e ps) anchor ≡ own_round e anchor
  unfolding own_round
  own_round-same none = refl
  own_round-same (some seat) = rw (face-team seat) refl

  cards_of-same :
      (anchor : Option ℕ)
      → KeepsHand e.state ps anchor
      → cards_of (with_players e ps).state anchor ≡ cards_of e.state anchor
  unfolding cards_of
  cards_of-same none h = refl
  cards_of-same (some seat) h = h

  must_return-same :
      (viewer : Option ℕ) → must_return (with_players e ps) viewer ≡ must_return e viewer
  unfolding must_return
  must_return-same none = refl
  must_return-same (some seat) = refl

  cards_from_ids-same :
      (ids : List ℕ) → cards_from_ids (with_players e ps).state ids ≡ cards_from_ids e.state ids
  unfolding cards_from_ids get_card_by_id
  cards_from_ids-same [] = refl
  cards_from_ids-same (id ∷ ids) = rw (cards_from_ids-same ids) refl

  required_for-same :
      (viewer : Option ℕ)
      → KeepsHand e.state ps viewer
      → required_for (with_players e ps) viewer ≡ required_for e viewer
  unfolding required_for required_tribute_card
  required_for-same none h = refl
  required_for-same (some seat) h = rw (h, cards_from_ids-same (player e.state seat).hand) refl

  returns_for-same :
      (viewer : Option ℕ)
      → KeepsHand e.state ps viewer
      → returns_for (with_players e ps) viewer ≡ returns_for e viewer
  unfolding returns_for valid_return_card_ids
  returns_for-same none h = refl
  returns_for-same (some seat) h = rw (h, cards_from_ids-same (player e.state seat).hand) refl

  view_with-same :
      (viewer anchor : Option ℕ) (required : ℕ) (returns : List ℕ)
      → KeepsHand e.state ps anchor
      → view_with (with_players e ps) viewer anchor required returns
        ≡ view_with e viewer anchor required returns
  unfolding view_with seat_plays
  view_with-same viewer anchor required returns h =
      rw
        (
          own_round-same anchor,
          partners_of-same viewer,
          cards_of-same anchor h,
          must_return-same viewer,
          others_from-same anchor e.state.player_count 0,
        )
        refl

  -- The view once the two answers are known.
  bound-same :
      (viewer anchor : Option ℕ) (m : Option ℕ) (n : Option (List ℕ))
      → KeepsHand e.state ps anchor
      → (m >>= λ required.
          n >>= λ returns. some (view_with (with_players e ps) viewer anchor required returns))
        ≡ (m >>= λ required. n >>= λ returns. some (view_with e viewer anchor required returns))
  bound-same viewer anchor none n h = refl
  bound-same viewer anchor (some a) none h = refl
  bound-same viewer anchor (some a) (some b) h = ap some (view_with-same viewer anchor a b h)

  views-same :
      (viewer anchor : Option ℕ)
      → KeepsHand e.state ps viewer
      → KeepsHand e.state ps anchor
      → (required_for (with_players e ps) viewer >>= λ required.
          returns_for (with_players e ps) viewer >>= λ returns.
          some (view_with (with_players e ps) viewer anchor required returns))
        ≡ (required_for e viewer >>= λ required.
            returns_for e viewer >>= λ returns. some (view_with e viewer anchor required returns))
  views-same viewer anchor own open_hand =
      rw (required_for-same viewer own, returns_for-same viewer own)
        (bound-same viewer anchor (required_for e viewer) (returns_for e viewer) open_hand)

  anchor_of-same :
      (viewer seat : Option ℕ)
      → anchor_of (with_players e ps).state viewer seat ≡ anchor_of e.state viewer seat
  unfolding anchor_of
  anchor_of-same viewer none = refl
  anchor_of-same viewer (some a) = refl

-- The view of a player is the same at any two tables that differ only in hands, by cards and not by
-- their number, and where the player and the seat that the view is taken from have the same hand.
pub view_hides_hands :
    (e : GameEngine) (ps : List PlayerState) (viewer_id : ℕ) (seat : Option ℕ)
    → OtherHands e.state ps
    → KeepsHand e.state ps (seat_of e.state viewer_id)
    → KeepsHand e.state ps (anchor_of e.state (seat_of e.state viewer_id) seat)
    → build_view_for (record e { state = record (e.state) { players = ps } }) viewer_id seat
      ≡ build_view_for e viewer_id seat
unfolding build_view_for seat_of
view_hides_hands e ps viewer_id seat o own open_hand =
    rw
      (
        seat_of_from-same e ps o viewer_id e.state.player_count 0,
        anchor_of-same e ps o (seat_of e.state viewer_id) seat,
      )
      (views-same e ps o (seat_of e.state viewer_id)
        (anchor_of e.state (seat_of e.state viewer_id) seat) own open_hand)
